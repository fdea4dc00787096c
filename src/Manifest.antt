-- ===== src/Manifest.antt =====
-- Provider manifests: python/src/aikernel_net/provider_manifest.py.
pub mod Decoded
pub mod Accepted
pub mod RoundTrip
pub mod Capability
pub mod CliEntries
pub mod Deterministic
use mathlib.Core.Option as Maybe
use mathlib.Core.Option.{none, some}
use Prim.Native.String.{◌++◌}
use aikernel_core.Base.{String, Bool, true, false, List, [], ◌∷◌, map, ◌==◌, if◌then◌else◌}
use aikernel_core.Python.Object.{value_error, attribute_error}
use aikernel_core.Python.Effect.{Outcome, return, raise}
use aikernel_core.Python.Fallible.{◌>>=◌, ◌>>◌}
use aikernel_core.Python.Dict.{get, put, update}
use aikernel_core.Python.Text.{strip}
use aikernel_core.Python.Sorting.{sorted, sorted_items}
use aikernel_core.Manifest.Decoded.{Json, Document, items_of, fields_of, shown, truthy}

pub record ProviderCliManifest : Type 0 where
  pub command : String
  pub default_operation : String
  pub config_keys : List String
  pub required_environment : List String

pub record ProviderManifest : Type 0 where
  pub provider_id : String
  pub name : String
  pub version : String
  pub capabilities : List String
  pub metadata : List (String × String)
  pub assembly : Maybe.Option String
  pub cli : Maybe.Option ProviderCliManifest

-- `text or None`
abbrev pub non_empty : String → Maybe.Option String
non_empty text = if text == "" then none else some text

-- `_optional_string`, of a key that is missing or of null (none), or of a value
unfoldable pub optional_string : Maybe.Option Json → Maybe.Option String
unfolding strip shown
optional_string none = none
optional_string (some Json.null) = none
optional_string (some value) = non_empty (strip (shown value))

abbrev pub required : String → Maybe.Option String → Outcome String
required key none = raise (value_error ("Provider manifest field is required: " ++ key))
required key (some value) = return value

-- `_required_string`
unfoldable pub required_string : Document → String → Outcome String
unfolding optional_string get
required_string document key = required key (optional_string (get key document))

-- The comprehension of `_string_tuple`.
unfoldable pub stripped_texts : List Json → List String
unfolding strip shown
stripped_texts [] = []
stripped_texts (item ∷ value) =
    let text = strip (shown item) in
    let rest = stripped_texts value in if text == "" then rest else text ∷ rest

-- `_string_tuple`, of a key that is missing (none), whose default is the empty tuple, or of a value
unfoldable pub string_tuple : Maybe.Option Json → Outcome (List String)
unfolding stripped_texts items_of
string_tuple none = return []
string_tuple (some Json.null) = return []
string_tuple (some (Json.array items text)) = return (stripped_texts (items_of items))
string_tuple (some _) = raise (value_error "Provider manifest list field must be an array.")

-- `_optional_string(value) or ""`
abbrev pub or_empty : Maybe.Option String → String
or_empty none = ""
or_empty (some text) = text

-- `_read_cli` of an object
abbrev pub read_cli_fields : Document → Outcome (Maybe.Option ProviderCliManifest)
unfolding optional_string string_tuple get
read_cli_fields value = do
  config_keys ← string_tuple (get "configKeys" value)
  required_environment ← string_tuple (get "requiredEnvironment" value)
  return (
      some (record {
        command = or_empty (optional_string (get "command" value));
        default_operation = or_empty (optional_string (get "defaultOperation" value));
        config_keys = config_keys;
        required_environment = required_environment;
      }))

-- `_read_cli`
unfoldable pub read_cli : Maybe.Option Json → Outcome (Maybe.Option ProviderCliManifest)
unfolding read_cli_fields fields_of
read_cli none = return none
read_cli (some Json.null) = return none
read_cli (some (Json.object fields text)) = read_cli_fields (fields_of fields)
read_cli (some _) = raise (value_error "Provider manifest cli must be an object.")

-- `{str(key): str(value) for key, value in d.items()}`
abbrev pub shown_values : Document → List (String × String)
unfolding shown
shown_values d = map (λ e. (e.0, shown e.1)) d

-- The metadata, of `document.get("metadata") or {}`: what is no object and is true has no `items`.
unfoldable pub read_metadata : Maybe.Option Json → Outcome (List (String × String))
unfolding shown_values fields_of truthy
read_metadata none = return []
read_metadata (some (Json.object fields text)) = return (shown_values (fields_of fields))
read_metadata (some value) =
    if truthy value then raise (attribute_error "object has no such attribute") else return []

abbrev pub declared : List String → Outcome (Unit {0})
declared [] = raise (value_error "Provider manifest must declare at least one capability.")
declared (_ ∷ _) = return tt

unfoldable pub provider_manifest_from_dict : Document → Outcome ProviderManifest
unfolding required_string string_tuple read_metadata read_cli optional_string sorted_items get
provider_manifest_from_dict document = do
  provider_id ← required_string document "providerId"
  name ← required_string document "name"
  version ← required_string document "version"
  capabilities ← string_tuple (get "capabilities" document)
  declared capabilities
  metadata ← read_metadata (get "metadata" document)
  cli ← read_cli (get "cli" document)
  return (record {
    provider_id = provider_id;
    name = name;
    version = version;
    capabilities = capabilities;
    metadata = sorted_items metadata;
    assembly = optional_string (get "assembly" document);
    cli = cli;
  })

-- `load_provider_manifest`, on the decoded file
unfoldable pub load_provider_manifest : Json → Outcome ProviderManifest
unfolding provider_manifest_from_dict fields_of
load_provider_manifest (Json.object fields text) = provider_manifest_from_dict (fields_of fields)
load_provider_manifest _ = raise (value_error "Provider manifest must be a JSON object.")

-- `if text: items[key] = text`
abbrev pub put_text : String → String → List (String × String) → List (String × String)
unfolding put
put_text key text items = if text == "" then items else put key text items

-- `for text in texts: items[prefix + text] = text`
unfoldable pub put_texts : String → List String → List (String × String) → List (String × String)
unfolding put
put_texts prefix [] items = items
put_texts prefix (text ∷ texts) items = put_texts prefix texts (put (prefix ++ text) text items)

abbrev pub add_cli :
    Maybe.Option ProviderCliManifest → List (String × String) → List (String × String)
unfolding put_text put_texts sorted
add_cli none items = items
add_cli (some cli) items = put_texts "cli.env." (sorted cli.required_environment) (
    put_texts "cli.config." (sorted cli.config_keys) (
      put_text "cli.default_operation" cli.default_operation
        (put_text "cli.command" cli.command items)))

unfoldable pub to_capability_metadata : ProviderManifest → List (String × String)
unfolding add_cli sorted_items
to_capability_metadata self = add_cli self.cli (sorted_items self.metadata)
