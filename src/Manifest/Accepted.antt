-- ===== src/Manifest/Accepted.antt =====
-- What `provider_manifest_from_dict` accepts, and how it refuses.
use mathlib.Core.Option as Maybe
use mathlib.Core.Option.{none, some}
use aikernel_core.Base.{
  String, ◌≡◌, ◌≢◌, ◌⊎◌, refl, inl, inr, false, List, [], ◌∷◌, ◌==◌, Bool-cases, if◌then◌else◌,
}
use aikernel_core.Python.Object.{Exn, value_error, attribute_error}
use aikernel_core.Python.Effect.{return, raise}
use aikernel_core.Python.Effect.Rules.{Ends}
use aikernel_core.Python.Fallible.{Ends->>=}
use aikernel_core.Python.Dict.{get}
use aikernel_core.Python.Text.{strip}
use aikernel_core.Python.Text.Laws.{strip-strip}
use aikernel_core.Python.Sorting.{sorted_items}
use aikernel_core.Python.Sorting.Laws.{IsSorted}
use aikernel_core.Python.Sorting.Order.{sort-IsSorted}
use aikernel_core.Manifest.{
  ProviderManifest, ProviderCliManifest, non_empty, optional_string, required, required_string,
  stripped_texts, string_tuple, or_empty, read_cli_fields, read_cli, read_metadata, declared,
  provider_manifest_from_dict,
}
use aikernel_core.Manifest.Decoded.{Json, Document, items_of, fields_of, shown, truthy}

-- A text is not empty and has no space at its ends.
abbrev pub IsText : String → Type 0
IsText s = (strip s ≡ s) × ((s == "") ≡ false)

abbrev pub AreTexts : List String → Type 0
AreTexts [] = Unit
AreTexts (s ∷ l) = IsText s × AreTexts l

abbrev pub IsOptional {ℓ κ} : {A : Type ℓ} → (A → Type κ) → Maybe.Option A → Type κ
IsOptional P none = Unit
IsOptional P (some a) = P a

abbrev pub IsTextOrEmpty : String → Type 0
IsTextOrEmpty s = (s ≡ "") ⊎ IsText s

pub record IsCli (cli : ProviderCliManifest) : Type 0 where
  pub command : IsTextOrEmpty cli.command
  pub default_operation : IsTextOrEmpty cli.default_operation
  pub config_keys : AreTexts cli.config_keys
  pub required_environment : AreTexts cli.required_environment

pub record IsManifest (m : ProviderManifest) : Type 0 where
  pub provider_id : IsText m.provider_id
  pub name : IsText m.name
  pub version : IsText m.version
  pub capabilities : AreTexts m.capabilities
  pub some_capability : m.capabilities ≢ []
  pub metadata : IsSorted (λ e. e.0) m.metadata
  pub assembly : IsOptional IsText m.assembly
  pub cli : IsOptional IsCli m.cli

-- A ValueError or an AttributeError.
abbrev pub IsRefusal : Exn → Type 0
IsRefusal e = (s : String) × ((e ≡ value_error s) ⊎ (e ≡ attribute_error s))

non_empty-IsText : (s : String) → IsOptional IsText (non_empty (strip s))
non_empty-IsText s = elim (Bool-cases (strip s == "")) [
  | inl e ↦ rw e tt
  | inr e ↦ rw e (strip-strip s, e)
]

optional_string-IsText : (value : Maybe.Option Json) → IsOptional IsText (optional_string value)
unfolding optional_string
optional_string-IsText none = tt
optional_string-IsText (some Json.null) = tt
optional_string-IsText (some (Json.text s)) = non_empty-IsText (shown (Json.text s))
optional_string-IsText (some (Json.boolean b)) = non_empty-IsText (shown (Json.boolean b))
optional_string-IsText (some (Json.number z s)) = non_empty-IsText (shown (Json.number z s))
optional_string-IsText (some (Json.array items s)) = non_empty-IsText (shown (Json.array items s))
optional_string-IsText (some (Json.object fields s)) =
    non_empty-IsText (shown (Json.object fields s))

required-IsText :
    (key : String) (value : Maybe.Option String)
    → IsOptional IsText value
    → Ends IsText IsRefusal (required key value)
required-IsText key none h = (_, inl refl)
required-IsText key (some s) h = h

required_string-IsText :
    (document : Document) (key : String) → Ends IsText IsRefusal (required_string document key)
unfolding required_string
required_string-IsText document key =
    required-IsText key (optional_string (get key document))
      (optional_string-IsText (get key document))

stripped_texts-AreTexts : (value : List Json) → AreTexts (stripped_texts value)
unfolding stripped_texts
stripped_texts-AreTexts [] = tt
stripped_texts-AreTexts (item ∷ value) = elim (Bool-cases (strip (shown item) == "")) [
  | inl e ↦ rw e (stripped_texts-AreTexts value)
  | inr e ↦ rw e ((strip-strip (shown item), e), stripped_texts-AreTexts value)
]

string_tuple-AreTexts : (value : Maybe.Option Json) → Ends AreTexts IsRefusal (string_tuple value)
unfolding string_tuple
string_tuple-AreTexts none = tt
string_tuple-AreTexts (some Json.null) = tt
string_tuple-AreTexts (some (Json.array items s)) = stripped_texts-AreTexts (items_of items)
string_tuple-AreTexts (some (Json.text s)) = (_, inl refl)
string_tuple-AreTexts (some (Json.boolean b)) = (_, inl refl)
string_tuple-AreTexts (some (Json.number z s)) = (_, inl refl)
string_tuple-AreTexts (some (Json.object fields s)) = (_, inl refl)

or_empty-IsTextOrEmpty :
    (value : Maybe.Option String) → IsOptional IsText value → IsTextOrEmpty (or_empty value)
or_empty-IsTextOrEmpty none h = inl refl
or_empty-IsTextOrEmpty (some s) h = inr h

read_cli_fields-IsCli :
    (value : Document) → Ends (IsOptional IsCli) IsRefusal (read_cli_fields value)
unfolding read_cli_fields
read_cli_fields-IsCli value =
    Ends->>= AreTexts (IsOptional IsCli) IsRefusal (string_tuple (get "configKeys" value)) _
      (string_tuple-AreTexts (get "configKeys" value))
      λ keys h.
        Ends->>= AreTexts (IsOptional IsCli) IsRefusal
          (string_tuple (get "requiredEnvironment" value)) _
          (string_tuple-AreTexts (get "requiredEnvironment" value))
          λ variables h'. record {
            command = or_empty-IsTextOrEmpty _ (optional_string-IsText (get "command" value));
            default_operation =
                or_empty-IsTextOrEmpty _ (optional_string-IsText (get "defaultOperation" value));
            config_keys = h;
            required_environment = h';
          }

read_cli-IsCli : (value : Maybe.Option Json) → Ends (IsOptional IsCli) IsRefusal (read_cli value)
unfolding read_cli
read_cli-IsCli none = tt
read_cli-IsCli (some Json.null) = tt
read_cli-IsCli (some (Json.object fields s)) = read_cli_fields-IsCli (fields_of fields)
read_cli-IsCli (some (Json.text s)) = (_, inl refl)
read_cli-IsCli (some (Json.boolean b)) = (_, inl refl)
read_cli-IsCli (some (Json.number z s)) = (_, inl refl)
read_cli-IsCli (some (Json.array items s)) = (_, inl refl)

refuse :
    (value : Json)
    → Ends {A = List (String × String)}
        (λ d. Unit {0})
        IsRefusal
        (if truthy value then raise (attribute_error "object has no such attribute") else return [])
refuse value = elim (Bool-cases (truthy value)) [ inl e ↦ rw e (_, inr refl) | inr e ↦ rw e tt ]

read_metadata-refuses :
    (value : Maybe.Option Json) → Ends (λ d. Unit {0}) IsRefusal (read_metadata value)
unfolding read_metadata
read_metadata-refuses none = tt
read_metadata-refuses (some (Json.object fields s)) = tt
read_metadata-refuses (some Json.null) = refuse Json.null
read_metadata-refuses (some (Json.text s)) = refuse (Json.text s)
read_metadata-refuses (some (Json.boolean b)) = refuse (Json.boolean b)
read_metadata-refuses (some (Json.number z s)) = refuse (Json.number z s)
read_metadata-refuses (some (Json.array items s)) = refuse (Json.array items s)

declared-IsSome : (l : List String) → Ends (λ d. l ≢ []) IsRefusal (declared l)
declared-IsSome [] = (_, inl refl)
declared-IsSome (s ∷ l) = λ e. cc

-- A manifest that is accepted has non-empty and stripped texts for its identifier, name, version,
-- capabilities and assembly, at least one capability, metadata in the order of the keys, and
-- stripped texts in its cli settings. A document that is not accepted is refused by a ValueError or
-- an AttributeError.
pub provider_manifest_from_dict-IsManifest :
    (document : Document) → Ends IsManifest IsRefusal (provider_manifest_from_dict document)
unfolding provider_manifest_from_dict sorted_items
provider_manifest_from_dict-IsManifest document =
    Ends->>= IsText IsManifest IsRefusal (required_string document "providerId") _
      (required_string-IsText document "providerId")
      λ provider_id h_id.
        Ends->>= IsText IsManifest IsRefusal (required_string document "name") _
          (required_string-IsText document "name")
          λ name h_name.
            Ends->>= IsText IsManifest IsRefusal (required_string document "version") _
              (required_string-IsText document "version")
              λ version h_version.
                Ends->>= AreTexts IsManifest IsRefusal (string_tuple (get "capabilities" document))
                  _ (string_tuple-AreTexts (get "capabilities" document))
                  λ capabilities h_capabilities.
                    Ends->>= (λ d. capabilities ≢ []) IsManifest IsRefusal (declared capabilities) _
                      (declared-IsSome capabilities)
                      λ _ h_some.
                        Ends->>= (λ d. Unit {0}) IsManifest IsRefusal
                          (read_metadata (get "metadata" document)) _
                          (read_metadata-refuses (get "metadata" document))
                          λ metadata _.
                            Ends->>= (IsOptional IsCli) IsManifest IsRefusal
                              (read_cli (get "cli" document)) _
                              (read_cli-IsCli (get "cli" document))
                              λ cli h_cli. record {
                                provider_id = h_id;
                                name = h_name;
                                version = h_version;
                                capabilities = h_capabilities;
                                some_capability = h_some;
                                metadata = sort-IsSorted (λ e. e.0) metadata;
                                assembly = optional_string-IsText (get "assembly" document);
                                cli = h_cli;
                              }
