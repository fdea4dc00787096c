-- ===== src/Manifest/RoundTrip.antt =====
-- Documents that describe manifests, as python/src/aikernel_net/provider_manifest.py reads them.
use mathlib.Core.Option as Maybe
use mathlib.Core.Option.{none, some}
use aikernel_core.Base.{String, ◌≡◌, ◌≢◌, refl, List, [], ◌∷◌, inl, inr}
use aikernel_core.Python.Effect.{return}
use aikernel_core.Python.Dict.{get}
use aikernel_core.Python.Text.{strip}
use aikernel_core.Python.Sorting.{sorted_items}
use aikernel_core.Python.Sorting.Laws.{sort_self}
use aikernel_core.Manifest.{
  ProviderManifest, ProviderCliManifest, optional_string, required_string, stripped_texts, or_empty,
  read_cli_fields, read_cli, read_metadata, shown_values, declared, provider_manifest_from_dict,
}
use aikernel_core.Manifest.Decoded.{Json, Items, Fields, Document, items_of, fields_of, shown}
use aikernel_core.Manifest.Accepted.{IsText, IsTextOrEmpty, AreTexts, IsOptional, IsCli, IsManifest}

-- An array of texts.
abbrev texts : List String → Items
texts [] = Items.no_item
texts (s ∷ l) = Items.item (Json.text s) (texts l)

-- An object whose values are texts.
abbrev entries : List (String × String) → Fields
entries [] = Fields.no_field
entries ((k, v) ∷ d) = Fields.field k (Json.text v) (entries d)

abbrev or_null : Maybe.Option String → Json
or_null none = Json.null
or_null (some s) = Json.text s

-- The texts that `str` gives of a list and of a dictionary.
module _ (list_text : Items → String) (dict_text : Fields → String) where
  abbrev array_of : List String → Json
  array_of l = Json.array (texts l) (list_text (texts l))

  abbrev object_of : Fields → Json
  object_of fields = Json.object fields (dict_text fields)

  abbrev cli_of : Maybe.Option ProviderCliManifest → Json
  cli_of none = Json.null
  cli_of (some cli) = object_of (
      Fields.field "command" (Json.text cli.command) (
        Fields.field "defaultOperation" (Json.text cli.default_operation) (
          Fields.field "configKeys" (array_of cli.config_keys) (
            Fields.field "requiredEnvironment" (array_of cli.required_environment)
              Fields.no_field))))

  -- The document with every field of a manifest.
  abbrev pub document_of : ProviderManifest → Document
  document_of m =
      ("providerId", Json.text m.provider_id)
      ∷ ("name", Json.text m.name)
      ∷ ("version", Json.text m.version)
      ∷ ("capabilities", array_of m.capabilities)
      ∷ ("metadata", object_of (entries m.metadata))
      ∷ ("assembly", or_null m.assembly)
      ∷ ("cli", cli_of m.cli)
      ∷ []

  optional_string-text : (s : String) → IsText s → optional_string (some (Json.text s)) ≡ some s
  unfolding optional_string shown
  optional_string-text s h = rw (h.0, h.1) refl

  or_empty-text :
      (s : String) → IsTextOrEmpty s → or_empty (optional_string (some (Json.text s))) ≡ s
  unfolding optional_string shown strip
  or_empty-text s (inl e) = rw e refl
  or_empty-text s (inr h) = rw (optional_string-text s h) refl

  stripped_texts-texts : (l : List String) → AreTexts l → stripped_texts (items_of (texts l)) ≡ l
  unfolding stripped_texts items_of shown
  stripped_texts-texts [] h = refl
  stripped_texts-texts (s ∷ l) h = rw (h.0.0, h.0.1, stripped_texts-texts l h.1) refl

  shown_values-entries : (d : List (String × String)) → shown_values (fields_of (entries d)) ≡ d
  unfolding shown_values fields_of shown
  shown_values-entries [] = refl
  shown_values-entries ((k, v) ∷ d) = rw (shown_values-entries d) refl

  read_cli-cli_of :
      (cli : Maybe.Option ProviderCliManifest)
      → IsOptional IsCli cli
      → read_cli (some (cli_of cli)) ≡ return cli
  unfolding read_cli read_cli_fields fields_of get
  read_cli-cli_of none h = refl
  read_cli-cli_of (some cli) h =
      rw
        (
          stripped_texts-texts cli.config_keys h.config_keys,
          stripped_texts-texts cli.required_environment h.required_environment,
          or_empty-text cli.command h.command,
          or_empty-text cli.default_operation h.default_operation,
        )
        refl

  optional_string-or_null :
      (value : Maybe.Option String)
      → IsOptional IsText value
      → optional_string (some (or_null value)) ≡ value
  unfolding optional_string
  optional_string-or_null none h = refl
  optional_string-or_null (some s) h = optional_string-text s h

  declared-some : (l : List String) → l ≢ [] → declared l ≡ return tt
  declared-some [] h = absurd (h refl)
  declared-some (s ∷ l) h = refl

  -- A well-formed manifest is what is read from the document that describes it.
  pub provider_manifest_from_dict-document_of :
      (m : ProviderManifest) → IsManifest m → provider_manifest_from_dict (document_of m) ≡ return m
  unfolding provider_manifest_from_dict required_string read_metadata sorted_items get
  provider_manifest_from_dict-document_of m h =
      rw
        (
          optional_string-text m.provider_id h.provider_id,
          optional_string-text m.name h.name,
          optional_string-text m.version h.version,
          stripped_texts-texts m.capabilities h.capabilities,
          declared-some m.capabilities h.some_capability,
          shown_values-entries m.metadata,
          sort_self (λ e. e.0) m.metadata h.metadata,
          read_cli-cli_of m.cli h.cli,
          optional_string-or_null m.assembly h.assembly,
        )
        refl
