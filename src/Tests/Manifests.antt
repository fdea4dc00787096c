-- ===== src/Tests/Manifests.antt =====
-- Provider manifests and contract descriptors on small inputs.
use mathlib.Core.List.{Memᴰ, Permᴰ}
use mathlib.Core.Option.{none, some}
use Prim.Native.String.{◌++◌}
use aikernel_core.Base.{String, ◌≡◌, refl, inl, inr, List, [], ◌∷◌, ◌==◌, if◌then◌else◌}
use aikernel_core.Python.Object.{value_error}
use aikernel_core.Python.Effect.{return, raise}
use aikernel_core.Python.Effect.Rules.{Ends}
use aikernel_core.Python.Dict.{get, contains}
use aikernel_core.Python.Dict.Laws.{IsDict}
use aikernel_core.Python.Text.{strip}
use aikernel_core.Manifest.{
  ProviderManifest, ProviderCliManifest, provider_manifest_from_dict, load_provider_manifest,
  to_capability_metadata,
}
use aikernel_core.Manifest.Decoded.{Json, Items, Fields, Document}
use aikernel_core.Manifest.Accepted.{
  IsManifest, IsCli, IsRefusal, provider_manifest_from_dict-IsManifest,
}
use aikernel_core.Manifest.RoundTrip.{document_of, provider_manifest_from_dict-document_of}
use aikernel_core.Manifest.CliEntries.{to_capability_metadata-entries}
use aikernel_core.Manifest.Deterministic.{to_capability_metadata-perm}
use aikernel_core.Contracts.{get_or, rom_storage_contract, vfs_git_contract}
use aikernel_core.Contracts.Laws.{contracts-metadata}

abbrev sample_cli : ProviderCliManifest
sample_cli = record {
  command = "ask";
  default_operation = "";
  config_keys = "model" ∷ "host" ∷ [];
  required_environment = "API_KEY" ∷ [];
}

abbrev sample_metadata : List (String × String)
sample_metadata = ("owner", "core") ∷ ("tier", "b") ∷ []

abbrev sample : ProviderManifest
sample = record {
  provider_id = "acme.chat";
  name = "Chat";
  version = "1.0";
  capabilities = "chat" ∷ [];
  metadata = sample_metadata;
  assembly = none;
  cli = some sample_cli;
}

abbrev list_text : Items → String
list_text items = "[...]"

abbrev dict_text : Fields → String
dict_text fields = "{...}"

abbrev sample_document : Document
sample_document = document_of list_text dict_text sample

sample_metadata-IsDict : IsDict sample_metadata
unfolding contains
sample_metadata-IsDict = (refl, (refl, tt))

sample_cli-IsCli : IsCli sample_cli
unfolding strip
sample_cli-IsCli = record {
  command = inr (refl, refl);
  default_operation = inl refl;
  config_keys = ((refl, refl), ((refl, refl), tt));
  required_environment = ((refl, refl), tt);
}

sample-IsManifest : IsManifest sample
unfolding strip
sample-IsManifest = record {
  provider_id = (refl, refl);
  name = (refl, refl);
  version = (refl, refl);
  capabilities = ((refl, refl), tt);
  some_capability = λ e. cc;
  metadata = (refl, (tt, tt));
  assembly = tt;
  cli = sample_cli-IsCli;
}

blank_name :
    load_provider_manifest (
      Json.object
        (Fields.field "providerId"
          (Json.text "p")
          (Fields.field "name" (Json.text " ") Fields.no_field))
        "{...}")
    ≡ raise (value_error "Provider manifest field is required: name")
unfolding load_provider_manifest
blank_name = refl

sample_capability_metadata :
    to_capability_metadata sample
    ≡ ("owner", "core")
      ∷ ("tier", "b")
      ∷ ("cli.command", "ask")
      ∷ ("cli.config.host", "host")
      ∷ ("cli.config.model", "model")
      ∷ ("cli.env.API_KEY", "API_KEY")
      ∷ []
unfolding to_capability_metadata
sample_capability_metadata = refl

provider_manifest_from_dict-IsManifest_example :
    Ends IsManifest IsRefusal (provider_manifest_from_dict sample_document)
provider_manifest_from_dict-IsManifest_example =
    provider_manifest_from_dict-IsManifest sample_document

provider_manifest_from_dict-document_of_example :
    provider_manifest_from_dict sample_document ≡ return sample
provider_manifest_from_dict-document_of_example =
    provider_manifest_from_dict-document_of list_text dict_text sample sample-IsManifest

contracts-metadata_example :
    (IsDict (rom_storage_contract "c" "git" sample_metadata).metadata
      × (get "owner" (rom_storage_contract "c" "git" sample_metadata).metadata
          ≡ (if "storageScheme" == "owner" then some "git" else get "owner" sample_metadata))
      × ((rom_storage_contract "c" "git" sample_metadata).version
          ≡ get_or "version" "0.1.2" sample_metadata))
    × (IsDict (vfs_git_contract "c" "git" sample_metadata).metadata
        × (get "owner" (vfs_git_contract "c" "git" sample_metadata).metadata
            ≡ (if "repositoryMode" == "owner" then some "git" else get "owner" sample_metadata))
        × ((vfs_git_contract "c" "git" sample_metadata).version
            ≡ get_or "version" "0.1.2" sample_metadata))
contracts-metadata_example =
    contracts-metadata sample_metadata sample_metadata-IsDict "c" "git" "owner"

to_capability_metadata-entries_example :
    IsDict (to_capability_metadata sample)
    × (get "tier" (to_capability_metadata sample) ≡ get "tier" sample_metadata)
    × (get "cli.command" (to_capability_metadata sample) ≡ some "ask")
    × (get "cli.default_operation" (to_capability_metadata sample)
        ≡ get "cli.default_operation" sample_metadata)
    × ((key : String)
        → Memᴰ key ("model" ∷ "host" ∷ [])
        → get ("cli.config." ++ key) (to_capability_metadata sample) ≡ some key)
    × ((variable : String)
        → Memᴰ variable ("API_KEY" ∷ [])
        → get ("cli.env." ++ variable) (to_capability_metadata sample) ≡ some variable)
to_capability_metadata-entries_example =
    to_capability_metadata-entries sample sample_cli "tier" sample_metadata-IsDict refl refl

-- The sample with its metadata and its configuration keys in another order.
abbrev reordered : ProviderManifest
reordered = record sample {
  metadata = ("tier", "b") ∷ ("owner", "core") ∷ [];
  cli = some (record sample_cli { config_keys = "host" ∷ "model" ∷ [] });
}

to_capability_metadata-perm_example :
    to_capability_metadata sample ≡ to_capability_metadata reordered
to_capability_metadata-perm_example =
    to_capability_metadata-perm sample reordered sample_metadata-IsDict (Permᴰ.swap refl refl)
      (refl, refl, Permᴰ.swap refl refl, Permᴰ.cons refl Permᴰ.nil)
