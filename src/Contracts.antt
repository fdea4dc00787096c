-- ===== src/Contracts.antt =====
-- The descriptors of python/src/aikernel_net/core_contracts.py. Metadata of None is the empty
-- dictionary.
pub mod Laws
use mathlib.Core.Option as Maybe
use mathlib.Core.Option.{none, some}
use aikernel_core.Base.{String, List, [], ◌∷◌}
use aikernel_core.Python.Dict.{get, put}
use aikernel_core.Python.Sorting.{sorted_items}

pub record CoreCapabilityModuleContract : Type 0 where
  pub capability_id : String
  pub name : String
  pub kind : String
  pub invocation_mode : String
  pub version : String
  pub entry_point : String
  pub operations : List String
  pub permissions : List String
  pub metadata : List (String × String)

abbrev pub value_or : String → Maybe.Option String → String
value_or default none = default
value_or default (some value) = value

-- `d.get(key, default)`
abbrev pub get_or : String → String → List (String × String) → String
unfolding get
get_or key default d = value_or default (get key d)

unfoldable pub rom_storage_contract :
    (capability_id storage_scheme : String) → List (String × String) → CoreCapabilityModuleContract
unfolding get_or put sorted_items
rom_storage_contract capability_id storage_scheme metadata =
    let values = put "storageScheme" storage_scheme (sorted_items metadata) in
    record {
      capability_id = capability_id;
      name = "ROM Storage";
      kind = "ManagedAssembly";
      invocation_mode = "AssemblyReference";
      version = get_or "version" "0.1.2" values;
      entry_point = "AIKernel.Core.Storage";
      operations = "rom.save" ∷ "rom.load" ∷ "rom.list" ∷ [];
      permissions = "rom.read" ∷ "rom.write" ∷ [];
      metadata = values;
    }

unfoldable pub vfs_git_contract :
    (capability_id repository_mode : String) → List (String × String) → CoreCapabilityModuleContract
unfolding get_or put sorted_items
vfs_git_contract capability_id repository_mode metadata =
    let values = put "repositoryMode" repository_mode (sorted_items metadata) in
    record {
      capability_id = capability_id;
      name = "VFS Git";
      kind = "ManagedAssembly";
      invocation_mode = "AssemblyReference";
      version = get_or "version" "0.1.2" values;
      entry_point = "AIKernel.Core.Vfs.VfsGit";
      operations = "vfs.git.read" ∷ "vfs.git.list" ∷ "vfs.git.checkout" ∷ [];
      permissions = "git.read" ∷ "vfs.read" ∷ [];
      metadata = values;
    }
