-- ===== src/Managed.antt =====
-- The discovery of .NET assemblies: python/src/aikernel_net/managed.py.
pub mod Search
pub mod Precedence
pub mod Listing
use mathlib.Core.Option as Maybe
use mathlib.Core.Option.{none, some}
use Prim.Native.String.{◌++◌}
use aikernel_core.Base.{
  String, Bool, true, false, not, ◌&&◌, List, [], ◌∷◌, map, ◌==◌, if◌then◌else◌,
}
use aikernel_core.Python.Object.{key_error, not_found}
use aikernel_core.Python.Effect.{Outcome, return, raise}
use aikernel_core.Python.Fallible.{◌>>=◌, ◌>>◌}
use aikernel_core.Python.Dict.{get}

-- A path is one that is given as a whole, or `path / name`.
pub data FilePath : Type 0 where
  whole : String → FilePath
  child : FilePath → String → FilePath

abbrev pub core_package_version : String
core_package_version = "0.1.2"

abbrev pub contract_package_version : String
contract_package_version = "0.1.2"

abbrev pub managed_assembly_names : List String
managed_assembly_names =
    "AIKernel.Abstractions.dll" ∷ "AIKernel.Common.dll" ∷ "AIKernel.Core.dll"
    ∷ "AIKernel.Kernel.dll" ∷ "AIKernel.Dtos.dll" ∷ "AIKernel.Enums.dll" ∷ []

abbrev pub assembly_packages : List (String × (String × String))
assembly_packages =
    ("AIKernel.Abstractions.dll", ("AIKernel.Abstractions", contract_package_version))
    ∷ ("AIKernel.Common.dll", ("AIKernel.Common", core_package_version))
    ∷ ("AIKernel.Core.dll", ("AIKernel.Core", core_package_version))
    ∷ ("AIKernel.Kernel.dll", ("AIKernel.Kernel", core_package_version))
    ∷ ("AIKernel.Dtos.dll", ("AIKernel.Dtos", contract_package_version))
    ∷ ("AIKernel.Enums.dll", ("AIKernel.Enums", contract_package_version))
    ∷ []

pub record ManagedAssemblySet : Type 0 where
  pub root : FilePath
  pub assemblies : List FilePath

-- What the module asks of its surroundings: the file system, the environment, the directory of the
-- package and the home directory, the files of a directory that fit a pattern; and of texts and
-- paths, `str.split` at `os.pathsep`, `str.lower`, the name and the parent of a path that is given as a
-- whole, and a text for each path in whose order paths compare.
pub record Surroundings : Type 0 where
  pub exists : FilePath → Bool
  pub environ : String → Maybe.Option String
  pub package_directory : FilePath
  pub home : FilePath
  pub split : String → List String
  pub lower : String → String
  pub whole_name : String → String
  pub whole_parent : String → FilePath
  pub glob : FilePath → String → List FilePath
  pub sort_key : FilePath → String

-- `if value:` on a variable of the environment
abbrev pub non_empty : Maybe.Option String → Maybe.Option String
non_empty none = none
non_empty (some value) = if value == "" then none else some value

-- `Path(path) for path in paths if path`
unfoldable pub paths_of : List String → List FilePath
paths_of [] = []
paths_of (path ∷ paths) =
    let rest = paths_of paths in if path == "" then rest else whole path ∷ rest

module _ (here : Surroundings) where
  -- `path.name`
  abbrev pub name_of : FilePath → String
  name_of (whole path) = here.whole_name path
  name_of (child path name) = name

  unfoldable pub managed_package_root : FilePath
  managed_package_root = child here.package_directory "managed"

  abbrev pub override_roots : Maybe.Option String → List FilePath
  unfolding paths_of
  override_roots none = []
  override_roots (some override) = paths_of (here.split override)

  unfoldable pub managed_roots : List FilePath
  unfolding managed_package_root override_roots
  managed_roots =
      managed_package_root
      ∷ override_roots (non_empty (here.environ "AIKERNEL_MANAGED_ASSEMBLY_PATH"))

  abbrev pub nuget_root_of : Maybe.Option String → FilePath
  nuget_root_of none = child (child here.home ".nuget") "packages"
  nuget_root_of (some configured) = whole configured

  unfoldable pub nuget_root : FilePath
  nuget_root = nuget_root_of (non_empty (here.environ "NUGET_PACKAGES"))

  -- `_ASSEMBLY_PACKAGES[name]`
  abbrev pub package_of : String → Maybe.Option (String × String) → Outcome (String × String)
  package_of name none = raise (key_error name)
  package_of name (some found) = return found

  -- `candidate` of `_resolve_nuget_assembly`
  unfoldable pub nuget_candidate : String → Outcome FilePath
  unfolding nuget_root get
  nuget_candidate name = do
    found ← package_of name (get name assembly_packages)
    return (
        child
          (child (child (child (child nuget_root (here.lower found.0)) found.1) "lib") "net10.0")
          name)

  abbrev pub if_exists : FilePath → Maybe.Option FilePath
  if_exists candidate = if here.exists candidate then some candidate else none

  unfoldable pub resolve_nuget_assembly : String → Outcome (Maybe.Option FilePath)
  unfolding nuget_candidate
  resolve_nuget_assembly name = do candidate ← nuget_candidate name; return (if_exists candidate)

  abbrev pub or_bundled : String → Maybe.Option FilePath → FilePath
  unfolding managed_package_root
  or_bundled name none = child managed_package_root name
  or_bundled name (some candidate) = candidate

  -- `_resolve_assembly`, its loop over the roots and what follows it
  unfoldable pub resolve_in : String → List FilePath → Outcome FilePath
  unfolding resolve_nuget_assembly or_bundled
  resolve_in name [] = do
    candidate ← resolve_nuget_assembly name
    return (or_bundled name candidate)
  resolve_in name (root ∷ roots) =
      let rest = resolve_in name roots in
      if here.exists (child root name) then return (child root name) else rest

  unfoldable pub resolve_assembly : String → Outcome FilePath
  unfolding resolve_in managed_roots
  resolve_assembly name = resolve_in name managed_roots

  unfoldable pub resolve_all : List String → Outcome (List FilePath)
  unfolding resolve_assembly
  resolve_all [] = return []
  resolve_all (name ∷ names) = do
    path ← resolve_assembly name
    paths ← resolve_all names
    return (path ∷ paths)

  unfoldable pub managed_assemblies : Outcome ManagedAssemblySet
  unfolding resolve_all managed_package_root
  managed_assemblies = do
    assemblies ← resolve_all managed_assembly_names
    return (record { root = managed_package_root; assemblies = assemblies })

  unfoldable pub all_exist : List FilePath → Bool
  all_exist [] = true
  all_exist (path ∷ paths) = here.exists path && all_exist paths

  unfoldable pub is_complete : ManagedAssemblySet → Bool
  unfolding all_exist
  is_complete self = all_exist self.assemblies

  unfoldable pub missing_names : List FilePath → List String
  missing_names [] = []
  missing_names (path ∷ paths) =
      let rest = missing_names paths in if here.exists path then rest else name_of path ∷ rest

  unfoldable pub missing : ManagedAssemblySet → List String
  unfolding missing_names
  missing self = missing_names self.assemblies

  -- `", ".join(texts)`
  unfoldable pub join : List String → String
  join [] = ""
  join (text ∷ texts) =
      let rest = join texts in elim texts [ [] ↦ text | _ ∷ _ ↦ text ++ ", " ++ rest ]

  unfoldable pub require_managed_assemblies : Outcome ManagedAssemblySet
  unfolding managed_assemblies is_complete missing join
  require_managed_assemblies = do
    assemblies ← managed_assemblies
    if is_complete assemblies
        then return assemblies
        else raise (
            not_found (
              "AIKernel managed assemblies are not bundled in this Python package: "
              ++ join (missing assemblies)
              ++ ". Build with AIKERNEL_PYTHON_INCLUDE_MANAGED=ON or use the repository .NET packages directly."))
