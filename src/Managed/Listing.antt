-- ===== src/Managed/Listing.antt =====
-- The listings of python/src/aikernel_net/managed.py: `dlls`, `dependency_manifests`,
-- `native_libraries`, and `runtime_layout`.
pub mod Laws
use aikernel_core.Base.{String, Bool, true, false, ◌||◌, ◌==◌, List, [], ◌∷◌, ◌++◌, if◌then◌else◌}
use aikernel_core.Python.Effect.{Outcome, return, raise}
use aikernel_core.Python.Fallible.{◌>>=◌}
use aikernel_core.Python.Sorting.{sort}
use aikernel_core.Managed.{
  FilePath, whole, child, Surroundings, ManagedAssemblySet, managed_assemblies,
}

pub record RuntimeLayout : Type 0 where
  pub managed : ManagedAssemblySet
  pub native_root : FilePath

module _ (here : Surroundings) where
  -- `path.parent`
  abbrev pub parent_of : FilePath → FilePath
  parent_of (whole path) = here.whole_parent path
  parent_of (child path name) = path

  -- The path is in the list.
  abbrev pub is_among : FilePath → List FilePath → Bool
  is_among path [] = false
  is_among path (p ∷ paths) = here.sort_key p == here.sort_key path || is_among path paths

  -- A set of paths: the list without what stands in it again.
  unfoldable pub set_of : List FilePath → List FilePath
  set_of [] = []
  set_of (path ∷ paths) =
      let rest = set_of paths in if is_among path rest then rest else path ∷ rest

  unfoldable pub parents_of : List FilePath → List FilePath
  parents_of [] = []
  parents_of (path ∷ paths) = parent_of path ∷ parents_of paths

  -- `path for root in roots for path in root.glob(pattern)`
  unfoldable pub glob_all : String → List FilePath → List FilePath
  glob_all pattern [] = []
  glob_all pattern (root ∷ roots) = here.glob root pattern ++ glob_all pattern roots

  unfoldable pub roots_of : ManagedAssemblySet → List FilePath
  unfolding set_of parents_of
  roots_of self = set_of (self.root ∷ parents_of self.assemblies)

  -- What `dlls` and `dependency_manifests` do with their patterns.
  unfoldable pub files_beside : String → ManagedAssemblySet → List FilePath
  unfolding roots_of glob_all set_of sort
  files_beside pattern self = sort here.sort_key (set_of (glob_all pattern (roots_of self)))

  unfoldable pub dlls : ManagedAssemblySet → List FilePath
  unfolding files_beside
  dlls = files_beside "*.dll"

  unfoldable pub dependency_manifests : ManagedAssemblySet → List FilePath
  unfolding files_beside
  dependency_manifests = files_beside "*.deps.json"

  unfoldable pub native_libraries : RuntimeLayout → List FilePath
  unfolding sort
  native_libraries self = sort here.sort_key (
      here.glob self.native_root "*.dll"
      ++ (here.glob self.native_root "*.so" ++ here.glob self.native_root "*.dylib"))

  unfoldable pub runtime_layout : Outcome RuntimeLayout
  unfolding managed_assemblies
  runtime_layout = do
    managed ← managed_assemblies here
    return (record { managed = managed; native_root = child here.package_directory "native" })
