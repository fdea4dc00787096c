-- ===== src/Tests/Assemblies.antt =====
-- The search for assemblies in a small file system: every assembly lies in one directory, which the
-- environment names.
use mathlib.Core.Option as Maybe
use mathlib.Core.Option.{none, some}
use Prim.Native.String.{◌++◌}
use aikernel_core.Base.{List, String, ◌≡◌, refl, Bool, true, false, [], ◌∷◌, ◌==◌, if◌then◌else◌}
use aikernel_core.Python.Effect.{return}
use aikernel_core.Python.Effect.Rules.{Ends}
use aikernel_core.Managed.{
  FilePath, whole, child, Surroundings, ManagedAssemblySet, resolve_assembly, is_complete,
  managed_assembly_names, require_managed_assemblies,
}
use aikernel_core.Managed.{core_package_version}
use aikernel_core.Managed.Listing.{is_among, files_beside, dlls}
use aikernel_core.Managed.Listing.Laws.{AreApart, files_beside-exact}
use aikernel_core.Python.Sorting.Laws.{IsSorted}
use aikernel_core.Managed.Search.{
  all_available, IsNotFound, require_managed_assemblies-all_available,
}

abbrev is_there : FilePath → Bool
is_there (child (whole root) name) = root == "/opt/dlls"
is_there _ = false

abbrev variable : String → Maybe.Option String
variable name = if name == "AIKERNEL_MANAGED_ASSEMBLY_PATH" then some "/opt/dlls" else none

abbrev key_of : FilePath → String
key_of (whole s) = s
key_of (child path name) = key_of path ++ "/" ++ name

abbrev listing : FilePath → String → List FilePath
listing path pattern =
    if key_of path == "/opt/dlls"
    then child (whole "/opt/dlls") "b.dll" ∷ child (whole "/opt/dlls") "a.dll" ∷ []
    else []

abbrev machine : Surroundings
machine = record {
  exists = is_there;
  environ = variable;
  package_directory = whole "/site/aikernel_net";
  home = whole "/home/user";
  split = λ s. s ∷ [];
  lower = λ s. if s == "AIKernel.Core" then "aikernel.core" else s;
  whole_name = λ s. s;
  whole_parent = λ s. whole "/";
  glob = listing;
  sort_key = key_of;
}

core_found :
    resolve_assembly machine "AIKernel.Core.dll"
    ≡ return (child (whole "/opt/dlls") "AIKernel.Core.dll")
unfolding resolve_assembly
core_found = refl

abbrev core_cached : FilePath
core_cached =
    child
      (child
        (child
          (child (child (child (child (whole "/home/user") ".nuget") "packages") "aikernel.core")
            core_package_version)
          "lib")
        "net10.0")
      "AIKernel.Core.dll"

require_managed_assemblies-all_available_example :
    Ends
      (λ s. (is_complete machine s ≡ true) × (all_available machine managed_assembly_names ≡ true))
      (λ e. IsNotFound machine e × (all_available machine managed_assembly_names ≡ false))
      (require_managed_assemblies machine)
require_managed_assemblies-all_available_example = require_managed_assemblies-all_available machine

abbrev installed : ManagedAssemblySet
installed = record {
  root = whole "/opt/dlls";
  assemblies = child (whole "/opt/dlls") "AIKernel.Core.dll" ∷ [];
}

-- The root is also the directory of the assembly, and is listed once.
dlls-installed :
    dlls machine installed
    ≡ child (whole "/opt/dlls") "a.dll" ∷ child (whole "/opt/dlls") "b.dll" ∷ []
unfolding dlls
dlls-installed = refl

listing-one_path : (p q : FilePath) → key_of p ≡ key_of q → listing p "*.dll" ≡ listing q "*.dll"
listing-one_path p q e = rw e refl

files_beside-exact_example :
    (is_among machine (child (whole "/opt/dlls") "a.dll") (files_beside machine "*.dll" installed)
      ≡ true)
    × AreApart machine (files_beside machine "*.dll" installed)
    × IsSorted key_of (files_beside machine "*.dll" installed)
files_beside-exact_example =
    files_beside-exact machine "*.dll" listing-one_path (child (whole "/opt/dlls") "a.dll")
      installed
