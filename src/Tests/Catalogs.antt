-- ===== src/Tests/Catalogs.antt =====
-- The functions of the managed API catalog on a small catalog.
use mathlib.Core.List.{Permᴰ}
use mathlib.Core.Option.{some}
use aikernel_core.Base.{String, ◌≡◌, refl, [], ◌∷◌}
use aikernel_core.Python.Dict.{get}
use aikernel_core.Python.Dict.Laws.{IsDict}
use aikernel_core.Python.Sorting.Canonical.{InOrder}
use aikernel_core.Catalog.{
  ManagedTypeDescriptor, Catalog, managed_type_names, find_managed_type, managed_api_summary,
}
use aikernel_core.Catalog.Find.{IsFound, find_managed_type-exact}
use aikernel_core.Catalog.Summary.{total, managed_api_summary-counts}

abbrev managed_type : (namespace name assembly : String) → ManagedTypeDescriptor
managed_type namespace name assembly = record {
  namespace = namespace;
  name = name;
  kind = "class";
  assembly = assembly;
  source = "";
  members = [];
}

abbrev kernel : ManagedTypeDescriptor
kernel = managed_type "AIKernel.Kernel" "Kernel" "AIKernel.Kernel"

abbrev executor : ManagedTypeDescriptor
executor = managed_type "AIKernel.Core" "KernelExecutor" "AIKernel.Core"

abbrev program : ManagedTypeDescriptor
program = managed_type "" "Program" "AIKernel.Kernel"

abbrev small : Catalog
small = kernel ∷ executor ∷ program ∷ []

summary_small : managed_api_summary small ≡ ("AIKernel.Core", 1) ∷ ("AIKernel.Kernel", 2) ∷ []
unfolding managed_api_summary
summary_small = refl

names_small :
    managed_type_names small
    ≡ "AIKernel.Kernel.Kernel" ∷ "AIKernel.Core.KernelExecutor" ∷ "Program" ∷ []
unfolding managed_type_names
names_small = refl

find_managed_type-exact_example :
    IsFound small "AIKernel.Core.Program" (find_managed_type small "AIKernel.Core.Program")
find_managed_type-exact_example = find_managed_type-exact small "AIKernel.Core.Program"

managed_api_summary-counts_example :
    (get "AIKernel.Kernel" (managed_api_summary small) ≡ some 2)
    × IsDict (managed_api_summary small)
    × InOrder (managed_api_summary small)
    × (total (managed_api_summary small) ≡ 3)
    × (managed_api_summary small ≡ managed_api_summary (executor ∷ kernel ∷ program ∷ []))
managed_api_summary-counts_example =
    managed_api_summary-counts small (executor ∷ kernel ∷ program ∷ []) "AIKernel.Kernel"
      (Permᴰ.swap refl refl)
