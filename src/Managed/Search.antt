-- ===== src/Managed/Search.antt =====
-- Where the search of python/src/aikernel_net/managed.py finds an assembly, and when it fails.
use aikernel_core.Base.{
  String, ◌≡◌, refl, sym, ◌∙◌, Bool, true, false, ◌&&◌, ◌||◌, List, [], ◌∷◌, Bool-cases, inl, inr,
}
use aikernel_core.Python.Object.{Exn, not_found}
use aikernel_core.Python.Effect.{Outcome, return, raise}
use aikernel_core.Python.Effect.Rules.{Ends}
use aikernel_core.Python.Dict.{get}
use aikernel_core.Managed.{
  FilePath, child, Surroundings, managed_package_root, managed_roots, nuget_candidate,
  resolve_nuget_assembly, or_bundled, if_exists, resolve_in, resolve_assembly, resolve_all,
  managed_assemblies, all_exist, is_complete, managed_assembly_names, require_managed_assemblies,
}

module _ (here : Surroundings) where
  -- The assembly is in one of the roots.
  abbrev pub is_in : String → List FilePath → Bool
  is_in name [] = false
  is_in name (root ∷ roots) = here.exists (child root name) || is_in name roots

  or_bundled-exists :
      (name : String) (candidate : FilePath)
      → here.exists (child (managed_package_root here) name) ≡ false
      → here.exists (or_bundled here name (if_exists here candidate)) ≡ here.exists candidate
  unfolding or_bundled
  or_bundled-exists name candidate h = elim (Bool-cases (here.exists candidate)) [
    | inl e ↦ rw (e, e) refl
    | inr e ↦ rw (e, h) refl
  ]

  resolve_in-exists :
      (name : String) (roots : List FilePath) (candidate : FilePath)
      → nuget_candidate here name ≡ return candidate
      → here.exists (child (managed_package_root here) name) ≡ false
      → (path : FilePath) × (resolve_in here name roots ≡ return path)
        × (here.exists path ≡ (is_in name roots || here.exists candidate))
  unfolding resolve_in resolve_nuget_assembly
  resolve_in-exists name [] candidate e h = (
    or_bundled here name (if_exists here candidate),
    rw e refl,
    or_bundled-exists name candidate h,
  )
  resolve_in-exists name (root ∷ roots) candidate e h =
      let (path, found, same) = resolve_in-exists name roots candidate e h in
      elim (Bool-cases (here.exists (child root name))) [
        | inl yes_e ↦ (child root name, rw yes_e refl, rw yes_e refl)
        | inr no_e ↦ (path, rw no_e found, rw no_e same)
      ]

  -- The file of the NuGet cache is there.
  abbrev pub exists_at : Outcome FilePath → Bool
  exists_at (return candidate) = here.exists candidate
  exists_at (raise e) = false

  -- An assembly can be had: from a root, or from the NuGet cache.
  abbrev pub is_available : String → Bool
  is_available name = is_in name (managed_roots here) || exists_at (nuget_candidate here name)

  abbrev pub all_available : List String → Bool
  all_available [] = true
  all_available (name ∷ names) = is_available name && all_available names

  -- An assembly has a package.
  abbrev pub IsKnown : String → Type 0
  IsKnown name = (candidate : FilePath) × (nuget_candidate here name ≡ return candidate)

  abbrev AreKnown : List String → Type 0
  AreKnown [] = Unit
  AreKnown (name ∷ names) = IsKnown name × AreKnown names

  -- The search for an assembly that has a package returns a path, and a file is there just if one of
  -- the roots or the NuGet cache has the assembly.
  pub resolve_assembly-exists :
      (name : String)
      → IsKnown name
      → (path : FilePath) × (resolve_assembly here name ≡ return path)
        × (here.exists path ≡ is_available name)
  unfolding resolve_assembly managed_roots resolve_in
  resolve_assembly-exists name (candidate, e) =
      elim (Bool-cases (here.exists (child (managed_package_root here) name))) [
        | inl h ↦ (child (managed_package_root here) name, rw h refl, rw h refl)
        | inr h ↦
            let (path, found, same) = resolve_in-exists name (managed_roots here) candidate e h in
            (path, found, rw e same)
      ]

  resolve_all-exist :
      (names : List String)
      → AreKnown names
      → (paths : List FilePath) × (resolve_all here names ≡ return paths)
        × (all_exist here paths ≡ all_available names)
  unfolding resolve_all all_exist
  resolve_all-exist [] known = ([], refl, refl)
  resolve_all-exist (name ∷ names) known =
      let (path, found, same) = resolve_assembly-exists name known.0 in
      let (paths, founds, sames) = resolve_all-exist names known.1 in
      (path ∷ paths, rw (found, founds) refl, rw (same, sames) refl)

  all_known : AreKnown managed_assembly_names
  unfolding nuget_candidate get
  all_known = ((_, refl), ((_, refl), ((_, refl), ((_, refl), ((_, refl), ((_, refl), tt))))))

  abbrev pub IsNotFound : Exn → Type 0
  IsNotFound e = (s : String) × (e ≡ not_found s)

  -- `require_managed_assemblies` returns a set of assemblies all of whose files exist if every
  -- required assembly is in a root or in the NuGet cache, and else raises a FileNotFoundError.
  pub require_managed_assemblies-all_available :
      Ends
        (λ s. (is_complete here s ≡ true) × (all_available managed_assembly_names ≡ true))
        (λ e. IsNotFound e × (all_available managed_assembly_names ≡ false))
        (require_managed_assemblies here)
  unfolding require_managed_assemblies managed_assemblies is_complete
  require_managed_assemblies-all_available =
      let (paths, found, same) = resolve_all-exist managed_assembly_names all_known in
      elim (Bool-cases (all_exist here paths)) [
        | inl h ↦ rw (found, h) (h, sym same ∙ h)
        | inr h ↦ rw (found, h) ((_, refl), sym same ∙ h)
      ]
