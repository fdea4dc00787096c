-- ===== src/Managed/Listing/Laws.antt =====
-- What the listings of python/src/aikernel_net/managed.py contain.
use aikernel_core.Base.{
  String, Bool, true, false, ◌≡◌, refl, ◌∙◌, ◌||◌, ◌==◌, eq_iff, arith, List, [], ◌∷◌, ◌++◌,
  Bool-cases, inl, inr,
}
use aikernel_core.Python.Sorting.{insert, sort}
use aikernel_core.Python.Sorting.Laws.{IsSorted}
use aikernel_core.Python.Sorting.Order.{sort-IsSorted}
use aikernel_core.Managed.{FilePath, Surroundings, ManagedAssemblySet}
use aikernel_core.Managed.Listing.{
  parent_of, is_among, set_of, parents_of, glob_all, roots_of, files_beside,
}

module _ (here : Surroundings) where
  -- No path stands twice in the list.
  abbrev pub AreApart : List FilePath → Type 0
  AreApart [] = Unit
  AreApart (path ∷ paths) = (is_among here path paths ≡ false) × AreApart paths

  -- The path is a file that fits the pattern beside one of the assemblies.
  abbrev pub beside_one : String → FilePath → List FilePath → Bool
  beside_one pattern path [] = false
  beside_one pattern path (assembly ∷ assemblies) =
      is_among here path (here.glob (parent_of here assembly) pattern)
      || beside_one pattern path assemblies

  is_among-same :
      (p q : FilePath) (l : List FilePath)
      → here.sort_key p ≡ here.sort_key q
      → is_among here p l ≡ is_among here q l
  is_among-same p q [] e = refl
  is_among-same p q (r ∷ l) e = cc (e, is_among-same p q l e)

  is_among-set_of :
      (path : FilePath) (paths : List FilePath)
      → is_among here path (set_of here paths) ≡ is_among here path paths
  unfolding set_of
  is_among-set_of path [] = refl
  is_among-set_of path (p ∷ paths) = ground (
    arith,
    is_among-set_of path paths,
    eq_iff (here.sort_key p) (here.sort_key path),
    is_among-same p path (set_of here paths),
  )

  set_of-AreApart : (paths : List FilePath) → AreApart (set_of here paths)
  unfolding set_of
  set_of-AreApart [] = tt
  set_of-AreApart (p ∷ paths) = elim (Bool-cases (is_among here p (set_of here paths))) [
    | inl e ↦ rw e (set_of-AreApart paths)
    | inr e ↦ rw e (e, set_of-AreApart paths)
  ]

  is_among-append :
      (path : FilePath) (l m : List FilePath)
      → is_among here path (l ++ m) ≡ (is_among here path l || is_among here path m)
  is_among-append path [] m = refl
  is_among-append path (p ∷ l) m = ground (arith, is_among-append path l m)

  is_among-insert :
      (path p : FilePath) (l : List FilePath)
      → is_among here path (insert here.sort_key p l)
        ≡ (here.sort_key p == here.sort_key path || is_among here path l)
  unfolding insert
  is_among-insert path p [] = refl
  is_among-insert path p (q ∷ l) = ground (arith, is_among-insert path p l)

  is_among-sort :
      (path : FilePath) (l : List FilePath)
      → is_among here path (sort here.sort_key l) ≡ is_among here path l
  unfolding sort
  is_among-sort path [] = refl
  is_among-sort path (p ∷ l) =
      ground (arith, is_among-insert path p (sort here.sort_key l), is_among-sort path l)

  insert-AreApart :
      (p : FilePath) (l : List FilePath)
      → is_among here p l ≡ false
      → AreApart l
      → AreApart (insert here.sort_key p l)
  unfolding insert
  insert-AreApart p [] n h = ground arith
  insert-AreApart p (q ∷ l) n h = ground (
    arith,
    insert-AreApart p l,
    is_among-insert q p l,
    eq_iff (here.sort_key p) (here.sort_key q),
    eq_iff (here.sort_key q) (here.sort_key p),
  )

  sort-AreApart : (l : List FilePath) → AreApart l → AreApart (sort here.sort_key l)
  unfolding sort
  sort-AreApart [] h = tt
  sort-AreApart (p ∷ l) h =
      insert-AreApart p (sort here.sort_key l) (is_among-sort p l ∙ h.0) (sort-AreApart l h.1)

  -- Paths that compare equal are one path to the file system.
  module _ (pattern : String)
      (one_path : (p q : FilePath)
        → here.sort_key p ≡ here.sort_key q
        → here.glob p pattern ≡ here.glob q pattern)
      (path : FilePath) where
    is_among-glob :
        (root : FilePath) (roots : List FilePath)
        → is_among here root roots ≡ true
        → is_among here path (here.glob root pattern) ≡ true
        → is_among here path (glob_all here pattern roots) ≡ true
    unfolding glob_all
    is_among-glob root [] m h = cc
    is_among-glob root (r ∷ roots) m h = elim (Bool-cases (here.sort_key r == here.sort_key root)) [
      | inl e ↦
          let same = one_path r root ((eq_iff (here.sort_key r) (here.sort_key root)).0 e) in
          is_among-append path (here.glob r pattern) (glob_all here pattern roots)
          ∙ rw (same, h) refl
      | inr e ↦
          let later = is_among-glob root roots (rw e at m) h in
          is_among-append path (here.glob r pattern) (glob_all here pattern roots)
          ∙ ground (arith, later)
    ]

    glob_all-set_of :
        (roots : List FilePath)
        → is_among here path (glob_all here pattern (set_of here roots))
          ≡ is_among here path (glob_all here pattern roots)
    unfolding glob_all set_of
    glob_all-set_of [] = refl
    glob_all-set_of (root ∷ roots) = ground (
      arith,
      glob_all-set_of roots,
      is_among-glob root (set_of here roots),
      is_among-append path (here.glob root pattern) (glob_all here pattern roots),
      is_among-append path (here.glob root pattern) (glob_all here pattern (set_of here roots)),
    )

    glob_all-parents_of :
        (assemblies : List FilePath)
        → is_among here path (glob_all here pattern (parents_of here assemblies))
          ≡ beside_one pattern path assemblies
    unfolding glob_all parents_of
    glob_all-parents_of [] = refl
    glob_all-parents_of (a ∷ assemblies) =
        is_among-append path (here.glob (parent_of here a) pattern)
          (glob_all here pattern (parents_of here assemblies))
        ∙ rw (glob_all-parents_of assemblies) refl

    -- Where paths that compare equal have the same files for a pattern, the listing for the pattern
    -- has the files that fit it in the root or in the directory of an assembly, and no other, each
    -- once and in order.
    pub files_beside-exact :
        (self : ManagedAssemblySet)
        → (is_among here path (files_beside here pattern self) ≡ (
            is_among here path (here.glob self.root pattern)
            || beside_one pattern path self.assemblies))
          × AreApart (files_beside here pattern self)
          × IsSorted here.sort_key (files_beside here pattern self)
    unfolding files_beside roots_of glob_all
    files_beside-exact self =
        let roots = self.root ∷ parents_of here self.assemblies in
        let files = glob_all here pattern (set_of here roots) in
        (
          is_among-sort path (set_of here files)
              ∙ is_among-set_of path files
              ∙ glob_all-set_of roots
              ∙ is_among-append path (here.glob self.root pattern)
                  (glob_all here pattern (parents_of here self.assemblies))
              ∙ rw (glob_all-parents_of self.assemblies) refl,
          sort-AreApart (set_of here files) (set_of-AreApart files),
          sort-IsSorted here.sort_key (set_of here files),
        )
