-- ===== src/Python/Sorting/Canonical.antt =====
-- Two dictionaries in the order of their keys that hold the same entries are one.
use text.Mathlib.TextPositions.{compare_refl}
use mathlib.Core.Option.{none, some}
use aikernel_core.Base.{
  String, ◌≡◌, refl, sym, ap, ◌∙◌, true, false, List, [], ◌∷◌, ◌==◌, eq_iff, eq_refl, Bool-cases,
  inl, inr, arith,
}
use aikernel_core.Python.Dict.{get, contains}
use aikernel_core.Python.Dict.Laws.{IsDict}
use aikernel_core.Python.Sorting.{le}
use aikernel_core.Python.Sorting.Laws.{IsSorted}
use aikernel_core.Python.Sorting.Permutation.{le_trans, le_antisymm}

le_refl : (s : String) → le s s ≡ true
le_refl s = rw (compare_refl s) refl

module _ {ℓ} {V : Type ℓ} where
  abbrev pub InOrder : List (String × V) → Type 0
  InOrder = IsSorted (λ e. e.0)

  get-none : (k : String) (d : List (String × V)) → contains k d ≡ false → get k d ≡ none
  unfolding get contains
  get-none k [] h = refl
  get-none k ((j, v) ∷ d) h = ground (arith, get-none k d)

  contains-get :
      (k : String) (v : V) (d : List (String × V)) → get k d ≡ some v → contains k d ≡ true
  unfolding get contains
  contains-get k v [] h = cc
  contains-get k v ((j, u) ∷ d) h = ground (arith, contains-get k v d)

  head_le :
      (k j : String) (v : V) (d : List (String × V))
      → InOrder ((k, v) ∷ d)
      → contains j d ≡ true
      → le k j ≡ true
  unfolding contains
  head_le k j v [] h c = cc
  head_le k j v ((i, u) ∷ d) h c = ground (arith, eq_iff i j, head_le i j u d h.1, le_trans k i j)

  first_le :
      (k j : String) (v : V) (d : List (String × V))
      → InOrder ((k, v) ∷ d)
      → contains j ((k, v) ∷ d) ≡ true
      → le k j ≡ true
  unfolding contains
  first_le k j v d h c = elim (Bool-cases (k == j)) [
    | inl e ↦ rw ((eq_iff k j).0 e) (le_refl j)
    | inr e ↦ head_le k j v d h (rw e at c)
  ]

  get-head : (k : String) (v : V) (d : List (String × V)) → get k ((k, v) ∷ d) ≡ some v
  unfolding get
  get-head k v d = rw (eq_refl k) refl

  empty_has-none : (k : String) (v : V) → get k [] ≡ some v → ⊥
  unfolding get
  empty_has-none k v h = cc

  heads_eq :
      (k j : String) (v u : V) (d e : List (String × V))
      → InOrder ((k, v) ∷ d)
      → InOrder ((j, u) ∷ e)
      → ((i : String) → get i ((k, v) ∷ d) ≡ get i ((j, u) ∷ e))
      → k ≡ j
  heads_eq k j v u d e hd he same =
      le_antisymm k j
        (first_le k j v d hd (contains-get j u ((k, v) ∷ d) (same j ∙ get-head j u e)))
        (first_le j k u e he (contains-get k v ((j, u) ∷ e) (sym (same k) ∙ get-head k v d)))

  tails_eq :
      (k i : String) (v u : V) (d e : List (String × V))
      → contains k d ≡ false
      → contains k e ≡ false
      → get i ((k, v) ∷ d) ≡ get i ((k, u) ∷ e)
      → get i d ≡ get i e
  unfolding get
  tails_eq k i v u d e hd he same = elim (Bool-cases (k == i)) [
    | inl eq ↦ rw (← (eq_iff k i).0 eq) (get-none k d hd ∙ sym (get-none k e he))
    | inr ne ↦ rw ne at same
  ]

  pub dict_ext :
      (d e : List (String × V))
      → InOrder d
      → InOrder e
      → IsDict d
      → IsDict e
      → ((k : String) → get k d ≡ get k e)
      → d ≡ e
  dict_ext [] [] sd se hd he same = refl
  dict_ext [] ((j, u) ∷ e) sd se hd he same = absurd (empty_has-none j u (same j ∙ get-head j u e))
  dict_ext ((k, v) ∷ d) [] sd se hd he same =
      absurd (empty_has-none k v (sym (same k) ∙ get-head k v d))
  dict_ext ((k, v) ∷ d) ((j, u) ∷ e) sd se hd he same =
      let keys = heads_eq k j v u d e sd se same in
      let at_head : some v ≡ some u =
        sym (get-head k v d) ∙ same k ∙ ap (λ i. get i ((j, u) ∷ e)) keys ∙ get-head j u e in
      let tails : d ≡ e = dict_ext d e sd.1 se.1 hd.1 he.1 λ i.
        tails_eq k i v u d e hd.0 (rw keys he.0)
          (same i ∙ ap (λ x. get i ((x, u) ∷ e)) (sym keys)) in
      cc (keys, at_head, tails)
