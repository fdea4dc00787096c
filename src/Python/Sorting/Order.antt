-- ===== src/Python/Sorting/Order.antt =====
-- What `sorted` returns is in order.
use Prim.Native.Nat.{Ordering, compare as compare_ℕ}
use Prim.Native.Char.{code}
use Prim.Native.Nat.compare as Numbers
use Prim.Native.String as Str
use Prim.Native.String.compare as Texts
use Prim.Native.String.{compare, then}
use text.Mathlib.Text.{is_le}
use aikernel_core.Base.{
  ℕ, zero, suc, String, ◌≡◌, refl, true, false, List, [], ◌∷◌, Bool-cases, inl, inr,
}
use aikernel_core.Python.Sorting.{le, insert, sort}
use aikernel_core.Python.Sorting.Laws.{IsBefore, IsSorted}

abbrev pub flip : Ordering → Ordering
flip Ordering.lt = Ordering.gt
flip Ordering.eq = Ordering.eq
flip Ordering.gt = Ordering.lt

flip-then : (o p : Ordering) → then (flip o) (flip p) ≡ flip (then o p)
flip-then Ordering.lt p = refl
flip-then Ordering.eq p = refl
flip-then Ordering.gt p = refl

compare-flip_ℕ : (m n : ℕ) → compare_ℕ n m ≡ flip (compare_ℕ m n)
compare-flip_ℕ zero zero = rw (Numbers.zero-zero) refl
compare-flip_ℕ zero (suc n) = rw (Numbers.zero-suc n, Numbers.suc-zero n) refl
compare-flip_ℕ (suc m) zero = rw (Numbers.zero-suc m, Numbers.suc-zero m) refl
compare-flip_ℕ (suc m) (suc n) = rw (Numbers.suc-suc m n, Numbers.suc-suc n m) (compare-flip_ℕ m n)

pub compare-flip : (s t : String) → compare t s ≡ flip (compare s t)
compare-flip Str.[] Str.[] = rw (Texts.nil-nil) refl
compare-flip Str.[] (Str.◌∷◌ d t) = rw (Texts.nil-cons d t, Texts.cons-nil d t) refl
compare-flip (Str.◌∷◌ c s) Str.[] = rw (Texts.nil-cons c s, Texts.cons-nil c s) refl
compare-flip (Str.◌∷◌ c s) (Str.◌∷◌ d t) =
    rw
      (
        Texts.cons-cons c d s t,
        Texts.cons-cons d c t s,
        compare-flip_ℕ (code c) (code d),
        compare-flip s t,
      )
      (flip-then (compare_ℕ (code c) (code d)) (compare s t))

le-flip : (o : Ordering) → is_le o ≡ false → is_le (flip o) ≡ true
le-flip Ordering.lt h = cc
le-flip Ordering.eq h = cc
le-flip Ordering.gt h = refl

pub le_total : (s t : String) → le s t ≡ false → le t s ≡ true
le_total s t h = rw (compare-flip s t) (le-flip (compare s t) h)

module _ {ℓ} {A : Type ℓ} (key : A → String) where
  insert-IsBefore :
      (b a : A) (l : List A)
      → le (key b) (key a) ≡ true
      → IsBefore key b l
      → IsBefore key b (insert key a l)
  unfolding insert
  insert-IsBefore b a [] h p = h
  insert-IsBefore b a (c ∷ l) h p = elim (Bool-cases (le (key a) (key c))) [
    | inl e ↦ rw e h
    | inr e ↦ rw e p
  ]

  insert-IsSorted : (a : A) (l : List A) → IsSorted key l → IsSorted key (insert key a l)
  unfolding insert
  insert-IsSorted a [] h = (tt, tt)
  insert-IsSorted a (b ∷ l) h = elim (Bool-cases (le (key a) (key b))) [
    | inl e ↦ rw e (e, h)
    | inr e ↦ rw e (insert-IsBefore b a l (le_total (key a) (key b) e) h.0, insert-IsSorted a l h.1)
  ]

  pub sort-IsSorted : (l : List A) → IsSorted key (sort key l)
  unfolding sort
  sort-IsSorted [] = tt
  sort-IsSorted (a ∷ l) = insert-IsSorted a (sort key l) (sort-IsSorted l)
