-- ===== src/Python/Sorting/Permutation.antt =====
-- `sorted` gives one list for all orders of its elements.
use Prim.Native.Nat.{Ordering, compare as compare_ℕ}
use Prim.Native.Char.{code}
use Prim.Native.String as Str
use Prim.Native.String.{compare, then as and_then}
use Prim.Native.String.compare as Texts
use mathlib.Core.List.{Permᴰ}
use text.Mathlib.Text.{is_le}
use text.Mathlib.TextEquality.{path_by_compare}
use aikernel_core.Base.{ℕ, String, ◌≡◌, refl, subst, ◌∙◌, true, List, [], ◌∷◌, eq_iff, arith}
use aikernel_core.Python.Dict.{contains}
use aikernel_core.Python.Dict.Laws.{IsDict}
use aikernel_core.Python.Sorting.{le, insert, sort, sorted, sorted_items}
use aikernel_core.Python.Sorting.Order.{flip, compare-flip, le_total}

both_le : (o : Ordering) → is_le o ≡ true → is_le (flip o) ≡ true → o ≡ Ordering.eq
both_le Ordering.lt h k = cc
both_le Ordering.eq h k = refl
both_le Ordering.gt h k = cc

pub le_antisymm : (s t : String) → le s t ≡ true → le t s ≡ true → s ≡ t
le_antisymm s t h k = path_by_compare s t (both_le (compare s t) h (rw (compare-flip s t) at k))

then_trans :
    (m n k : ℕ) (o p q : Ordering)
    → (is_le o ≡ true → is_le p ≡ true → is_le q ≡ true)
    → is_le (and_then (compare_ℕ m n) o) ≡ true
    → is_le (and_then (compare_ℕ n k) p) ≡ true
    → is_le (and_then (compare_ℕ m k) q) ≡ true
then_trans m n k o p q h i j = ground arith

pub le_trans : (s t u : String) → le s t ≡ true → le t u ≡ true → le s u ≡ true
le_trans Str.[] t Str.[] h k = refl
le_trans Str.[] t (Str.◌∷◌ e u) h k = rw (Texts.nil-cons e u) refl
le_trans (Str.◌∷◌ c s) Str.[] u h k = let h' = rw (Texts.cons-nil c s) at h in cc
le_trans (Str.◌∷◌ c s) (Str.◌∷◌ d t) Str.[] h k = let k' = rw (Texts.cons-nil d t) at k in cc
le_trans (Str.◌∷◌ c s) (Str.◌∷◌ d t) (Str.◌∷◌ e u) h k = rw (Texts.cons-cons c e s u) (
    then_trans (code c) (code d) (code e) (compare s t) (compare t u) (compare s u) (le_trans s t u)
      (rw (Texts.cons-cons c d s t) at h) (rw (Texts.cons-cons d e t u) at k))

module _ {ℓ} {A : Type ℓ} (key : A → String) where
  -- Elements that the order does not tell apart are the same.
  abbrev Separates : A → A → Type ℓ
  Separates a b = le (key a) (key b) ≡ true → le (key b) (key a) ≡ true → a ≡ b

  insert_comm :
      (a b : A) (l : List A)
      → Separates a b
      → insert key a (insert key b l) ≡ insert key b (insert key a l)
  unfolding insert
  insert_comm a b [] same = ground (arith, le_total (key a) (key b), le_total (key b) (key a), same)
  insert_comm a b (c ∷ l) same = ground (
    arith,
    insert_comm a b l same,
    le_total (key a) (key b),
    le_total (key b) (key a),
    le_trans (key a) (key b) (key c),
    le_trans (key b) (key a) (key c),
    same,
  )

swapped {ℓ} :
    {A : Type ℓ} {a b a' b' : A} (l : List A)
    → a ≡ b'
    → b ≡ a'
    → ◌≡◌ {A = List A} (b ∷ a ∷ l) (a' ∷ b' ∷ l)
swapped l e f = cc

-- The order of the texts does not matter.
pub sorted-perm : {l m : List String} → Permᴰ l m → sorted l ≡ sorted m
unfolding sorted sort
sorted-perm Permᴰ.nil = refl
sorted-perm (Permᴰ.cons e p) = rw (e, sorted-perm p) refl
sorted-perm (Permᴰ.swap {a = a} {b = b} {l = l} e f) =
    rw (← e, ← f) (insert_comm (λ s. s) a b (sort (λ s. s) l) (le_antisymm a b))
sorted-perm (Permᴰ.trans p q) = sorted-perm p ∙ sorted-perm q

module _ {ℓ} {V : Type ℓ} where
  contains-perm : (j : String) {d e : List (String × V)} → Permᴰ d e → contains j d ≡ contains j e
  unfolding contains
  contains-perm j Permᴰ.nil = refl
  contains-perm j (Permᴰ.cons e p) = rw (e, contains-perm j p) refl
  contains-perm j (Permᴰ.swap {a = a} {b = b} {l = l} e f) = rw (← e, ← f) (ground arith)
  contains-perm j (Permᴰ.trans p q) = contains-perm j p ∙ contains-perm j q

  IsDict-swap : (a b : String × V) (l : List (String × V)) → IsDict (a ∷ b ∷ l) → IsDict (b ∷ a ∷ l)
  unfolding contains
  IsDict-swap a b l h = ground (arith, eq_iff a.0 b.0, eq_iff b.0 a.0)

  IsDict-perm : {d e : List (String × V)} → Permᴰ d e → IsDict d → IsDict e
  unfolding contains
  IsDict-perm Permᴰ.nil h = tt
  IsDict-perm (Permᴰ.cons {a = a} e p) h =
      rw (← e) (rw (← contains-perm a.0 p) h.0, IsDict-perm p h.1)
  IsDict-perm (Permᴰ.swap {a = a} {b = b} {l = l} e f) h =
      subst IsDict (swapped l e f) (IsDict-swap a b l h)
  IsDict-perm (Permᴰ.trans p q) h = IsDict-perm q (IsDict-perm p h)

  apart : (a b : String × V) (l : List (String × V)) → IsDict (a ∷ b ∷ l) → Separates (λ e. e.0) a b
  unfolding contains
  apart a b l h p q = let same = le_antisymm a.0 b.0 p q in absurd (ground (arith, eq_iff b.0 a.0))

  -- Neither does the order of the entries of a dictionary.
  pub sorted_items-perm :
      {d e : List (String × V)} → Permᴰ d e → IsDict d → sorted_items d ≡ sorted_items e
  unfolding sorted_items sort
  sorted_items-perm Permᴰ.nil h = refl
  sorted_items-perm (Permᴰ.cons e p) h = rw (e, sorted_items-perm p h.1) refl
  sorted_items-perm (Permᴰ.swap {a = a} {b = b} {l = l} e f) h =
      rw (← e, ← f) (insert_comm (λ e. e.0) a b (sort (λ e. e.0) l) (apart a b l h))
  sorted_items-perm (Permᴰ.trans p q) h =
      sorted_items-perm p h ∙ sorted_items-perm q (IsDict-perm p h)
