-- ===== src/Python/Sorting/Laws.antt =====
-- What `sorted` keeps, and what it brings about.
use aikernel_core.Base.{
  String, ◌≡◌, refl, true, false, List, [], ◌∷◌, ◌==◌, ◌||◌, arith, eq_iff, if◌then◌else◌,
}
use mathlib.Core.Option.{some}
use aikernel_core.Python.Dict.{get, contains}
use aikernel_core.Python.Dict.Laws.{IsDict}
use aikernel_core.Python.Sorting.{le, insert, sort, sorted_items}

module _ {ℓ} {A : Type ℓ} (key : A → String) where
  abbrev pub IsBefore : A → List A → Type 0
  IsBefore a [] = Unit
  IsBefore a (b ∷ l) = le (key a) (key b) ≡ true

  -- Each element stands in front of none that is less.
  abbrev pub IsSorted : List A → Type 0
  IsSorted [] = Unit
  IsSorted (a ∷ l) = IsBefore a l × IsSorted l

  insert-cons : (a : A) (l : List A) → IsSorted (a ∷ l) → insert key a l ≡ a ∷ l
  unfolding insert
  insert-cons a [] h = refl
  insert-cons a (b ∷ l) h = rw h.0 refl

  -- A sorted list is left as it is.
  pub sort_self : (l : List A) → IsSorted l → sort key l ≡ l
  unfolding sort
  sort_self [] h = refl
  sort_self (a ∷ l) h = rw (sort_self l h.1) (insert-cons a l h)

module _ {ℓ} {V : Type ℓ} where
  contains-insert :
      (j k : String) (v : V) (d : List (String × V))
      → contains j (insert (λ e. e.0) (k, v) d) ≡ (k == j || contains j d)
  unfolding contains insert
  contains-insert j k v [] = refl
  contains-insert j k v ((i, u) ∷ d) = ground (arith, contains-insert j k v d)

  pub contains-sorted_items :
      (j : String) (d : List (String × V)) → contains j (sorted_items d) ≡ contains j d
  unfolding contains sorted_items
  contains-sorted_items j [] = refl
  contains-sorted_items j ((k, v) ∷ d) =
      ground (arith, contains-insert j k v (sorted_items d), contains-sorted_items j d)

  insert-IsDict :
      (k : String) (v : V) (d : List (String × V))
      → contains k d ≡ false
      → IsDict d
      → IsDict (insert (λ e. e.0) (k, v) d)
  unfolding contains insert
  insert-IsDict k v [] n h = ground arith
  insert-IsDict k v ((i, u) ∷ d) n h =
      ground (arith, eq_iff i k, eq_iff k i, insert-IsDict k v d, contains-insert i k v d)

  pub sorted_items-IsDict : (d : List (String × V)) → IsDict d → IsDict (sorted_items d)
  unfolding contains sorted_items
  sorted_items-IsDict [] h = tt
  sorted_items-IsDict ((k, v) ∷ d) h =
      insert-IsDict k v (sorted_items d) (rw (contains-sorted_items k d) h.0)
        (sorted_items-IsDict d h.1)

  get-insert :
      (j k : String) (v : V) (d : List (String × V))
      → contains k d ≡ false
      → get j (insert (λ e. e.0) (k, v) d) ≡ (if k == j then some v else get j d)
  unfolding get contains insert
  get-insert j k v [] n = refl
  get-insert j k v ((i, u) ∷ d) n =
      ground (arith, eq_iff i j, eq_iff k j, eq_iff i k, get-insert j k v d)

  -- Sorting the items of a dictionary changes no entry.
  pub get-sorted_items :
      (j : String) (d : List (String × V)) → IsDict d → get j (sorted_items d) ≡ get j d
  unfolding get contains sorted_items
  get-sorted_items j [] h = refl
  get-sorted_items j ((k, v) ∷ d) h = ground (
    arith,
    get-insert j k v (sorted_items d) (rw (contains-sorted_items k d) h.0),
    get-sorted_items j d h.1,
  )
