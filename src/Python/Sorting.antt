-- ===== src/Python/Sorting.antt =====
-- `sorted`, on texts and on the items of a dictionary. Keys are distinct in a dictionary, so the order
-- of its items is that of the keys.
pub mod Laws
pub mod Order
pub mod Permutation
pub mod Canonical
use Prim.Native.String.{compare}
use text.Mathlib.Text.{is_le}
use aikernel_core.Base.{String, Bool, List, [], ◌∷◌, if◌then◌else◌}

-- `s <= t`
abbrev pub le : String → String → Bool
le s t = is_le (compare s t)

module _ {ℓ} {A : Type ℓ} (key : A → String) where
  unfoldable pub insert : A → List A → List A
  insert a [] = a ∷ []
  insert a (b ∷ l) = if le (key a) (key b) then a ∷ b ∷ l else b ∷ insert a l

  unfoldable pub sort : List A → List A
  unfolding insert
  sort [] = []
  sort (a ∷ l) = insert a (sort l)

-- `sorted(texts)`
unfoldable pub sorted : List String → List String
unfolding sort
sorted = sort (λ s. s)

-- `dict(sorted(d.items()))`
unfoldable pub sorted_items {ℓ} : {V : Type ℓ} → List (String × V) → List (String × V)
unfolding sort
sorted_items = sort (λ e. e.0)
