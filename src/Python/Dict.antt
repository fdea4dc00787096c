-- ===== src/Python/Dict.antt =====
-- Dictionaries with text keys, in insertion order, as `dict`. The proofs are in the modules below.
pub mod Laws
use aikernel_core.Base.{String, Bool, true, false, List, [], ◌∷◌, ◌==◌, ◌||◌, if◌then◌else◌}
use mathlib.Core.Option.{Option, none, some}

module _ {ℓ} {V : Type ℓ} where
  -- `d.get(key)`
  unfoldable pub get : String → List (String × V) → Option V
  get k [] = none
  get k ((j, v) ∷ d) = if j == k then some v else get k d

  -- `key in d`
  unfoldable pub contains : String → List (String × V) → Bool
  contains k [] = false
  contains k ((j, v) ∷ d) = j == k || contains k d

  -- `d[key] = value`: a known key keeps its place.
  unfoldable pub put : String → V → List (String × V) → List (String × V)
  put k v [] = (k, v) ∷ []
  put k v ((j, u) ∷ d) = if j == k then (j, v) ∷ d else (j, u) ∷ put k v d

  -- `d.update(e)`, and `{**d, **e}`
  unfoldable pub update : List (String × V) → List (String × V) → List (String × V)
  unfolding put
  update d [] = d
  update d ((k, v) ∷ e) = update (put k v d) e
