-- ===== src/Monads/Objects/Client.antt =====
-- What the caller's code can do with `Result` objects and dictionaries: the steps, and their runs.
use mathlib.Core.List.{Memᴰ}
use mathlib.Core.Option as Maybe
use mathlib.Core.Option.{none, some}
use aikernel_core.Base.{ℕ, Bool, ◌≡◌, [], ◌∷◌}
use aikernel_core.Python.Object.{Object}
use aikernel_core.Monads.Types.{Metadata}
use aikernel_core.Python.Effect.{Py}
use aikernel_core.Monads.Objects.{
  World, ResultObject, DynObject, write_cell, alloc, init, get_metadata, failure_object,
  with_metadata_object, bind_object,
}

-- A dictionary that is passed is one that the caller holds.
abbrev pub IsHeld : Maybe.Option ℕ → World → Type 0
IsHeld none w = Unit
IsHeld (some a) w = Memᴰ a w.known

-- `d = dict(...)`
abbrev pub new_dict : Metadata → World → World
unfolding alloc
new_dict d w = let (a, h) = alloc d w.heap in record w { heap = h; known = a ∷ w.known }

-- Any change of a dictionary: `d` is what it holds afterwards.
abbrev pub write : ℕ → Metadata → World → World
write a d w = record w { heap = record { cell = write_cell w.heap.cell a d; next = w.heap.next } }

-- `d = r.metadata`
abbrev pub read : ResultObject → World → World
unfolding get_metadata
read r w = let (a, h) = get_metadata r w.heap in record w { heap = h; known = a ∷ w.known }

mutual
  -- A step. The last two are those of the methods: `bind` with code of the caller as its callback,
  -- and the failure that `tap` or `where` builds. `map` is `bind` with a callback that makes a result.
  pub data Step : World → World → Type 0 where
    allocates : {v w : World} (d : Metadata) → w ≡ new_dict d v → Step v w
    writes : {v w : World} (a : ℕ) (d : Metadata) → Memᴰ a v.known → w ≡ write a d v → Step v w
    makes :
        {v w : World} (is_ok : Bool) (value error : Object) (metadata : Maybe.Option ℕ)
        → IsHeld metadata v
        → w ≡ (init is_ok value error metadata v).1
        → Step v w
    reads : {v w : World} (r : ResultObject) → Memᴰ r v.results → w ≡ read r v → Step v w
    relabels :
        {v w : World} (r : ResultObject) (a : ℕ)
        → Memᴰ r v.results
        → Memᴰ a v.known
        → w ≡ (with_metadata_object r a v).1
        → Step v w
    binds :
        {v w : World} (r : ResultObject) (func : Object → Py World DynObject)
        → Memᴰ r v.results
        → Run v (func r.value v).1
        → w ≡ (bind_object r func v).1
        → Step v w
    fails :
        {v w : World} (r : ResultObject) (error : Object)
        → Memᴰ r v.results
        → w ≡ (failure_object error (some r.metadata) v).1
        → Step v w

  -- A run of the caller's code.
  pub data Run : World → World → Type 0 where
    here : {v : World} → Run v v
    next : {v w u : World} → Run v w → Step w u → Run v u

-- Before anything is made.
abbrev pub start : World
start = record { heap = record { cell = λ a. []; next = 0 }; known = []; results = [] }
