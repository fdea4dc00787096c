-- ===== src/Tests/Clients.antt =====
-- `Result` objects whose dictionaries are written to.
use mathlib.Core.List.{Memᴰ}
use mathlib.Core.Option.{none, some}
use aikernel_core.Base.{ℕ, ◌≡◌, ◌≢◌, refl, true, [], ◌∷◌}
use aikernel_core.Python.Object.{Object}
use aikernel_core.Python.Effect.{return, raise, Py}
use aikernel_core.Monads.Result as Values
use aikernel_core.Monads.Objects.{
  World, ResultObject, DynObject, init, get_metadata, bind_object, map_object, select_many_object,
  tap_object, where_object,
}
use aikernel_core.Monads.Objects.Client.{
  Run, here, next, allocates, writes, makes, reads, binds, new_dict, write, read, start,
}
use aikernel_core.Monads.Objects.Isolation.{view}
use aikernel_core.Monads.Objects.Runs.{Run-view}
use aikernel_core.Monads.Objects.Refinement.{view_outcome, seen, IsClient}
use aikernel_core.Monads.Objects.Queries.{methods_refine}
use aikernel_core.Monads.Result.SelectMany
use aikernel_core.Tests.Samples.{item, boom, trace, later_trace}

-- `d = {...}; r = Success(item, d)`
abbrev made : World
unfolding init
made = (init true (item 1) Object.none (some 0) (new_dict trace start)).1

abbrev first : ResultObject
first = record { is_ok = true; value = item 1; error = Object.none; metadata = 1 }

made-Run : Run start made
unfolding init
made-Run =
    next (next here (allocates trace refl))
      (makes true (item 1) Object.none (some 0) (Memᴰ.head refl) refl)

-- A callback that makes a `Result` object.
abbrev make_second : Object → Py World DynObject
unfolding init
make_second v w =
    let (r, w') = init true (item 2) Object.none none w in (return (DynObject.result r), w')

make_second-IsClient : IsClient make_second
unfolding init
make_second-IsClient = record {
  runs = λ v w. next here (makes true (item 2) Object.none none tt refl);
  holds = λ v w. Memᴰ.head refl;
}

-- `d.update(...)`, `r.bind(...)`, and `r.metadata.clear()`
abbrev written : World
unfolding init bind_object get_metadata
written = write 2 [] (read first (write 0 later_trace made))

abbrev bound : World
bound = (bind_object first make_second written).1

Run-view_example : ((a : ℕ) → Memᴰ a (0 ∷ []) → a ≢ 1) × (view bound first ≡ view made first)
unfolding init get_metadata written
Run-view_example = Run-view first made-Run (Memᴰ.head refl) (
    next
      (next
        (next (next here (writes 0 later_trace (Memᴰ.head refl) refl))
          (reads first (Memᴰ.head refl) refl))
        (writes 2 [] (Memᴰ.head refl) refl))
      (binds first make_second (Memᴰ.head refl)
        (next here (makes true (item 2) Object.none none tt refl)) refl))

-- Callbacks that return at once, and that raise.
abbrev reply : Object → Py World Object
reply v w = (return (item 3), w)

abbrev raises : Object → Py World Object
raises v w = (raise boom, w)

methods_refine_example :
    (view_outcome (bind_object first make_second made)
      ≡ (Values.bind (view made first) (λ v u. seen (make_second v u)) made).0)
    × (view_outcome (map_object first reply made) ≡ (Values.map (view made first) reply made).0)
    × (view_outcome (select_many_object first make_second (some (λ v. raises)) made)
        ≡ (SelectMany.select_many
            (view made first)
            (λ v u. seen (make_second v u))
            (some (λ v. raises))
            made).0)
    × (view_outcome (tap_object first raises made) ≡ (Values.tap (view made first) raises made).0)
    × (view_outcome (where_object first reply made)
        ≡ (Values.filter_where (view made first) reply made).0)
unfolding init
methods_refine_example =
    methods_refine first make_second reply raises reply (λ v. raises) made made-Run (Memᴰ.head refl)
      make_second-IsClient (λ v w. here) (λ v w. here) (λ v w. here) (λ v x w. here)
