-- ===== src/Monads/Objects/Queries.antt =====
-- `select_many` on the `Result` objects of python/src/aikernel_net/monads.py, and all methods against
-- those on values.
use mathlib.Core.List.{Memᴰ}
use mathlib.Core.Option.{some}
use aikernel_core.Base.{◌≡◌, refl, sym, ap, ◌∙◌, Bool-cases, inl, inr}
use aikernel_core.Python.Object.{Object}
use aikernel_core.Python.Effect.{Outcome, return, raise, Py, pure, proceed}
use aikernel_core.Python.Effect.Rules.{Outcome-cases}
use aikernel_core.Monads.Types.{Result, Option, Either, Dyn}
use aikernel_core.Monads.Option
use aikernel_core.Monads.Either
use aikernel_core.Monads.Dyn
use aikernel_core.Monads.Result as Values
use aikernel_core.Monads.Result.SelectMany
use aikernel_core.Monads.Objects.{
  World, ResultObject, DynObject, result, option, either, other, then_success_object, bind_object,
  map_object, map_found, project_object, select_many_object, tap_object, where_object,
}
use aikernel_core.Monads.Objects.Client.{Run, here, next, binds, start}
use aikernel_core.Monads.Objects.Isolation.{start-IsIsolated, view}
use aikernel_core.Monads.Objects.Runs.{Run-IsPreserved}
use aikernel_core.Monads.Objects.Refinement.{
  view_outcome, seen, IsClient, IsReplyHeld, bind_object-bind,
}
use aikernel_core.Monads.Objects.Held.{Run-trans, bind_object-held, reply-held, reply-world}
use aikernel_core.Monads.Objects.Methods.{
  IsCallback, then_success_object-IsClient, bind-outcome, map_object-map, tap_object-tap,
  where_object-where,
}

-- The world that `map` of an `Option` leaves is that of its callback, or it has not been called.
option_map-Run :
    (found : Option) (func : Object → Py World Object) (w : World)
    → IsCallback func
    → Run w
        (proceed
          (Option.map found func w).0
          (λ o. pure (DynObject.option o))
          (Option.map found func w).1).1
unfolding Option.map Option.bind Option.is_none
option_map-Run found func w calls = elim (Bool-cases found.is_some) [
  | inl e ↦ elim (Outcome-cases (func found.value w).0) [
    | inl (a, r) ↦ simp (e, r) (calls found.value w)
    | inr (x, r) ↦ simp (e, r) (calls found.value w)
  ]
  | inr e ↦ simp e here
]

either_map-Run :
    (found : Either) (func : Object → Py World Object) (w : World)
    → IsCallback func
    → Run w
        (proceed
          (Either.map found func w).0
          (λ o. pure (DynObject.either o))
          (Either.map found func w).1).1
unfolding Either.map Either.bind Either.is_left
either_map-Run found func w calls = elim (Bool-cases found.is_right) [
  | inl e ↦ elim (Outcome-cases (func found.right w).0) [
    | inl (a, r) ↦ simp (e, r) (calls found.right w)
    | inr (x, r) ↦ simp (e, r) (calls found.right w)
  ]
  | inr e ↦ simp e here
]

option-held :
    (o : Outcome Option) (w : World) → IsReplyHeld (proceed o (λ p. pure (DynObject.option p)) w)
option-held (return p) w = tt
option-held (raise e) w = tt

either-held :
    (o : Outcome Either) (w : World) → IsReplyHeld (proceed o (λ p. pure (DynObject.either p)) w)
either-held (return p) w = tt
either-held (raise e) w = tt

seen-option :
    (o : Outcome Option) (w : World)
    → (seen (proceed o (λ p. pure (DynObject.option p)) w)).0
      ≡ (proceed o (λ p. pure (Dyn.option p)) w).0
seen-option (return p) w = refl
seen-option (raise e) w = refl

seen-either :
    (o : Outcome Either) (w : World)
    → (seen (proceed o (λ p. pure (DynObject.either p)) w)).0
      ≡ (proceed o (λ p. pure (Dyn.either p)) w).0
seen-either (return p) w = refl
seen-either (raise e) w = refl

map_found-Run :
    (d : DynObject) (func : Object → Py World Object) (w : World)
    → IsCallback func
    → IsReplyHeld (return d, w)
    → Run w (map_found d func w).1
unfolding map_found map_object
map_found-Run (result found) func w calls m = next here (
    binds found (then_success_object func) m
      ((then_success_object-IsClient func calls).runs found.value w)
      (reply-world (bind_object found (then_success_object func) w)))
map_found-Run (option found) func w calls m = option_map-Run found func w calls
map_found-Run (either found) func w calls m = either_map-Run found func w calls
map_found-Run (other o) func w calls m = here

map_found-held :
    (d : DynObject) (func : Object → Py World Object) (w : World) → IsReplyHeld (map_found d func w)
unfolding map_found map_object
map_found-held (result found) func w =
    reply-held (bind_object found (then_success_object func) w)
      (bind_object-held found (then_success_object func) w)
map_found-held (option found) func w = let (o, u) = Option.map found func w in option-held o u
map_found-held (either found) func w = let (o, u) = Either.map found func w in either-held o u
map_found-held (other o) func w = tt

-- The callback of `select_many`, after the binder.
found-Run :
    {v : World} (o : Outcome DynObject) (func : Object → Py World Object) (w : World)
    → Run v w
    → IsCallback func
    → IsReplyHeld (o, w)
    → Run v (proceed o (λ d. map_found d func) w).1
found-Run (return d) func w run calls m = Run-trans run (map_found-Run d func w calls m)
found-Run (raise e) func w run calls m = run

found-held :
    (o : Outcome DynObject) (func : Object → Py World Object) (w : World)
    → IsReplyHeld (proceed o (λ d. map_found d func) w)
found-held (return d) func w = map_found-held d func w
found-held (raise e) func w = tt

project_object-IsClient :
    (binder : Object → Py World DynObject) (projector : Object → Object → Py World Object)
    → IsClient binder
    → ((v : Object) → IsCallback (projector v))
    → IsClient (project_object binder projector)
unfolding project_object
project_object-IsClient binder projector client calls = record {
  runs = λ v w.
      found-Run (binder v w).0 (projector v) (binder v w).1 (client.runs v w) (calls v)
        (client.holds v w);
  holds = λ v w. found-held (binder v w).0 (projector v) (binder v w).1;
}

abbrev as_object : Outcome Result → Outcome Dyn
as_object (return s) = return (Dyn.result s)
as_object (raise e) = raise e

as_object_lem :
    (o : Outcome Result) (w : World) → (proceed o (λ s. pure (Dyn.result s)) w).0 ≡ as_object o
as_object_lem (return s) w = refl
as_object_lem (raise e) w = refl

seen-as_object :
    (p : Outcome ResultObject × World)
    → (seen (proceed p.0 (λ r. pure (DynObject.result r)) p.1)).0 ≡ as_object (view_outcome p)
seen-as_object (return r, w) = refl
seen-as_object (raise e, w) = refl

found-seen :
    (o : Outcome DynObject) (func : Object → Py World Object) (w : World)
    → Run start w
    → IsReplyHeld (o, w)
    → IsCallback func
    → (seen (proceed o (λ d. map_found d func) w)).0
      ≡ (let (d, u) = seen (o, w) in proceed d (λ x. Dyn.map x func) u).0
unfolding Dyn.map map_found
found-seen (return (result r)) func w before m calls =
    let (o, u) = Values.map (view w r) func w in
    seen-as_object (map_object r func w)
    ∙ ap as_object (map_object-map r func w before m calls)
    ∙ sym (as_object_lem o u)
found-seen (return (option found)) func w before m calls =
    let (o, u) = Option.map found func w in seen-option o u
found-seen (return (either found)) func w before m calls =
    let (o, u) = Either.map found func w in seen-either o u
found-seen (return (other o)) func w before m calls = refl
found-seen (raise e) func w before m calls = refl

select_many_object-select_many :
    (self : ResultObject) (binder : Object → Py World DynObject)
    (projector : Object → Object → Py World Object) (w : World)
    → Run start w
    → Memᴰ self w.results
    → IsClient binder
    → ((v : Object) → IsCallback (projector v))
    → view_outcome (select_many_object self binder (some projector) w)
      ≡ (SelectMany.select_many (view w self) (λ v u. seen (binder v u)) (some projector) w).0
unfolding select_many_object SelectMany.select_many project_object SelectMany.project
select_many_object-select_many self binder projector w before m client calls =
    bind_object-bind self (project_object binder projector) w before m
      (project_object-IsClient binder projector client calls)
    ∙ bind-outcome (view w self) (λ v u. seen (project_object binder projector v u))
        (SelectMany.project (λ v u. seen (binder v u)) projector) w
        (found-seen (binder self.value w).0 (projector self.value) (binder self.value w).1
          (Run-trans before (client.runs self.value w)) (client.holds self.value w)
          (calls self.value))

-- In any state that the caller's code can bring about, and with callbacks that are the caller's code,
-- `bind`, `map`, `select_many`, `tap` and `where` on a `Result` object return an object that shows
-- what these methods of `Result` return on what the object shows, or raise the same.
pub methods_refine :
    (self : ResultObject) (func : Object → Py World DynObject)
    (mapper action predicate : Object → Py World Object)
    (projector : Object → Object → Py World Object) (w : World)
    → Run start w
    → Memᴰ self w.results
    → IsClient func
    → IsCallback mapper
    → IsCallback action
    → IsCallback predicate
    → ((v : Object) → IsCallback (projector v))
    → (view_outcome (bind_object self func w)
        ≡ (Values.bind (view w self) (λ v u. seen (func v u)) w).0)
      × (view_outcome (map_object self mapper w) ≡ (Values.map (view w self) mapper w).0)
      × (view_outcome (select_many_object self func (some projector) w)
          ≡ (SelectMany.select_many (view w self) (λ v u. seen (func v u)) (some projector) w).0)
      × (view_outcome (tap_object self action w) ≡ (Values.tap (view w self) action w).0)
      × (view_outcome (where_object self predicate w)
          ≡ (Values.filter_where (view w self) predicate w).0)
methods_refine self func mapper action predicate projector w before m client maps acts tests
      projects =
    let isolated = (Run-IsPreserved before start-IsIsolated).isolated in
    (
      bind_object-bind self func w before m client,
      map_object-map self mapper w before m maps,
      select_many_object-select_many self func projector w before m client projects,
      tap_object-tap self action w (Run-IsPreserved (acts self.value w) isolated).kept m,
      where_object-where self predicate w (Run-IsPreserved (tests self.value w) isolated).kept m,
    )
