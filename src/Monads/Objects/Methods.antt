-- ===== src/Monads/Objects/Methods.antt =====
-- The methods `map`, `tap` and `where` on the `Result` objects of
-- python/src/aikernel_net/monads.py, against those on values.
use mathlib.Core.List.{Memᴰ}
use mathlib.Core.Option.{none, some}
use aikernel_core.Base.{◌≡◌, refl, sym, ap, ◌∙◌, true, [], Bool-cases, inl, inr}
use aikernel_core.Python.Object.{Object, exn, value_error, is_exception, truthy}
use aikernel_core.Python.Effect.{Outcome, return, raise, Py, pure, proceed, recover}
use aikernel_core.Monads.Types.{Result, Dyn, success, failure}
use aikernel_core.Monads.Result as Values
use aikernel_core.Monads.Result.Errors.{bind-failed}
use aikernel_core.Monads.Result.Laws.{settle, bind-succeeded}
use aikernel_core.Monads.Objects.{
  World, ResultObject, DynObject, init, success_object, failure_object, returning,
  then_success_object, map_object, tap_object, filtered_object, where_object,
}
use aikernel_core.Monads.Objects.Client.{Run, next, makes, start}
use aikernel_core.Monads.Objects.Isolation.{Keeps, view}
use aikernel_core.Monads.Objects.Refinement.{
  view_outcome, seen, IsClient, IsReplyHeld, cell_self, view-failure_object, bind_object-bind,
}

-- A callback that returns no `Result` object is the caller's code.
abbrev pub IsCallback : (Object → Py World Object) → Type 0
IsCallback func = (v : Object) (w : World) → Run w (func v w).1

-- What `lambda value: Success(func(value))` does with what `func` left.
abbrev built : Outcome Object → World → Outcome DynObject × World
unfolding success_object
built o u =
    proceed o (λ v w. let (r, w') = success_object v none w in (return (DynObject.result r), w')) u

built-Run : {w : World} (o : Outcome Object) (u : World) → Run w u → Run w (built o u).1
unfolding success_object
built-Run (return v) u run = next run (makes true v Object.none none tt refl)
built-Run (raise e) u run = run

built-IsReplyHeld : (o : Outcome Object) (u : World) → IsReplyHeld (built o u)
unfolding success_object init
built-IsReplyHeld (return v) u = Memᴰ.head refl
built-IsReplyHeld (raise e) u = tt

pub then_success_object-IsClient :
    (func : Object → Py World Object) → IsCallback func → IsClient (then_success_object func)
unfolding then_success_object
then_success_object-IsClient func client = record {
  runs = λ v w. built-Run (func v w).0 (func v w).1 (client v w);
  holds = λ v w. built-IsReplyHeld (func v w).0 (func v w).1;
}

seen-built :
    (o : Outcome Object) (u : World)
    → (seen (built o u)).0 ≡ (proceed o (λ v. pure (Dyn.result (success v []))) u).0
unfolding success_object init
seen-built (return v) u =
    ap (λ d. return (Dyn.result (success v d))) (cell_self u.heap.cell u.heap.next [])
seen-built (raise e) u = refl

settle-world :
    {W : Type 0} (r : Result) (o : Outcome Dyn) (u u' : W) → (settle r o u).0 ≡ (settle r o u').0
settle-world r (return d) u u' = refl
settle-world r (raise e) u u' = elim (Bool-cases (is_exception e)) [
  | inl c ↦ rw c refl
  | inr c ↦ rw c refl
]

-- What `bind` returns or raises depends on what the callback returns or raises.
pub bind-outcome :
    {W : Type 0} (r : Result) (f g : Object → Py W Dyn) (w : W)
    → (f r.value w).0 ≡ (g r.value w).0
    → (Values.bind r f w).0 ≡ (Values.bind r g w).0
bind-outcome r f g w same = elim (Bool-cases r.is_ok) [
  | inl e ↦
      ap (λ p. p.0) (bind-succeeded r f w e)
      ∙ settle-world r (f r.value w).0 (f r.value w).1 (g r.value w).1
      ∙ ap (λ o. (settle r o (g r.value w).1).0) same
      ∙ ap (λ p. p.0) (sym (bind-succeeded r g w e))
  | inr e ↦ ap (λ p. p.0) (bind-failed r w e f ∙ sym (bind-failed r w e g))
]

pub map_object-map :
    (self : ResultObject) (func : Object → Py World Object) (w : World)
    → Run start w
    → Memᴰ self w.results
    → IsCallback func
    → view_outcome (map_object self func w) ≡ (Values.map (view w self) func w).0
unfolding map_object Values.map
map_object-map self func w before m client =
    bind_object-bind self (then_success_object func) w before m
      (then_success_object-IsClient func client)
    ∙ bind-outcome (view w self) (λ v u. seen (then_success_object func v u))
        (Values.then_success func) w (seen-built (func self.value w).0 (func self.value w).1)

-- What a method does with what its callback left.
settled_self :
    (self : ResultObject) (w : World) (o : Outcome Object) (u : World)
    (end : Object → Py World ResultObject) (end' : Object → Py World Result)
    → u.heap.cell self.metadata ≡ w.heap.cell self.metadata
    → ((a : Object) → view_outcome (end a u) ≡ (end' a u).0)
    → view_outcome
        (recover o (λ ex. returning (failure_object (exn ex) (some self.metadata))) end u)
      ≡ (recover o (λ ex. pure (failure (exn ex) (view w self).metadata)) end' u).0
settled_self self w (return a) u end end' same h = h a
settled_self self w (raise e) u end end' same h = elim (Bool-cases (is_exception e)) [
  | inl c ↦ rw c (view-failure_object (exn e) self.metadata u ∙ rw same refl)
  | inr c ↦ rw c refl
]

tap_object-succeeded :
    (self : ResultObject) (action : Object → Py World Object) (w : World)
    → self.is_ok ≡ true
    → tap_object self action w
      ≡ recover
          (action self.value w).0
          (λ ex. returning (failure_object (exn ex) (some self.metadata)))
          (λ _. pure self)
          (action self.value w).1
unfolding tap_object
tap_object-succeeded self action w e = rw e refl

tap-succeeded :
    (self : Result) (action : Object → Py World Object) (w : World)
    → self.is_ok ≡ true
    → Values.tap self action w
      ≡ recover
          (action self.value w).0
          (λ ex. pure (failure (exn ex) self.metadata))
          (λ _. pure self)
          (action self.value w).1
unfolding Values.tap Values.is_err
tap-succeeded self action w e = rw e refl

pub tap_object-tap :
    (self : ResultObject) (action : Object → Py World Object) (w : World)
    → Keeps w (action self.value w).1
    → Memᴰ self w.results
    → view_outcome (tap_object self action w) ≡ (Values.tap (view w self) action w).0
unfolding tap_object Values.tap Values.is_err
tap_object-tap self action w kept m =
    let (o, u) = action self.value w in
    let same = kept.same self m in
    elim (Bool-cases self.is_ok) [
      | inl e ↦
          ap view_outcome (tap_object-succeeded self action w e)
          ∙ settled_self self w o u (λ _. pure self) (λ _. pure (view w self)) same
              (λ a. rw same refl)
          ∙ ap (λ p. p.0) (sym (tap-succeeded (view w self) action w e))
      | inr e ↦ simp e (view-failure_object self.error self.metadata w)
    ]

filtered_object-filtered :
    (self : ResultObject) (w : World) (passed : Object) (u : World)
    → u.heap.cell self.metadata ≡ w.heap.cell self.metadata
    → view_outcome (filtered_object self passed u) ≡ (Values.filtered (view w self) passed u).0
unfolding truthy filtered_object
filtered_object-filtered self w passed u same = elim (Bool-cases (truthy passed)) [
  | inl e ↦ rw e (rw same refl)
  | inr e ↦
      rw e
        (view-failure_object (exn (value_error "Predicate failed")) self.metadata u ∙ rw same refl)
]

where_object-succeeded :
    (self : ResultObject) (predicate : Object → Py World Object) (w : World)
    → self.is_ok ≡ true
    → where_object self predicate w
      ≡ recover
          (predicate self.value w).0
          (λ ex. returning (failure_object (exn ex) (some self.metadata)))
          (filtered_object self)
          (predicate self.value w).1
unfolding where_object
where_object-succeeded self predicate w e = rw e refl

where-succeeded :
    (self : Result) (predicate : Object → Py World Object) (w : World)
    → self.is_ok ≡ true
    → Values.filter_where self predicate w
      ≡ recover
          (predicate self.value w).0
          (λ ex. pure (failure (exn ex) self.metadata))
          (Values.filtered self)
          (predicate self.value w).1
unfolding Values.filter_where Values.is_err
where-succeeded self predicate w e = rw e refl

pub where_object-where :
    (self : ResultObject) (predicate : Object → Py World Object) (w : World)
    → Keeps w (predicate self.value w).1
    → Memᴰ self w.results
    → view_outcome (where_object self predicate w)
      ≡ (Values.filter_where (view w self) predicate w).0
unfolding where_object Values.filter_where Values.is_err
where_object-where self predicate w kept m =
    let (o, u) = predicate self.value w in
    let same = kept.same self m in
    elim (Bool-cases self.is_ok) [
      | inl e ↦
          ap view_outcome (where_object-succeeded self predicate w e)
          ∙ settled_self self w o u (filtered_object self) (Values.filtered (view w self)) same
              (λ a. filtered_object-filtered self w a u same)
          ∙ ap (λ p. p.0) (sym (where-succeeded (view w self) predicate w e))
      | inr e ↦ simp e (view-failure_object self.error self.metadata w)
    ]
