-- ===== src/Monads/Objects/Preserved.antt =====
-- `bind` on `Result` objects leaves the dictionaries of the other objects alone, and gives none of
-- its own away.
use mathlib.Core.Option.{some}
use aikernel_core.Base.{ℕ, refl, arith, false, Bool-cases, inl, inr}
use aikernel_core.Python.Object.{Object, exn, is_exception}
use aikernel_core.Python.Effect.{Outcome, return, raise, Py, recover}
use aikernel_core.Python.Dict.{update}
use aikernel_core.Monads.Types.{Metadata}
use aikernel_core.Monads.Objects.{
  World, ResultObject, DynObject, result, option, either, other, alloc, get_metadata,
  failure_object, accept_object, returning, bind_object,
}
use aikernel_core.Monads.Objects.Isolation.{
  IsIsolated, Keeps, Keeps-trans, init-IsIsolated, init-Keeps, with_metadata-IsIsolated,
  with_metadata-Keeps, write_cell_other,
}

-- The world after is isolated, and has left the objects of the world before as they were.
pub record IsPreserved (v w : World) : Type 0 where
  pub isolated : IsIsolated w
  pub kept : Keeps v w

pub IsPreserved-trans : {u v w : World} → IsPreserved u v → IsPreserved v w → IsPreserved u w
IsPreserved-trans p q = record { isolated = q.isolated; kept = Keeps-trans p.kept q.kept }

-- A dictionary that nobody gets.
abbrev allocated : Metadata → World → World
unfolding alloc
allocated d w = record w { heap = (alloc d w.heap).1 }

allocated-IsPreserved : (d : Metadata) (w : World) → IsIsolated w → IsPreserved w (allocated d w)
unfolding alloc
allocated-IsPreserved d w h = record {
  isolated = record {
    owned = λ r m. let old = h.owned r m in omega arith;
    held = λ a m. let old = h.held a m in omega arith;
    apart = h.apart;
  };
  kept = record {
    still = λ r m. m;
    same = λ r m.
        let old = h.owned r m in
        write_cell_other w.heap.cell w.heap.next r.metadata d (λ e. absurd (omega arith));
  };
}

pub failure_object-IsPreserved :
    (error : Object) (a : ℕ) (w : World)
    → IsIsolated w
    → IsPreserved w (failure_object error (some a) w).1
unfolding failure_object
failure_object-IsPreserved error a w h = record {
  isolated = init-IsIsolated h false Object.none error (some a);
  kept = init-Keeps h false Object.none error (some a);
}

accept_object-IsPreserved :
    (self : ResultObject) (d : DynObject) (w : World)
    → IsIsolated w
    → IsPreserved w (accept_object self d w).1
unfolding accept_object get_metadata alloc
accept_object-IsPreserved self (option o) w h = failure_object-IsPreserved _ self.metadata w h
accept_object-IsPreserved self (either o) w h = failure_object-IsPreserved _ self.metadata w h
accept_object-IsPreserved self (other o) w h = failure_object-IsPreserved _ self.metadata w h
accept_object-IsPreserved self (result next) w h =
    let copied = allocated (w.heap.cell next.metadata) w in
    let first = allocated-IsPreserved (w.heap.cell next.metadata) w h in
    let both = update (copied.heap.cell self.metadata) (copied.heap.cell w.heap.next) in
    let second = allocated-IsPreserved both copied first.isolated in
    IsPreserved-trans first (
      IsPreserved-trans second (record {
        isolated = with_metadata-IsIsolated second.isolated next copied.heap.next;
        kept = with_metadata-Keeps second.isolated next copied.heap.next;
      }))

recover-IsPreserved :
    (self : ResultObject) (o : Outcome DynObject) (w : World)
    → IsIsolated w
    → IsPreserved w
        (recover o
          (λ ex. returning (failure_object (exn ex) (some self.metadata)))
          (λ next. returning (accept_object self next))
          w).1
recover-IsPreserved self (return d) w h = accept_object-IsPreserved self d w h
recover-IsPreserved self (raise e) w h = elim (Bool-cases (is_exception e)) [
  | inl c ↦ rw c (failure_object-IsPreserved (exn e) self.metadata w h)
  | inr c ↦ rw c (record { isolated = h; kept = record { still = λ r m. m; same = λ r m. refl } })
]

-- `bind` keeps the dictionary of each `Result` object apart from those that the caller holds, and every
-- `Result` object as it was, where its callback does so.
pub bind_object-IsPreserved :
    (self : ResultObject) (func : Object → Py World DynObject) (w : World)
    → IsIsolated w
    → IsPreserved w (func self.value w).1
    → IsPreserved w (bind_object self func w).1
unfolding bind_object
bind_object-IsPreserved self func w h called = elim (Bool-cases self.is_ok) [
  | inl e ↦ simp e (
      IsPreserved-trans called
        (recover-IsPreserved self (func self.value w).0 (func self.value w).1 called.isolated))
  | inr e ↦ simp e (failure_object-IsPreserved self.error self.metadata w h)
]
