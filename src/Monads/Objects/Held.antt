-- ===== src/Monads/Objects/Held.antt =====
-- What `bind` on the `Result` objects of python/src/aikernel_net/monads.py returns is one of the objects
-- that there are.
use mathlib.Core.List.{Memᴰ}
use mathlib.Core.Option.{some}
use aikernel_core.Base.{◌≡◌, refl, Bool-cases, inl, inr}
use aikernel_core.Python.Object.{Object, exn, is_exception}
use aikernel_core.Python.Effect.{Outcome, return, raise, Py, pure, proceed, recover}
use aikernel_core.Python.Dict.{update}
use aikernel_core.Monads.Objects.{
  World, ResultObject, DynObject, result, option, either, other, alloc, get_metadata, init,
  failure_object, returning, with_metadata_object, accept_object, bind_object,
}
use aikernel_core.Monads.Objects.Refinement.{IsReplyHeld}
use aikernel_core.Monads.Objects.Client.{Run, here, next}

pub Run-trans : {u v w : World} → Run u v → Run v w → Run u w
Run-trans p here = p
Run-trans p (next q step) = next (Run-trans p q) step

-- What `bind` returns is there for the caller.
abbrev pub IsHeldOutcome : Outcome ResultObject × World → Type 0
IsHeldOutcome (return r, w) = Memᴰ r w.results
IsHeldOutcome (raise e, w) = Unit

with_metadata-held :
    (r : ResultObject) (a : _) (w : World) → IsHeldOutcome (returning (with_metadata_object r a) w)
unfolding with_metadata_object init
with_metadata-held r a w = elim (Bool-cases r.is_ok) [
  | inl e ↦ rw e (Memᴰ.head refl)
  | inr e ↦ rw e (Memᴰ.head refl)
]

accept-held :
    (self : ResultObject) (d : DynObject) (w : World)
    → IsHeldOutcome (returning (accept_object self d) w)
unfolding accept_object failure_object init
accept-held self (result found) w =
    let (copied, h) = get_metadata found w.heap in
    let (merged, h') = alloc (update (h.cell self.metadata) (h.cell copied)) h in
    with_metadata-held found merged (record w { heap = h' })
accept-held self (option o) w = Memᴰ.head refl
accept-held self (either e) w = Memᴰ.head refl
accept-held self (other o) w = Memᴰ.head refl

recover-held :
    (self : ResultObject) (o : Outcome DynObject) (w : World)
    → IsHeldOutcome (
        recover o
          (λ ex. returning (failure_object (exn ex) (some self.metadata)))
          (λ next. returning (accept_object self next))
          w)
unfolding failure_object init
recover-held self (return d) w = accept-held self d w
recover-held self (raise e) w = elim (Bool-cases (is_exception e)) [
  | inl c ↦ rw c (Memᴰ.head refl)
  | inr c ↦ rw c tt
]

pub bind_object-held :
    (self : ResultObject) (func : Object → Py World DynObject) (w : World)
    → IsHeldOutcome (bind_object self func w)
unfolding bind_object failure_object init
bind_object-held self func w = elim (Bool-cases self.is_ok) [
  | inl e ↦ simp e (recover-held self (func self.value w).0 (func self.value w).1)
  | inr e ↦ simp e (Memᴰ.head refl)
]

pub reply-held :
    (p : Outcome ResultObject × World)
    → IsHeldOutcome p
    → IsReplyHeld (proceed p.0 (λ r. pure (DynObject.result r)) p.1)
reply-held (return r, w) h = h
reply-held (raise e, w) h = tt

pub reply-world :
    (p : Outcome ResultObject × World) → (proceed p.0 (λ r. pure (DynObject.result r)) p.1).1 ≡ p.1
reply-world (return r, w) = refl
reply-world (raise e, w) = refl
