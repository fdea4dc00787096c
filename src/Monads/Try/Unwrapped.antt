-- ===== src/Monads/Try/Unwrapped.antt =====
-- `Try` and `unwrap` of python/src/aikernel_net/monads.py: what the one catches the other raises.
use aikernel_core.Base.{◌≡◌, refl, Bool-cases, inl, inr}
use aikernel_core.Python.Object.{Object, exn, is_exception}
use aikernel_core.Python.Effect.{Outcome, return, raise, Py, pure, lift, proceed, recover, ◌>>=◌}
use aikernel_core.Monads.Types.{Metadata, success, failure}
use aikernel_core.Monads.Result.{unwrap, unwrap_error}
use aikernel_core.Monads.Try.{run}

module _ {ℓ} {W : Type ℓ} where
  unwrap_after :
      (o : Outcome Object) (metadata : Metadata) (w : W)
      → (let (r, u) =
            recover o (λ ex. pure (failure (exn ex) metadata)) (λ v. pure (success v metadata)) w in
          proceed r (λ s. lift (unwrap s)) u)
        ≡ (o, w)
  unfolding unwrap unwrap_error
  unwrap_after (return v) metadata w = refl
  unwrap_after (raise e) metadata w = elim (Bool-cases (is_exception e)) [
    | inl c ↦ rw c refl
    | inr c ↦ rw c refl
  ]

  -- Unwrapping what `Try` gives for a thunk has the effects of the thunk, and returns or raises what
  -- the thunk does: an exception that `Try` has caught is raised again.
  pub run-unwrap :
      (thunk : Py W Object) (metadata : Metadata) (w : W)
      → (run thunk metadata >>= λ r. lift (unwrap r)) w ≡ thunk w
  unfolding run
  run-unwrap thunk metadata w = unwrap_after (thunk w).0 metadata (thunk w).1
