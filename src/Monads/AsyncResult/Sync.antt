-- ===== src/Monads/AsyncResult/Sync.antt =====
-- `AsyncResult` agrees with `Result` once its awaitable has returned.
use aikernel_core.Base.{◌≡◌, refl, [], Bool-cases, inl, inr}
use aikernel_core.Python.Object.{Object, Exn, exn, is_exception, truthy}
use aikernel_core.Python.Effect.{Outcome, return, raise, Py, pure, proceed, recover, ◌>>=◌}
use aikernel_core.Python.Effect.Rules.{RaisesNoException, try_except-passing}
use aikernel_core.Monads.Types.{Result, Dyn, result, failure}
use aikernel_core.Monads.Async.{AsyncResult, Observed, observe}
use aikernel_core.Monads.Dyn
use aikernel_core.Monads.Result
use aikernel_core.Monads.Result.Normal.{IsNormal, IsClosed, map-IsClosed}
use aikernel_core.Monads.AsyncResult.{map, tap_run, tap, filtered, where_run, filter_where}

module _ {ℓ} {W : Type ℓ} where
  -- A `Result` of a computation, as an object.
  abbrev pub as_dyn : Py W Result → Py W Dyn
  as_dyn m = m >>= λ r. pure (result r)

  pub as_dyn-passing :
      (o : Outcome Result) (w : W)
      → IsClosed o
      → RaisesNoException (let (d, u) = proceed o (λ r. pure (result r)) w in d)
  as_dyn-passing (return r) w h = tt
  as_dyn-passing (raise e) w h = h

  -- Where the awaitable has returned a normal result, `map` is `Result.map` on that result.
  pub map-sync :
      (self : AsyncResult W) (r : Result) (w w' : W) (func : Object → Py W Object)
      → IsNormal r
      → self.awaitable w ≡ (return (result r), w')
      → (map self func).awaitable w ≡ as_dyn (Result.map r func) w'
  unfolding map Dyn.map
  map-sync self r w w' func n awaited = rw awaited (
      try_except-passing (as_dyn (Result.map r func)) (λ ex. pure (result (failure (exn ex) []))) w'
        (as_dyn-passing (Result.map r func w').0 (Result.map r func w').1
          (map-IsClosed r n w' func)))

  recover-as_dyn :
      {A : Type 0} (o : Outcome A) (h : Exn → Result) (k : A → Py W Result) (k' : A → Py W Dyn)
      (w : W)
      → ((a : A) → k' a w ≡ as_dyn (k a) w)
      → recover o (λ ex. pure (result (h ex))) k' w ≡ as_dyn (recover o (λ ex. pure (h ex)) k) w
  recover-as_dyn (return a) h k k' w same = same a
  recover-as_dyn (raise e) h k k' w same = elim (Bool-cases (is_exception e)) [
    | inl c ↦ rw c refl
    | inr c ↦ rw c refl
  ]

  tap_run-sync :
      (action : Object → Py W (Observed W)) (r : Result) (w : W)
      → tap_run action r w ≡ as_dyn (Result.tap r (λ v. action v >>= observe)) w
  unfolding tap_run Result.is_err Result.unwrap Result.tap
  tap_run-sync action r w = elim (Bool-cases r.is_ok) [
    | inl ok ↦
        let (o, u) = (action r.value >>= observe) w in
        simp ok (
          recover-as_dyn o (λ ex. failure (exn ex) r.metadata) (λ _. pure r) (λ _. pure (result r))
            u (λ a. refl))
    | inr failed ↦ simp failed refl
  ]

  filtered-sync :
      (r : Result) (passed : Object) (w : W)
      → filtered r passed w ≡ as_dyn (Result.filtered r passed) w
  unfolding filtered truthy
  filtered-sync r passed w = elim (Bool-cases (truthy passed)) [
    | inl yes_p ↦ rw yes_p refl
    | inr no_p ↦ rw no_p refl
  ]

  where_run-sync :
      (predicate : Object → Py W (Observed W)) (r : Result) (w : W)
      → where_run predicate r w ≡ as_dyn (Result.filter_where r (λ v. predicate v >>= observe)) w
  unfolding where_run Result.is_err Result.unwrap Result.filter_where
  where_run-sync predicate r w = elim (Bool-cases r.is_ok) [
    | inl ok ↦
        let (o, u) = (predicate r.value >>= observe) w in
        simp ok (
          recover-as_dyn o (λ ex. failure (exn ex) r.metadata) (Result.filtered r) (filtered r) u
            (λ a. filtered-sync r a u))
    | inr failed ↦ simp failed refl
  ]

  -- Where the awaitable has returned a result, `tap` and `where` are those of `Result` on it, with
  -- what a callback returns awaited where it can be.
  pub tap_where-sync :
      (self : AsyncResult W) (r : Result) (w w' : W) (action predicate : Object → Py W (Observed W))
      → self.awaitable w ≡ (return (result r), w')
      → ((tap self action).awaitable w ≡ as_dyn (Result.tap r (λ v. action v >>= observe)) w')
        × ((filter_where self predicate).awaitable w
            ≡ as_dyn (Result.filter_where r (λ v. predicate v >>= observe)) w')
  unfolding tap filter_where
  tap_where-sync self r w w' action predicate awaited =
      (rw awaited (tap_run-sync action r w'), rw awaited (where_run-sync predicate r w'))

  -- Where the awaitable has returned a normal result, `map`, `tap` and `where` are those of `Result`
  -- on it, with what a callback of `tap` or `where` returns awaited where it can be.
  pub async_result-sync :
      (self : AsyncResult W) (r : Result) (w w' : W) (func : Object → Py W Object)
      (action predicate : Object → Py W (Observed W))
      → IsNormal r
      → self.awaitable w ≡ (return (result r), w')
      → ((map self func).awaitable w ≡ as_dyn (Result.map r func) w')
        × ((tap self action).awaitable w ≡ as_dyn (Result.tap r (λ v. action v >>= observe)) w')
        × ((filter_where self predicate).awaitable w
            ≡ as_dyn (Result.filter_where r (λ v. predicate v >>= observe)) w')
  async_result-sync self r w w' func action predicate n awaited =
      let (tapped, filtered) = tap_where-sync self r w w' action predicate awaited in
      (map-sync self r w w' func n awaited, tapped, filtered)
