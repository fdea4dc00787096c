-- ===== src/Monads/AsyncResult/BindSync.antt =====
-- `AsyncResult.bind` agrees with `Result.bind` once its awaitable has returned.
use aikernel_core.Base.{◌≡◌, refl, ◌∙◌, ap, sym, [], Bool-cases, inl, inr}
use aikernel_core.Python.Object.{Object, exn}
use aikernel_core.Python.Effect.{Outcome, return, raise, Py, pure, proceed, recover, ◌>>=◌}
use aikernel_core.Python.Effect.Rules.{RaisesNoException, try_except-passing}
use aikernel_core.Monads.Types.{Result, Dyn, result, option, either, other, failure}
use aikernel_core.Monads.Async.{
  AsyncResult, Reply, Observed, observe, resolved, resolve_result, checked_result,
}
use aikernel_core.Monads.Result
use aikernel_core.Monads.Result.Normal.{IsNormal, bind-IsClosed}
use aikernel_core.Monads.Result.Errors.{bind-failed}
use aikernel_core.Monads.Result.Laws.{settle, bind-succeeded}
use aikernel_core.Monads.AsyncResult.{map, bind, bind_run, tap, filter_where}
use aikernel_core.Monads.AsyncResult.Errors.{bind_run-succeeded}
use aikernel_core.Monads.AsyncResult.Sync.{as_dyn, as_dyn-passing, async_result-sync}

-- A `Result` is returned, or something is raised.
abbrev pub IsResultReply : Outcome Dyn → Type 0
IsResultReply (return (result r)) = Unit
IsResultReply (return _) = ⊥
IsResultReply (raise e) = Unit

module _ {ℓ} {W : Type ℓ} (r : Result) where
  checked-settle :
      (o : Outcome Dyn) (w : W)
      → IsResultReply o
      → recover o
          (λ ex. pure (failure (exn ex) r.metadata))
          (λ d. pure (checked_result d r.metadata))
          w
        ≡ settle r o w
  unfolding Result.with_metadata
  checked-settle (return (result s)) w h = refl
  checked-settle (return (option _)) w h = absurd h
  checked-settle (return (either _)) w h = absurd h
  checked-settle (return (other _)) w h = absurd h
  checked-settle (raise e) w h = refl

  resolve-settle :
      (o : Outcome (Reply W)) (w : W)
      → RaisesNoException o
      → IsResultReply (proceed o resolved w).0
      → proceed o (λ reply. resolve_result reply r.metadata) w
        ≡ (let (d, u) = proceed o resolved w in settle r d u)
  unfolding resolve_result
  resolve-settle (return reply) w passing h = let (d, u) = resolved reply w in checked-settle d u h
  resolve-settle (raise e) w passing h = rw passing refl

  bind_run-sync :
      (func : Object → Py W (Reply W)) (w : W)
      → RaisesNoException (func r.value w).0
      → IsResultReply ((func r.value >>= resolved) w).0
      → bind_run func r w ≡ as_dyn (Result.bind r (λ v. func v >>= resolved)) w
  unfolding bind_run Result.is_err
  bind_run-sync func w passing h = elim (Bool-cases r.is_ok) [
    | inl ok ↦
        bind_run-succeeded func r w ok
        ∙ ap (λ (x : Outcome Result × W). proceed x.0 (λ s. pure (result s)) x.1)
            (resolve-settle (func r.value w).0 (func r.value w).1 passing h
              ∙ sym (bind-succeeded r (λ v. func v >>= resolved) w ok))
    | inr failed ↦ rw (bind-failed r w failed (λ v. func v >>= resolved)) (simp failed refl)
  ]

module _ {ℓ} {W : Type ℓ} where
  -- Where the awaitable has returned a normal result, the callback raises no `Exception` when it is
  -- called, and its reply is or resolves to a `Result` or raises, `bind` is `Result.bind` with a
  -- callback that awaits the reply.
  bind-sync :
      (self : AsyncResult W) (r : Result) (w w' : W) (func : Object → Py W (Reply W))
      → IsNormal r
      → self.awaitable w ≡ (return (result r), w')
      → RaisesNoException (func r.value w').0
      → IsResultReply ((func r.value >>= resolved) w').0
      → (bind self func).awaitable w ≡ as_dyn (Result.bind r (λ v. func v >>= resolved)) w'
  unfolding bind
  bind-sync self r w w' func n awaited passing h =
      let same = bind_run-sync r func w' passing h in
      let sync = Result.bind r (λ v. func v >>= resolved) in
      rw awaited (
        rw same (
          try_except-passing (as_dyn sync) (λ ex. pure (result (failure (exn ex) []))) w'
            (as_dyn-passing (sync w').0 (sync w').1
              (bind-IsClosed r n w' (λ v. func v >>= resolved)))))

  -- Where the awaitable has returned a normal result, the callback of `bind` raises no `Exception` when
  -- it is called, and its reply is or resolves to a `Result` or raises, `map`, `bind`, `tap` and
  -- `where` are those of `Result` on it, with what a callback of `bind`, `tap` or `where` returns
  -- awaited where it can be.
  pub methods-sync :
      (self : AsyncResult W) (r : Result) (w w' : W) (func : Object → Py W Object)
      (binder : Object → Py W (Reply W)) (action predicate : Object → Py W (Observed W))
      → IsNormal r
      → self.awaitable w ≡ (return (result r), w')
      → RaisesNoException (binder r.value w').0
      → IsResultReply ((binder r.value >>= resolved) w').0
      → ((map self func).awaitable w ≡ as_dyn (Result.map r func) w')
        × ((bind self binder).awaitable w ≡ as_dyn (Result.bind r (λ v. binder v >>= resolved)) w')
        × ((tap self action).awaitable w ≡ as_dyn (Result.tap r (λ v. action v >>= observe)) w')
        × ((filter_where self predicate).awaitable w
            ≡ as_dyn (Result.filter_where r (λ v. predicate v >>= observe)) w')
  methods-sync self r w w' func binder action predicate n awaited passing h =
      let (mapped, tapped, filtered) =
        async_result-sync self r w w' func action predicate n awaited in
      (mapped, bind-sync self r w w' binder n awaited passing h, tapped, filtered)
