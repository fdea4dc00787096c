-- ===== src/Monads/AsyncResult/Errors.antt =====
-- What the methods of `AsyncResult` do with exceptions.
use mathlib.Core.Option as Maybe
use mathlib.Core.Option.{none, some}
use aikernel_core.Base.{◌≡◌, refl, ◌∙◌, true, []}
use aikernel_core.Python.Object.{Object, Exn, exn, is_exception}
use aikernel_core.Python.Effect.{return, raise, Py, pure, ◌>>=◌, try_except}
use aikernel_core.Python.Effect.Rules.{Passing, RaisesNoException, Ends-try_else}
use aikernel_core.Monads.Types.{Result, Dyn, result, failure}
use aikernel_core.Monads.Async.{AsyncResult, Reply, Observed, as_result, resolve_result}
use aikernel_core.Monads.Dyn
use aikernel_core.Monads.Result
use aikernel_core.Monads.Result.Laws.{bind-succeeded}
use aikernel_core.Monads.AsyncResult.{map, bind, bind_run, project, select_many, tap, filter_where}

module _ {ℓ} {W : Type ℓ} where
  guarded-RaisesNoException :
      (m : Py W Dyn) (w : W)
      → RaisesNoException (try_except m (λ ex. pure (result (failure (exn ex) []))) w).0
  guarded-RaisesNoException m w =
      Ends-try_else (λ d. Unit) Passing m (λ ex. pure (result (failure (exn ex) []))) pure w
        (λ e u h. tt) (λ e h. h) (λ d u. tt)

  bind-RaisesNoException :
      (self : AsyncResult W) (func : Object → Py W (Reply W)) (w : W)
      → RaisesNoException ((bind self func).awaitable w).0
  unfolding bind
  bind-RaisesNoException self func w =
      guarded-RaisesNoException (self.awaitable >>= as_result >>= bind_run func) w

  -- Awaiting what `map`, `bind` and `select_many` return raises no `Exception`, whatever the
  -- awaited object and the callbacks do.
  pub await-RaisesNoException :
      (self : AsyncResult W) (w : W) (func : Object → Py W Object)
      (binder : Object → Py W (Reply W)) (projector : Maybe.Option (Object → Object → Py W Object))
      → RaisesNoException ((map self func).awaitable w).0
        × RaisesNoException ((bind self binder).awaitable w).0
        × RaisesNoException ((select_many self binder projector).awaitable w).0
  unfolding map select_many
  await-RaisesNoException self w func binder none = (
    guarded-RaisesNoException (self.awaitable >>= λ d. Dyn.map d func) w,
    bind-RaisesNoException self binder w,
    bind-RaisesNoException self binder w,
  )
  await-RaisesNoException self w func binder (some projector) = (
    guarded-RaisesNoException (self.awaitable >>= λ d. Dyn.map d func) w,
    bind-RaisesNoException self binder w,
    bind-RaisesNoException self (project binder projector) w,
  )

  -- An `Exception` of the wrapped awaitable becomes a failure with no metadata in `map` and `bind`,
  -- and is raised again by `tap` and `where`.
  awaited_exception :
      (self : AsyncResult W) (w w' : W) (e : Exn) (func : Object → Py W Object)
      (binder : Object → Py W (Reply W)) (action predicate : Object → Py W (Observed W))
      → is_exception e ≡ true
      → self.awaitable w ≡ (raise e, w')
      → ((map self func).awaitable w ≡ (return (result (failure (exn e) [])), w'))
        × ((bind self binder).awaitable w ≡ (return (result (failure (exn e) [])), w'))
        × ((tap self action).awaitable w ≡ (raise e, w'))
        × ((filter_where self predicate).awaitable w ≡ (raise e, w'))
  unfolding map bind tap filter_where
  awaited_exception self w w' e func binder action predicate h raised =
      (rw raised (rw h refl), rw raised (rw h refl), rw raised refl, rw raised refl)

  pub bind_run-succeeded :
      (func : Object → Py W (Reply W)) (r : Result) (w : W)
      → r.is_ok ≡ true
      → bind_run func r w
        ≡ (func r.value >>= (λ reply. resolve_result reply r.metadata) >>= λ s. pure (result s)) w
  unfolding Result.is_err Result.unwrap bind_run resolve_result
  bind_run-succeeded func r w e = rw e

  -- A callback of a successful result that raises an `Exception` when it is called makes
  -- `AsyncResult`'s `bind` a failure with no metadata, where `Result.bind` keeps the metadata of
  -- the result.
  pub bind_drops_metadata :
      (self : AsyncResult W) (r : Result) (w w' u : W) (e : Exn) (func : Object → Py W (Reply W))
      (sync_func : Object → Py W Dyn)
      → r.is_ok ≡ true
      → is_exception e ≡ true
      → self.awaitable w ≡ (return (result r), w')
      → func r.value w' ≡ (raise e, u)
      → sync_func r.value w' ≡ (raise e, u)
      → ((bind self func).awaitable w ≡ (return (result (failure (exn e) [])), u))
        × (Result.bind r sync_func w' ≡ (return (failure (exn e) r.metadata), u))
  unfolding bind
  bind_drops_metadata self r w w' u e func sync_func ok h awaited raised sync_raised = (
    rw awaited (rw (bind_run-succeeded func r w' ok, raised) (rw h refl)),
    bind-succeeded r sync_func w' ok ∙ rw sync_raised (rw h refl),
  )
