-- ===== src/Monads/AsyncResult.antt =====
-- The class `AsyncResult` of python/src/aikernel_net/monads.py. Each method wraps a coroutine, its
-- local function `run`. Each PascalCase method calls the method before it.
pub mod Sync
pub mod BindSync
pub mod Errors
pub mod Suspended
pub mod Raised
use mathlib.Core.Option as Maybe
use mathlib.Core.Option.{none, some}
use aikernel_core.Base.{[], if◌then◌else◌}
use aikernel_core.Python.Object.{Object, exn, value_error, truthy}
use aikernel_core.Python.Effect.{Py, pure, lift, ◌>>=◌, try_else, try_except}
use aikernel_core.Monads.Types.{Result, Dyn, result, failure}
use aikernel_core.Monads.Result
use aikernel_core.Monads.Dyn
use aikernel_core.Monads.Async.{
  AsyncResult, Reply, of_result, Observed, observe, resolve_result, async_result, as_result,
}

module _ {ℓ} {W : Type ℓ} where
  unfoldable pub map : AsyncResult W → (Object → Py W Object) → AsyncResult W
  unfolding Dyn.map
  map self func = record {
    awaitable =
        try_except (self.awaitable >>= λ d. Dyn.map d func)
          (λ ex. pure (result (failure (exn ex) [])));
  }

  -- `run` of `bind` on the awaited result
  abbrev pub bind_run : (Object → Py W (Reply W)) → Result → Py W Dyn
  unfolding Result.is_err Result.unwrap resolve_result
  bind_run func r w =
      if Result.is_err r
      then pure (result (failure r.error r.metadata)) w
      else (lift (Result.unwrap r) >>= func >>= (λ reply. resolve_result reply r.metadata) >>= λ s.
            pure (result s))
          w

  unfoldable pub bind : AsyncResult W → (Object → Py W (Reply W)) → AsyncResult W
  unfolding bind_run
  bind self func = record {
    awaitable =
        try_except (self.awaitable >>= as_result >>= bind_run func)
          (λ ex. pure (result (failure (exn ex) [])));
  }

  -- `lambda value: async_result(binder(value)).map(lambda bound: projector(value, bound))`
  abbrev pub project :
      (Object → Py W (Reply W)) → (Object → Object → Py W Object) → Object → Py W (Reply W)
  unfolding map async_result
  project binder projector value =
      binder value >>= λ reply. pure (of_result (map (async_result reply) (projector value)))

  -- With no projector it is `bind`.
  unfoldable pub select_many :
      AsyncResult W
      → (Object → Py W (Reply W))
      → Maybe.Option (Object → Object → Py W Object)
      → AsyncResult W
  unfolding bind project
  select_many self binder none = bind self binder
  select_many self binder (some projector) = bind self (project binder projector)

  -- `run` of `tap` on the awaited result
  abbrev pub tap_run : (Object → Py W (Observed W)) → Result → Py W Dyn
  unfolding Result.is_err Result.unwrap
  tap_run action r w =
      if Result.is_err r
      then pure (result (failure r.error r.metadata)) w
      else try_else (lift (Result.unwrap r) >>= action >>= observe)
          (λ ex. pure (result (failure (exn ex) r.metadata))) (λ _. pure (result r)) w

  -- The awaited result is taken outside of the `try` statement.
  unfoldable pub tap : AsyncResult W → (Object → Py W (Observed W)) → AsyncResult W
  unfolding tap_run
  tap self action = record { awaitable = self.awaitable >>= as_result >>= tap_run action }

  abbrev pub filtered : Result → Object → Py W Dyn
  unfolding truthy
  filtered r passed w =
      if truthy passed
      then pure (result r) w
      else pure (result (failure (exn (value_error "Predicate failed")) r.metadata)) w

  -- `run` of `where` on the awaited result
  abbrev pub where_run : (Object → Py W (Observed W)) → Result → Py W Dyn
  unfolding Result.is_err Result.unwrap filtered
  where_run predicate r w =
      if Result.is_err r
      then pure (result (failure r.error r.metadata)) w
      else try_else (lift (Result.unwrap r) >>= predicate >>= observe)
          (λ ex. pure (result (failure (exn ex) r.metadata))) (filtered r) w

  -- `where`
  unfoldable pub filter_where : AsyncResult W → (Object → Py W (Observed W)) → AsyncResult W
  unfolding where_run
  filter_where self predicate = record {
    awaitable = self.awaitable >>= as_result >>= where_run predicate;
  }
