-- ===== src/Monads/Coroutines/ResultMethods.antt =====
-- The methods of `AsyncResult` with their suspensions: each is the task of its local function `run`.
use mathlib.Core.Option as Maybe
use mathlib.Core.Option.{none, some}
use aikernel_core.Base.{[], if◌then◌else◌}
use aikernel_core.Python.Object.{Object, exn, value_error, truthy}
use aikernel_core.Python.Effect.{pure, ◌>>=◌, Py}
use aikernel_core.Python.Tasks.{Task, ended, call, await_then, try_await}
use aikernel_core.Monads.Types.{Result, Dyn, result, failure}
use aikernel_core.Monads.Result
use aikernel_core.Monads.Dyn
use aikernel_core.Monads.Coroutines.{
  of_result, async_result_task, TaskReply, give, resolved_task, resolve_result_task, as_result_task,
}

module _ {ℓ} {W : Type ℓ} where
  -- `run` of `map`
  unfoldable pub map_task : Task W Dyn → (Object → Py W Object) → Task W Dyn
  unfolding try_await await_then Dyn.map
  map_task self func =
      try_await (await_then self (λ d. call (Dyn.map d func)))
        (λ ex. give (result (failure (exn ex) []))) give

  unfoldable pub bind_run_task : (Object → Py W (TaskReply W Dyn)) → Result → Task W Dyn
  unfolding Result.is_err Result.unwrap await_then resolve_result_task
  bind_run_task func r =
      if Result.is_err r
      then give (result (failure r.error r.metadata))
      else await_then
          (await_then (await_then (ended (Result.unwrap r)) (λ v. call (func v)))
            (λ reply. resolve_result_task reply r.metadata))
          (λ s. give (result s))

  -- `run` of `bind`
  unfoldable pub bind_task : Task W Dyn → (Object → Py W (TaskReply W Dyn)) → Task W Dyn
  unfolding try_await await_then bind_run_task
  bind_task self func =
      try_await (await_then (await_then self as_result_task) (bind_run_task func))
        (λ ex. give (result (failure (exn ex) []))) give

  unfoldable pub tap_run_task : (Object → Py W (TaskReply W Object)) → Result → Task W Dyn
  unfolding Result.is_err Result.unwrap try_await await_then
  tap_run_task action r =
      if Result.is_err r
      then give (result (failure r.error r.metadata))
      else try_await
          (await_then (await_then (ended (Result.unwrap r)) (λ v. call (action v))) resolved_task)
          (λ ex. give (result (failure (exn ex) r.metadata))) (λ _. give (result r))

  -- `run` of `tap`
  unfoldable pub tap_task : Task W Dyn → (Object → Py W (TaskReply W Object)) → Task W Dyn
  unfolding await_then tap_run_task
  tap_task self action = await_then (await_then self as_result_task) (tap_run_task action)

  abbrev pub filtered_task : Result → Object → Task W Dyn
  unfolding truthy
  filtered_task r passed =
      if truthy passed
      then give (result r)
      else give (result (failure (exn (value_error "Predicate failed")) r.metadata))

  unfoldable pub where_run_task : (Object → Py W (TaskReply W Object)) → Result → Task W Dyn
  unfolding Result.is_err Result.unwrap try_await await_then filtered_task
  where_run_task predicate r =
      if Result.is_err r
      then give (result (failure r.error r.metadata))
      else try_await
          (await_then (await_then (ended (Result.unwrap r)) (λ v. call (predicate v)))
            resolved_task)
          (λ ex. give (result (failure (exn ex) r.metadata))) (filtered_task r)

  -- `run` of `where`
  unfoldable pub where_task : Task W Dyn → (Object → Py W (TaskReply W Object)) → Task W Dyn
  unfolding await_then where_run_task
  where_task self predicate = await_then (await_then self as_result_task) (where_run_task predicate)

  -- `lambda value: async_result(binder(value)).map(lambda bound: projector(value, bound))`
  unfoldable pub project_task :
      (Object → Py W (TaskReply W Dyn))
      → (Object → Object → Py W Object)
      → Object
      → Py W (TaskReply W Dyn)
  unfolding map_task async_result_task
  project_task binder projector value = binder value >>= λ reply.
      pure (of_result (map_task (async_result_task reply) (projector value)))

  -- With no projector it is `bind`.
  unfoldable pub select_many_task :
      Task W Dyn
      → (Object → Py W (TaskReply W Dyn))
      → Maybe.Option (Object → Object → Py W Object)
      → Task W Dyn
  unfolding bind_task project_task
  select_many_task self binder none = bind_task self binder
  select_many_task self binder (some projector) = bind_task self (project_task binder projector)
