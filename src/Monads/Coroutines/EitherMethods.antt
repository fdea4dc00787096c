-- ===== src/Monads/Coroutines/EitherMethods.antt =====
-- The methods of `AsyncEither` with their suspensions: each is the task of its local function `run`.
use mathlib.Core.Option as Maybe
use mathlib.Core.Option.{none, some}
use aikernel_core.Base.{if◌then◌else◌}
use aikernel_core.Python.Object.{Object, truthy}
use aikernel_core.Python.Effect.{pure, ◌>>=◌, Py}
use aikernel_core.Python.Tasks.{Task, ended, call, await_then}
use aikernel_core.Monads.Types.{Either, Dyn, either}
use aikernel_core.Monads.Dyn
use aikernel_core.Monads.Types.{left}
use aikernel_core.Monads.Either
use aikernel_core.Monads.Coroutines.{
  of_either, async_either_task, TaskReply, give, resolved_task, resolve_either_task, as_either_task,
}

module _ {ℓ} {W : Type ℓ} where
  -- `run` of `map`
  unfoldable pub map_task : Task W Dyn → (Object → Py W Object) → Task W Dyn
  unfolding await_then Dyn.map
  map_task self func = await_then self (λ d. call (Dyn.map d func))

  unfoldable pub bind_run_task : (Object → Py W (TaskReply W Dyn)) → Either → Task W Dyn
  unfolding Either.is_left Either.unwrap await_then resolve_either_task
  bind_run_task func x =
      if Either.is_left x
      then give (either (left x.left))
      else await_then
          (await_then (await_then (ended (Either.unwrap x)) (λ v. call (func v)))
            resolve_either_task)
          (λ y. give (either y))

  -- `run` of `bind`
  unfoldable pub bind_task : Task W Dyn → (Object → Py W (TaskReply W Dyn)) → Task W Dyn
  unfolding await_then bind_run_task
  bind_task self func = await_then (await_then self as_either_task) (bind_run_task func)

  unfoldable pub tap_run_task : (Object → Py W (TaskReply W Object)) → Either → Task W Dyn
  unfolding Either.unwrap await_then
  tap_run_task action x =
      if x.is_right
      then await_then
          (await_then (await_then (ended (Either.unwrap x)) (λ v. call (action v))) resolved_task)
          (λ _. give (either x))
      else give (either x)

  -- `run` of `tap`
  unfoldable pub tap_task : Task W Dyn → (Object → Py W (TaskReply W Object)) → Task W Dyn
  unfolding await_then tap_run_task
  tap_task self action = await_then (await_then self as_either_task) (tap_run_task action)

  unfoldable pub filtered_task : Either → Py W Object → Object → Task W Dyn
  unfolding truthy await_then
  filtered_task x left_factory passed =
      if truthy passed
      then give (either x)
      else await_then (call left_factory) (λ l. give (either (left l)))

  unfoldable pub where_run_task :
      (Object → Py W (TaskReply W Object)) → Py W Object → Either → Task W Dyn
  unfolding Either.is_left Either.unwrap await_then filtered_task
  where_run_task predicate left_factory x =
      if Either.is_left x
      then give (either x)
      else await_then
          (await_then (await_then (ended (Either.unwrap x)) (λ v. call (predicate v)))
            resolved_task)
          (filtered_task x left_factory)

  -- `run` of `where`
  unfoldable pub where_task :
      Task W Dyn → (Object → Py W (TaskReply W Object)) → Py W Object → Task W Dyn
  unfolding await_then where_run_task
  where_task self predicate left_factory =
      await_then (await_then self as_either_task) (where_run_task predicate left_factory)

  -- `lambda value: async_either(binder(value)).map(lambda bound: projector(value, bound))`
  unfoldable pub project_task :
      (Object → Py W (TaskReply W Dyn))
      → (Object → Object → Py W Object)
      → Object
      → Py W (TaskReply W Dyn)
  unfolding map_task async_either_task
  project_task binder projector value = binder value >>= λ reply.
      pure (of_either (map_task (async_either_task reply) (projector value)))

  -- With no projector it is `bind`.
  unfoldable pub select_many_task :
      Task W Dyn
      → (Object → Py W (TaskReply W Dyn))
      → Maybe.Option (Object → Object → Py W Object)
      → Task W Dyn
  unfolding bind_task project_task
  select_many_task self binder none = bind_task self binder
  select_many_task self binder (some projector) = bind_task self (project_task binder projector)
