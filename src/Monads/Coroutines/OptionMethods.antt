-- ===== src/Monads/Coroutines/OptionMethods.antt =====
-- The methods of `AsyncOption` with their suspensions: each is the task of its local function `run`.
use mathlib.Core.Option as Maybe
use mathlib.Core.Option.{none, some}
use aikernel_core.Base.{if◌then◌else◌}
use aikernel_core.Python.Object.{Object, truthy}
use aikernel_core.Python.Effect.{pure, ◌>>=◌, Py}
use aikernel_core.Python.Tasks.{Task, ended, call, await_then}
use aikernel_core.Monads.Types.{Option, Dyn, option}
use aikernel_core.Monads.Dyn
use aikernel_core.Monads.Types.{nothing}
use aikernel_core.Monads.Option
use aikernel_core.Monads.Coroutines.{
  of_option, async_option_task, TaskReply, give, resolved_task, resolve_option_task, as_option_task,
}

module _ {ℓ} {W : Type ℓ} where
  -- `run` of `map`
  unfoldable pub map_task : Task W Dyn → (Object → Py W Object) → Task W Dyn
  unfolding await_then Dyn.map
  map_task self func = await_then self (λ d. call (Dyn.map d func))

  unfoldable pub bind_run_task : (Object → Py W (TaskReply W Dyn)) → Option → Task W Dyn
  unfolding Option.is_none Option.unwrap await_then resolve_option_task
  bind_run_task func x =
      if Option.is_none x
      then give (option nothing)
      else await_then
          (await_then (await_then (ended (Option.unwrap x)) (λ v. call (func v)))
            resolve_option_task)
          (λ y. give (option y))

  -- `run` of `bind`
  unfoldable pub bind_task : Task W Dyn → (Object → Py W (TaskReply W Dyn)) → Task W Dyn
  unfolding await_then bind_run_task
  bind_task self func = await_then (await_then self as_option_task) (bind_run_task func)

  unfoldable pub tap_run_task : (Object → Py W (TaskReply W Object)) → Option → Task W Dyn
  unfolding Option.unwrap await_then
  tap_run_task action x =
      if x.is_some
      then await_then
          (await_then (await_then (ended (Option.unwrap x)) (λ v. call (action v))) resolved_task)
          (λ _. give (option x))
      else give (option x)

  -- `run` of `tap`
  unfoldable pub tap_task : Task W Dyn → (Object → Py W (TaskReply W Object)) → Task W Dyn
  unfolding await_then tap_run_task
  tap_task self action = await_then (await_then self as_option_task) (tap_run_task action)

  unfoldable pub filtered_task : Option → Object → Task W Dyn
  unfolding truthy
  filtered_task x passed = if truthy passed then give (option x) else give (option nothing)

  unfoldable pub where_run_task : (Object → Py W (TaskReply W Object)) → Option → Task W Dyn
  unfolding Option.is_none Option.unwrap await_then filtered_task
  where_run_task predicate x =
      if Option.is_none x
      then give (option x)
      else await_then
          (await_then (await_then (ended (Option.unwrap x)) (λ v. call (predicate v)))
            resolved_task)
          (filtered_task x)

  -- `run` of `where`
  unfoldable pub where_task : Task W Dyn → (Object → Py W (TaskReply W Object)) → Task W Dyn
  unfolding await_then where_run_task
  where_task self predicate = await_then (await_then self as_option_task) (where_run_task predicate)

  -- `lambda value: async_option(binder(value)).map(lambda bound: projector(value, bound))`
  unfoldable pub project_task :
      (Object → Py W (TaskReply W Dyn))
      → (Object → Object → Py W Object)
      → Object
      → Py W (TaskReply W Dyn)
  unfolding map_task async_option_task
  project_task binder projector value = binder value >>= λ reply.
      pure (of_option (map_task (async_option_task reply) (projector value)))

  -- With no projector it is `bind`.
  unfoldable pub select_many_task :
      Task W Dyn
      → (Object → Py W (TaskReply W Dyn))
      → Maybe.Option (Object → Object → Py W Object)
      → Task W Dyn
  unfolding bind_task project_task
  select_many_task self binder none = bind_task self binder
  select_many_task self binder (some projector) = bind_task self (project_task binder projector)
