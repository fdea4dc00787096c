-- ===== src/Monads/Coroutines/Blocks.antt =====
-- The coroutines of `async_do` in python/src/aikernel_net/monads.py with their suspensions. A block
-- yields objects and tasks. What the generator does on a `send` it does at once.
use aikernel_core.Base.{[], if◌then◌else◌}
use aikernel_core.Python.Object.{Object, Exn, exn, is_exception}
use aikernel_core.Python.Effect.{Outcome, return, raise, Py}
use aikernel_core.Python.Dict.{update}
use aikernel_core.Python.Tasks.{Task, ended, does, call, reads, await_then, try_await}
use aikernel_core.Monads.Types.{
  Metadata, Result, Option, Either, Dyn, result, option, either, failure,
}
use aikernel_core.Monads.Result
use aikernel_core.Monads.Option
use aikernel_core.Monads.Either
use aikernel_core.Monads.Generator.{Generator, stop, throws, yields, Called, plain, generator}
use aikernel_core.Monads.Do.{MonadType, result_type, either_type, DoState, pure_monad}
use aikernel_core.Monads.Coroutines.{
  TaskReply, give, resolve_result_task, resolve_option_task, resolve_either_task,
}

module _ {ℓ} {W : Type ℓ} where
  -- The world as the generator left it.
  abbrev pub leaves : {A : Type 0} → W → Task W A → Task W A
  leaves w t = does (λ _. w) (λ _. t)

  -- The handler of `_run_async_result_do`, with what `metadata` is when `e` is raised.
  abbrev pub fails : Exn → Metadata → Task W Dyn
  fails e metadata =
      if is_exception e then give (result (failure (exn e) metadata)) else ended (raise e)

  -- How the loop of `_run_async_result_do` goes on with a resolved result.
  unfoldable pub advance_result_task :
      Metadata → (Object → Metadata → Task W Dyn) → Result → Task W Dyn
  unfolding Result.is_err Result.unwrap
  advance_result_task metadata next r =
      if Result.is_err r
      then give (result r)
      else sent (Result.unwrap r) (update metadata r.metadata)
    where
      sent : Outcome Object → Metadata → Task W Dyn
      sent (return current) learned = next current learned
      sent (raise e) learned = fails e learned

  unfoldable pub loop_result_task : DoState → Generator W (TaskReply W Dyn) → Metadata → Task W Dyn
  unfolding pure_monad advance_result_task try_await resolve_result_task
  loop_result_task state (stop value w) metadata = leaves w (give (pure_monad state value metadata))
  loop_result_task state (throws e w) metadata = leaves w (fails e metadata)
  loop_result_task state (yields reply w resume) metadata = leaves w (
      try_await (resolve_result_task reply metadata) (λ e. fails e metadata)
        (advance_result_task metadata
          (λ current learned. reads (λ u. loop_result_task state (resume current u) learned))))

  unfoldable pub start_result_task : DoState → Called W (TaskReply W Dyn) → Task W Dyn
  unfolding loop_result_task pure_monad
  start_result_task state (plain value) = give (pure_monad state value [])
  start_result_task state (generator start) = reads (λ w. loop_result_task state (start w) [])

  -- `_run_async_result_do`
  unfoldable pub result_do_task : DoState → Py W (Called W (TaskReply W Dyn)) → Task W Dyn
  unfolding start_result_task try_await
  result_do_task state func = try_await (call func) (λ e. fails e []) (start_result_task state)

  unfoldable pub advance_option_task : (Object → Task W Dyn) → Option → Task W Dyn
  unfolding Option.is_none Option.unwrap await_then
  advance_option_task next o =
      if Option.is_none o then give (option o) else await_then (ended (Option.unwrap o)) next

  unfoldable pub loop_option_task : DoState → Generator W (TaskReply W Dyn) → Task W Dyn
  unfolding pure_monad advance_option_task await_then resolve_option_task
  loop_option_task state (stop value w) = leaves w (give (pure_monad state value []))
  loop_option_task state (throws e w) = leaves w (ended (raise e))
  loop_option_task state (yields reply w resume) = leaves w (
      await_then (resolve_option_task reply)
        (advance_option_task (λ current. reads (λ u. loop_option_task state (resume current u)))))

  unfoldable pub start_option_task : DoState → Called W (TaskReply W Dyn) → Task W Dyn
  unfolding loop_option_task pure_monad
  start_option_task state (plain value) = give (pure_monad state value [])
  start_option_task state (generator start) = reads (λ w. loop_option_task state (start w))

  -- `_run_async_option_do`
  unfoldable pub option_do_task : DoState → Py W (Called W (TaskReply W Dyn)) → Task W Dyn
  unfolding start_option_task await_then
  option_do_task state func = await_then (call func) (start_option_task state)

  unfoldable pub advance_either_task : (Object → Task W Dyn) → Either → Task W Dyn
  unfolding Either.is_left Either.unwrap await_then
  advance_either_task next e =
      if Either.is_left e then give (either e) else await_then (ended (Either.unwrap e)) next

  unfoldable pub loop_either_task : DoState → Generator W (TaskReply W Dyn) → Task W Dyn
  unfolding pure_monad advance_either_task await_then resolve_either_task
  loop_either_task state (stop value w) = leaves w (give (pure_monad state value []))
  loop_either_task state (throws e w) = leaves w (ended (raise e))
  loop_either_task state (yields reply w resume) = leaves w (
      await_then (resolve_either_task reply)
        (advance_either_task (λ current. reads (λ u. loop_either_task state (resume current u)))))

  unfoldable pub start_either_task : DoState → Called W (TaskReply W Dyn) → Task W Dyn
  unfolding loop_either_task pure_monad
  start_either_task state (plain value) = give (pure_monad state value [])
  start_either_task state (generator start) = reads (λ w. loop_either_task state (start w))

  -- `_run_async_either_do`
  unfoldable pub either_do_task : DoState → Py W (Called W (TaskReply W Dyn)) → Task W Dyn
  unfolding start_either_task await_then
  either_do_task state func = await_then (call func) (start_either_task state)

  -- What is awaited on the wrapper that a call of the decorated function returns, by its class.
  unfoldable pub wrapper_task : MonadType → DoState → Py W (Called W (TaskReply W Dyn)) → Task W Dyn
  unfolding result_do_task option_do_task either_do_task
  wrapper_task result_type state func = result_do_task state func
  wrapper_task either_type state func = either_do_task state func
  wrapper_task _ state func = option_do_task state func

  unfoldable pub do_task : DoState → Py W (Called W (TaskReply W Dyn)) → Task W Dyn
  unfolding wrapper_task
  do_task state func = wrapper_task state.kind state func
