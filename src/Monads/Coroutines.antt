-- ===== src/Monads/Coroutines.antt =====
-- The coroutines of python/src/aikernel_net/monads.py with their suspensions. An
-- awaitable is a task: other tasks act on the world while it is suspended.
pub mod Calls
pub mod Replies
pub mod Wrapped
pub mod ResultMethods
pub mod OptionMethods
pub mod EitherMethods
pub mod Blocks
use aikernel_core.Base.{[], if◌then◌else◌}
use aikernel_core.Python.Object.{exn, type_error, attribute_error}
use aikernel_core.Python.Effect.{return, raise}
use aikernel_core.Python.Tasks.{Task, ended, await_then, try_await}
use aikernel_core.Monads.Types.{
  Metadata, Result, Option, Either, Dyn, result, option, either, failure,
}
use aikernel_core.Base.{[]}
use aikernel_core.Monads.Async.{checked_result}

-- What a callback returns: an object, an awaitable, or one of the three wrappers of a task.
pub data TaskReply {ℓ} (W : Type ℓ) (A : Type 0) : Type ℓ where
  plain : A → TaskReply W A
  awaitable of_result of_option of_either : Task W A → TaskReply W A

module _ {ℓ} {W : Type ℓ} where
  abbrev pub give {κ} : {A : Type κ} → A → Task W A
  give a = ended (return a)

  -- `await value if inspect.isawaitable(value) else value`
  abbrev pub resolved_task : {A : Type 0} → TaskReply W A → Task W A
  resolved_task (plain a) = give a
  resolved_task (awaitable t) = t
  resolved_task (of_result t) = t
  resolved_task (of_option t) = t
  resolved_task (of_either t) = t

  -- `_resolve_result`
  unfoldable pub resolve_result_task : TaskReply W Dyn → Metadata → Task W Result
  unfolding try_await
  resolve_result_task value metadata =
      try_await (resolved_task value) (λ ex. give (failure (exn ex) metadata))
        (λ d. give (checked_result d metadata))

  abbrev pub checked_option_task : Dyn → Task W Option
  checked_option_task (option o) = give o
  checked_option_task _ = ended (raise (type_error "AsyncOption callback must return Option."))

  -- `_resolve_option`
  unfoldable pub resolve_option_task : TaskReply W Dyn → Task W Option
  unfolding await_then
  resolve_option_task value = await_then (resolved_task value) checked_option_task

  abbrev pub checked_either_task : Dyn → Task W Either
  checked_either_task (either e) = give e
  checked_either_task _ = ended (raise (type_error "AsyncEither callback must return Either."))

  -- `_resolve_either`
  unfoldable pub resolve_either_task : TaskReply W Dyn → Task W Either
  unfolding await_then
  resolve_either_task value = await_then (resolved_task value) checked_either_task

  -- `result.is_err`, and what follows it, on what was awaited: another object has no such property.
  abbrev pub as_result_task : Dyn → Task W Result
  as_result_task (result r) = give r
  as_result_task _ = ended (raise (attribute_error "object has no such attribute"))

  abbrev pub as_option_task : Dyn → Task W Option
  as_option_task (option o) = give o
  as_option_task _ = ended (raise (attribute_error "object has no such attribute"))

  abbrev pub as_either_task : Dyn → Task W Either
  as_either_task (either e) = give e
  as_either_task _ = ended (raise (attribute_error "object has no such attribute"))

  -- `async_result`, as the task that awaiting its wrapper is
  unfoldable pub async_result_task : TaskReply W Dyn → Task W Dyn
  unfolding await_then resolve_result_task
  async_result_task (of_result t) = t
  async_result_task value = await_then (resolve_result_task value []) (λ r. give (result r))

  unfoldable pub async_option_task : TaskReply W Dyn → Task W Dyn
  unfolding await_then resolve_option_task
  async_option_task (of_option t) = t
  async_option_task value = await_then (resolve_option_task value) (λ o. give (option o))

  unfoldable pub async_either_task : TaskReply W Dyn → Task W Dyn
  unfolding await_then resolve_either_task
  async_either_task (of_either t) = t
  async_either_task value = await_then (resolve_either_task value) (λ e. give (either e))
