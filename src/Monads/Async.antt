-- ===== src/Monads/Async.antt =====
-- The wrappers of awaitables in python/src/aikernel_net/monads.py, and how a callback's reply is
-- resolved. An awaitable is what awaiting it does, what other tasks do meanwhile included; it is
-- awaited once, as a coroutine must be.
use aikernel_core.Base.{[]}
use aikernel_core.Python.Object.{Object, exn, type_error, attribute_error}
use aikernel_core.Python.Effect.{Py, pure, throw, ◌>>=◌, try_else}
use aikernel_core.Python.Dict.{update}
use aikernel_core.Monads.Types.{
  Metadata, Result, Option, Either, Dyn, result, option, either, failure,
}
use aikernel_core.Monads.Result.{with_metadata}

pub record AsyncResult {ℓ} (W : Type ℓ) : Type ℓ where
  pub awaitable : Py W Dyn

pub record AsyncOption {ℓ} (W : Type ℓ) : Type ℓ where
  pub awaitable : Py W Dyn

pub record AsyncEither {ℓ} (W : Type ℓ) : Type ℓ where
  pub awaitable : Py W Dyn

-- What an asynchronous callback returns: an object, a wrapper, or another awaitable.
pub data Reply {ℓ} (W : Type ℓ) : Type ℓ where
  now : Dyn → Reply W
  coroutine : Py W Dyn → Reply W
  of_result : AsyncResult W → Reply W
  of_option : AsyncOption W → Reply W
  of_either : AsyncEither W → Reply W

-- What an action or a predicate returns.
pub data Observed {ℓ} (W : Type ℓ) : Type ℓ where
  plain : Object → Observed W
  awaiting : Py W Object → Observed W

abbrev pub checked_result : Dyn → Metadata → Result
unfolding with_metadata
checked_result (result r) metadata = with_metadata r (update metadata r.metadata)
checked_result _ metadata =
    failure (exn (type_error "AsyncResult callback must return Result.")) metadata

module _ {ℓ} {W : Type ℓ} where
  -- `await value if inspect.isawaitable(value) else value`
  abbrev pub resolved : Reply W → Py W Dyn
  resolved (now d) = pure d
  resolved (coroutine m) = m
  resolved (of_result a) = a.awaitable
  resolved (of_option a) = a.awaitable
  resolved (of_either a) = a.awaitable

  -- The same for what an action or a predicate returns.
  abbrev pub observe : Observed W → Py W Object
  observe (plain v) = pure v
  observe (awaiting m) = m

  -- `_resolve_result`
  unfoldable pub resolve_result : Reply W → Metadata → Py W Result
  unfolding checked_result
  resolve_result value metadata =
      try_else (resolved value) (λ ex. pure (failure (exn ex) metadata))
        (λ d. pure (checked_result d metadata))

  abbrev pub checked_option : Dyn → Py W Option
  checked_option (option o) = pure o
  checked_option _ = throw (type_error "AsyncOption callback must return Option.")

  -- `_resolve_option`
  unfoldable pub resolve_option : Reply W → Py W Option
  resolve_option value = resolved value >>= checked_option

  abbrev pub checked_either : Dyn → Py W Either
  checked_either (either e) = pure e
  checked_either _ = throw (type_error "AsyncEither callback must return Either.")

  -- `_resolve_either`
  unfoldable pub resolve_either : Reply W → Py W Either
  resolve_either value = resolved value >>= checked_either

  unfoldable pub async_result : Reply W → AsyncResult W
  unfolding resolve_result
  async_result (of_result a) = a
  async_result value = record { awaitable = resolve_result value [] >>= λ r. pure (result r) }

  unfoldable pub async_option : Reply W → AsyncOption W
  unfolding resolve_option
  async_option (of_option a) = a
  async_option value = record { awaitable = resolve_option value >>= λ o. pure (option o) }

  unfoldable pub async_either : Reply W → AsyncEither W
  unfolding resolve_either
  async_either (of_either a) = a
  async_either value = record { awaitable = resolve_either value >>= λ e. pure (either e) }

  -- `result.is_err`, and what follows it, on what was awaited: another object has no such property.
  abbrev pub as_result : Dyn → Py W Result
  as_result (result r) = pure r
  as_result _ = throw (attribute_error "object has no such attribute")

  abbrev pub as_option : Dyn → Py W Option
  as_option (option o) = pure o
  as_option _ = throw (attribute_error "object has no such attribute")

  abbrev pub as_either : Dyn → Py W Either
  as_either (either e) = pure e
  as_either _ = throw (attribute_error "object has no such attribute")
