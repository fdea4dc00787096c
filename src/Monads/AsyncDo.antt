-- ===== src/Monads/AsyncDo.antt =====
-- The `async_do` decorator of python/src/aikernel_net/monads.py.
pub mod Awaited
pub mod ResultLaws
pub mod OptionLaws
pub mod EitherLaws
pub mod Endless
pub mod Classes
pub mod Suspended
use aikernel_core.Base.{[], if◌then◌else◌}
use aikernel_core.Python.Object.{Object, Exn, exn, type_error, is_exception}
use aikernel_core.Python.Effect.{Outcome, return, raise, Py, pure, lift, ◌>>=◌}
use aikernel_core.Python.Dict.{update}
use aikernel_core.Monads.Types.{
  Metadata, Result, Option, Either, Dyn, result, option, either, failure,
}
use aikernel_core.Monads.Result
use aikernel_core.Monads.Option
use aikernel_core.Monads.Either
use aikernel_core.Monads.Generator.{Generator, stop, throws, yields, Called, plain, generator}
use aikernel_core.Monads.Do.{
  MonadType, result_type, option_type, either_type, other_type, DoState, pure_monad, send_value,
}
use aikernel_core.Monads.Async.{
  AsyncResult, AsyncOption, AsyncEither, Reply, of_result, of_option, of_either, resolve_result,
  resolve_option, resolve_either,
}

-- `async_do` checks its argument when it decorates.
unfoldable pub decorate : MonadType → Outcome DoState
decorate other_type = raise (type_error "async_do currently supports Result, Option, and Either.")
decorate kind = return (record { kind = kind })

module _ {ℓ} {W : Type ℓ} where
  -- How the loop of `_run_async_result_do` goes on with a resolved result. The local variable
  -- `metadata` is part of the state.
  abbrev advance_result :
      Outcome Result
      → Metadata
      → W
      → (Object → Py (Metadata × W) Dyn)
      → Outcome Dyn × (Metadata × W)
  unfolding Result.is_err Result.unwrap
  advance_result (raise e) metadata w next = (raise e, (metadata, w))
  advance_result (return r) metadata w next =
      if Result.is_err r
      then (return (result r), (metadata, w))
      else send_value (Result.unwrap r) (update metadata r.metadata) w next

  loop_result : DoState → Generator W (Reply W) → Metadata → Outcome Dyn × (Metadata × W)
  unfolding pure_monad advance_result resolve_result
  loop_result state (stop value w) metadata =
      (return (pure_monad state value metadata), (metadata, w))
  loop_result state (throws e w) metadata = (raise e, (metadata, w))
  loop_result state (yields reply w resume) metadata =
      let (o, w') = resolve_result reply metadata w in
      advance_result o metadata w' (λ current s. loop_result state (resume current s.1) s.0)

  -- The body of its `try` statement.
  body_result : DoState → Outcome (Called W (Reply W)) → Metadata × W → Outcome Dyn × (Metadata × W)
  unfolding loop_result pure_monad
  body_result state (raise e) s = (raise e, s)
  body_result state (return (plain value)) s = (return (pure_monad state value s.0), s)
  body_result state (return (generator start)) s = loop_result state (start s.1) s.0

  -- Its handler, `except Exception`.
  abbrev pub finish_result : Outcome Dyn × (Metadata × W) → Outcome Dyn × W
  finish_result (return monad, (metadata, w)) = (return monad, w)
  finish_result (raise e, (metadata, w)) =
      if is_exception e then (return (result (failure (exn e) metadata)), w) else (raise e, w)

  -- `_run_async_result_do`
  unfoldable pub run_async_result_do : DoState → Py W (Called W (Reply W)) → Py W Dyn
  unfolding body_result
  run_async_result_do state func w =
      let (called, w') = func w in finish_result (body_result state called ([], w'))

  abbrev advance_option : (Object → Py W Dyn) → Option → Py W Dyn
  unfolding Option.is_none Option.unwrap
  advance_option next o w =
      if Option.is_none o then pure (option o) w else (lift (Option.unwrap o) >>= next) w

  loop_option : DoState → Generator W (Reply W) → Outcome Dyn × W
  unfolding pure_monad advance_option resolve_option
  loop_option state (stop value w) = (return (pure_monad state value []), w)
  loop_option state (throws e w) = (raise e, w)
  loop_option state (yields reply w resume) =
      (resolve_option reply >>= advance_option (λ current u. loop_option state (resume current u)))
        w

  start_option : DoState → Called W (Reply W) → Py W Dyn
  unfolding loop_option pure_monad
  start_option state (plain value) w = pure (pure_monad state value []) w
  start_option state (generator start) w = loop_option state (start w)

  -- `_run_async_option_do`
  unfoldable pub run_async_option_do : DoState → Py W (Called W (Reply W)) → Py W Dyn
  unfolding start_option
  run_async_option_do state func = func >>= start_option state

  abbrev advance_either : (Object → Py W Dyn) → Either → Py W Dyn
  unfolding Either.is_left Either.unwrap
  advance_either next e w =
      if Either.is_left e then pure (either e) w else (lift (Either.unwrap e) >>= next) w

  loop_either : DoState → Generator W (Reply W) → Outcome Dyn × W
  unfolding pure_monad advance_either resolve_either
  loop_either state (stop value w) = (return (pure_monad state value []), w)
  loop_either state (throws e w) = (raise e, w)
  loop_either state (yields reply w resume) =
      (resolve_either reply >>= advance_either (λ current u. loop_either state (resume current u)))
        w

  start_either : DoState → Called W (Reply W) → Py W Dyn
  unfolding loop_either pure_monad
  start_either state (plain value) w = pure (pure_monad state value []) w
  start_either state (generator start) w = loop_either state (start w)

  -- `_run_async_either_do`
  unfoldable pub run_async_either_do : DoState → Py W (Called W (Reply W)) → Py W Dyn
  unfolding start_either
  run_async_either_do state func = func >>= start_either state

  -- `wrapper`, by `state.kind`
  abbrev async_wrapper : MonadType → DoState → Py W (Called W (Reply W)) → Reply W
  unfolding run_async_result_do run_async_option_do run_async_either_do
  async_wrapper result_type state func =
      of_result (record { awaitable = run_async_result_do state func })
  async_wrapper either_type state func =
      of_either (record { awaitable = run_async_either_do state func })
  async_wrapper _ state func = of_option (record { awaitable = run_async_option_do state func })

  -- A call of the decorated function: it starts nothing before it is awaited.
  unfoldable pub async_do : DoState → Py W (Called W (Reply W)) → Reply W
  unfolding async_wrapper
  async_do state = async_wrapper state.kind state
