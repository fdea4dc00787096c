-- ===== src/Monads/Do.antt =====
-- The `do` decorator of python/src/aikernel_net/monads.py.
pub mod FailClosed
pub mod ResultBlocks
pub mod OptionBlocks
pub mod EitherBlocks
pub mod PlainBlocks
pub mod Query
pub mod Classes
pub mod Endless
use mathlib.Core.Option as Maybe
use mathlib.Core.Option.{some as just, none as absent}
use aikernel_core.Base.{Bool, true, false, not, [], if◌then◌else◌}
use aikernel_core.Python.Object.{Object, Exn, exn, type_error, attribute_error, is_exception}
use aikernel_core.Python.Effect.{Outcome, return, raise, Py, pure}
use aikernel_core.Python.Dict.{update}
use aikernel_core.Monads.Types.{
  Metadata, Result, Dyn, result, option, either, other, success, failure, some, right,
}
use aikernel_core.Monads.Result
use aikernel_core.Monads.Option
use aikernel_core.Monads.Either
use aikernel_core.Monads.Generator.{Generator, stop, throws, yields, Called, plain, generator}

-- The argument of `do` and `async_do`: one of the three classes, or anything else.
pub data MonadType : Type 0 where
  result_type option_type either_type other_type : MonadType

pub record DoState : Type 0 where
  pub kind : MonadType

-- `do` checks its argument when it decorates.
unfoldable pub decorate : MonadType → Outcome DoState
decorate other_type = raise (type_error "do currently supports Result, Option, and Either.")
decorate kind = return (record { kind = kind })

abbrev pure_of : MonadType → Object → Metadata → Dyn
pure_of result_type value metadata = result (success value metadata)
pure_of either_type value metadata = either (right value)
pure_of _ value metadata = option (some value)

-- `_pure`
unfoldable pub pure_monad : DoState → Object → Metadata → Dyn
pure_monad state = pure_of state.kind

short_circuit_of : MonadType → Dyn → Metadata → Outcome (Maybe.Option Dyn)
unfolding Result.is_err Result.with_metadata Either.is_left Option.is_none
short_circuit_of result_type (result r) metadata = return (
    if Result.is_err r
    then just (result (Result.with_metadata r (update metadata r.metadata)))
    else absent)
short_circuit_of result_type _ metadata =
    return
      (just (result (failure (exn (type_error "Result do blocks must yield Result.")) metadata)))
short_circuit_of either_type (either e) metadata =
    return (if Either.is_left e then just (either e) else absent)
short_circuit_of either_type _ metadata = raise (type_error "Either do blocks must yield Either.")
short_circuit_of _ (option o) metadata =
    return (if Option.is_none o then just (option o) else absent)
short_circuit_of _ _ metadata = raise (type_error "Option do blocks must yield Option.")

-- `_short_circuit`: the monad that ends the block, if the block ends here.
unfoldable pub short_circuit : DoState → Dyn → Metadata → Outcome (Maybe.Option Dyn)
unfolding short_circuit_of
short_circuit state = short_circuit_of state.kind

-- `monad.unwrap()`
unfoldable pub unwrap : Dyn → Outcome Object
unfolding Result.unwrap Option.unwrap Either.unwrap
unwrap (result r) = Result.unwrap r
unwrap (option o) = Option.unwrap o
unwrap (either e) = Either.unwrap e
unwrap (other _) = raise (attribute_error "object has no such attribute")

-- `if state.kind is Result: metadata.update(monad.metadata)`
abbrev pub learn : MonadType → Dyn → Metadata → Metadata
learn result_type (result r) metadata = update metadata r.metadata
learn _ _ metadata = metadata

module _ {ℓ} {W : Type ℓ} where
  -- How the loop goes on with a yielded monad: it ends with an exception or a monad, or sends the
  -- unwrapped value. The local variable `metadata` is part of the state.
  abbrev pub send_value :
      Outcome Object
      → Metadata
      → W
      → (Object → Py (Metadata × W) Dyn)
      → Outcome Dyn × (Metadata × W)
  send_value (return current) metadata w next = next current (metadata, w)
  send_value (raise e) metadata w next = (raise e, (metadata, w))

  abbrev pub advance :
      DoState
      → Outcome (Maybe.Option Dyn)
      → Dyn
      → Metadata
      → W
      → (Object → Py (Metadata × W) Dyn)
      → Outcome Dyn × (Metadata × W)
  unfolding unwrap
  advance state (raise e) monad metadata w next = (raise e, (metadata, w))
  advance state (return (just short)) monad metadata w next = (return short, (metadata, w))
  advance state (return absent) monad metadata w next =
      send_value (unwrap monad) (learn state.kind monad metadata) w next

  -- The loop of `wrapper`, from what the generator did on the last `send`.
  unfoldable pub loop : DoState → Generator W Dyn → Metadata → Outcome Dyn × (Metadata × W)
  unfolding pure_monad short_circuit advance
  loop state (stop value w) metadata = (return (pure_monad state value metadata), (metadata, w))
  loop state (throws e w) metadata = (raise e, (metadata, w))
  loop state (yields monad w resume) metadata =
      advance state (short_circuit state monad metadata) monad metadata w
        (λ current s. loop state (resume current s.1) s.0)

  -- The body of the `try` statement of `wrapper`.
  pub body : DoState → Outcome (Called W Dyn) → Metadata × W → Outcome Dyn × (Metadata × W)
  unfolding loop pure_monad
  body state (raise e) s = (raise e, s)
  body state (return (plain value)) s = (return (pure_monad state value s.0), s)
  body state (return (generator start)) s = loop state (start s.1) s.0

  -- Its handler, `except Exception`.
  abbrev handle : MonadType → Exn → Metadata → Py W Dyn
  handle result_type ex metadata = pure (result (failure (exn ex) metadata))
  handle _ ex metadata = λ w. (raise ex, w)

  abbrev pub finish : DoState → Outcome Dyn × (Metadata × W) → Outcome Dyn × W
  finish state (return monad, (metadata, w)) = (return monad, w)
  finish state (raise e, (metadata, w)) =
      if is_exception e then handle state.kind e metadata w else (raise e, w)

  -- `wrapper`: a call of the decorated function.
  unfoldable pub run_do : DoState → Py W (Called W Dyn) → Py W Dyn
  unfolding body
  run_do state func w = let (called, w') = func w in finish state (body state called ([], w'))
