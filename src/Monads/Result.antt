-- ===== src/Monads/Result.antt =====
-- The class `Result` of python/src/aikernel_net/monads.py: a value or an error, with metadata. Each
-- PascalCase method of the source calls the method before it, and is that definition here too.
pub mod SelectMany
pub mod Normal
pub mod FailClosed
pub mod Laws
pub mod Assoc
pub mod Trace
pub mod Errors
use aikernel_core.Base.{Bool, not, [], if◌then◌else◌}
use aikernel_core.Python.Object.{
  Object, exn, Exn, type_error, value_error, runtime_error, truthy, str,
}
use aikernel_core.Python.Effect.{Outcome, return, raise, Py, pure, ◌>>=◌, try_else}
use aikernel_core.Python.Dict.{update}
use aikernel_core.Monads.Types.{Metadata, Result, Dyn, result, success, failure}

unfoldable pub is_err : Result → Bool
is_err self = not self.is_ok

unfoldable pub with_metadata : Result → Metadata → Result
with_metadata self metadata =
    if self.is_ok then success self.value metadata else failure self.error metadata

-- The end of `bind`, on what the callback returned.
abbrev pub accept : Result → Dyn → Result
unfolding with_metadata
accept self (result next) = with_metadata next (update self.metadata next.metadata)
accept self _ = failure (exn (type_error "Result.bind callback must return Result.")) self.metadata

unfoldable pub unwrap_error : Object → Outcome Object
unfolding str
unwrap_error (exn e) = raise e
unwrap_error error = raise (runtime_error (str error))

-- `unwrap` raises the error itself if it is an exception.
unfoldable pub unwrap : Result → Outcome Object
unwrap self = if self.is_ok then return self.value else unwrap_error self.error

module _ {ℓ} {W : Type ℓ} where
  unfoldable pub bind : Result → (Object → Py W Dyn) → Py W Result
  unfolding is_err accept
  bind self func w =
      if is_err self
      then pure (failure self.error self.metadata) w
      else try_else (func self.value) (λ ex. pure (failure (exn ex) self.metadata))
          (λ next. pure (accept self next)) w

  -- `lambda value: Success(func(value))`
  abbrev pub then_success : (Object → Py W Object) → Object → Py W Dyn
  then_success func value = func value >>= λ v. pure (result (success v []))

  unfoldable pub map : Result → (Object → Py W Object) → Py W Result
  unfolding bind
  map self func = bind self (then_success func)

  unfoldable pub tap : Result → (Object → Py W Object) → Py W Result
  unfolding is_err
  tap self action w =
      if is_err self
      then pure (failure self.error self.metadata) w
      else try_else (action self.value) (λ ex. pure (failure (exn ex) self.metadata))
          (λ _. pure self) w

  -- The end of `where`, on what the predicate returned.
  abbrev pub filtered : Result → Object → Py W Result
  unfolding truthy
  filtered self passed w =
      if truthy passed
      then pure self w
      else pure (failure (exn (value_error "Predicate failed")) self.metadata) w

  -- `where`. The call of the predicate and `bool()` of its reply stand in one `try` with nothing between
  -- them, so `predicate` has the effects of both, and raises where either does.
  unfoldable pub filter_where : Result → (Object → Py W Object) → Py W Result
  unfolding is_err filtered
  filter_where self predicate w =
      if is_err self
      then pure (failure self.error self.metadata) w
      else try_else (predicate self.value) (λ ex. pure (failure (exn ex) self.metadata))
          (filtered self) w

  unfoldable pub match_result {κ} :
      {A : Type κ} → Result → (Object → Py W A) → (Object → Py W A) → Py W A
  match_result self on_success on_failure w =
      if self.is_ok then on_success self.value w else on_failure self.error w
