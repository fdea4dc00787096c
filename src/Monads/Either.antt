-- ===== src/Monads/Either.antt =====
-- The class `Either` of python/src/aikernel_net/monads.py. Nothing is caught here: what a callback
-- raises passes through.
pub mod SelectMany
pub mod Laws
use Prim.Native.String.{◌++◌}
use aikernel_core.Base.{Bool, not, if◌then◌else◌}
use aikernel_core.Python.Object.{Object, type_error, value_error, truthy, str}
use aikernel_core.Python.Effect.{Outcome, return, raise, Py, pure, throw, ◌>>=◌, ◌>>◌}
use aikernel_core.Monads.Types.{Either, Dyn, either, right, left}

unfoldable pub is_left : Either → Bool
is_left self = not self.is_right

unfoldable pub unwrap : Either → Outcome Object
unfolding str
unwrap self =
    if self.is_right
    then return self.right
    else raise (value_error ("Cannot unwrap Left either: " ++ str self.left))

module _ {ℓ} {W : Type ℓ} where
  -- The end of `bind`, on what the callback returned.
  abbrev pub accept : Dyn → Py W Either
  accept (either next) = pure next
  accept _ = throw (type_error "Either.bind callback must return Either.")

  unfoldable pub bind : Either → (Object → Py W Dyn) → Py W Either
  unfolding is_left
  bind self func w =
      if is_left self then pure (left self.left) w else (func self.right >>= accept) w

  -- `lambda value: Right(func(value))`
  abbrev pub then_right : (Object → Py W Object) → Object → Py W Dyn
  then_right func value = func value >>= λ v. pure (either (right v))

  unfoldable pub map : Either → (Object → Py W Object) → Py W Either
  unfolding bind
  map self func = bind self (then_right func)

  unfoldable pub tap : Either → (Object → Py W Object) → Py W Either
  tap self action w = if self.is_right then (action self.right >> pure self) w else pure self w

  -- The end of `where`, on what the predicate returned.
  abbrev pub filtered : Either → Py W Object → Object → Py W Either
  unfolding truthy
  filtered self left_factory passed w =
      if truthy passed then pure self w else (left_factory >>= λ l. pure (left l)) w

  -- `where`
  unfoldable pub filter_where : Either → (Object → Py W Object) → Py W Object → Py W Either
  unfolding is_left filtered
  filter_where self predicate left_factory w =
      if is_left self then pure self w else (predicate self.right >>= filtered self left_factory) w

  unfoldable pub match_either {κ} :
      {A : Type κ} → Either → (Object → Py W A) → (Object → Py W A) → Py W A
  match_either self on_left on_right w =
      if self.is_right then on_right self.right w else on_left self.left w
