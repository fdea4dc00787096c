-- ===== src/Monads/Dyn.antt =====
-- Method calls on an object whose class is known at run time only. An object of another class is
-- taken to have no such method.
use aikernel_core.Python.Object.{Object, attribute_error}
use aikernel_core.Python.Effect.{Py, pure, throw, ◌>>=◌}
use aikernel_core.Monads.Types.{Dyn, result, option, either, other}
use aikernel_core.Monads.Result
use aikernel_core.Monads.Option
use aikernel_core.Monads.Either

module _ {ℓ} {W : Type ℓ} where
  -- `monad.map(func)`
  unfoldable pub map : Dyn → (Object → Py W Object) → Py W Dyn
  unfolding Result.map Option.map Either.map
  map (result r) func = Result.map r func >>= λ s. pure (result s)
  map (option o) func = Option.map o func >>= λ p. pure (option p)
  map (either e) func = Either.map e func >>= λ d. pure (either d)
  map (other _) func = throw (attribute_error "object has no such attribute")
