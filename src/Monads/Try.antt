-- ===== src/Monads/Try.antt =====
-- `Try` of python/src/aikernel_net/monads.py: `Try(thunk, metadata)` is `Try.run(thunk, metadata)`.
pub mod Unwrapped
use aikernel_core.Python.Object.{Object, exn}
use aikernel_core.Python.Effect.{Py, pure, try_else}
use aikernel_core.Monads.Types.{Metadata, Result, success, failure}

module _ {ℓ} {W : Type ℓ} where
  unfoldable pub run : Py W Object → Metadata → Py W Result
  run thunk metadata =
      try_else thunk (λ ex. pure (failure (exn ex) metadata)) (λ v. pure (success v metadata))
