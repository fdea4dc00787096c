-- ===== src/Monads/AsyncDo/Awaited.antt =====
-- A generator of awaitables as the generator of what they resolve to.
use aikernel_core.Python.Object.{Object}
use aikernel_core.Python.Effect.{Outcome, return, raise}
use aikernel_core.Monads.Types.{Dyn}
use aikernel_core.Monads.Generator.{Generator, stop, throws, yields}
use aikernel_core.Monads.Async.{Reply, resolved}

module _ {ℓ} {W : Type ℓ} where
  abbrev pub yield_awaited : Outcome Dyn → W → (Object → W → Generator W Dyn) → Generator W Dyn
  yield_awaited (return d) w resume = yields d w resume
  yield_awaited (raise e) w resume = throws e w

  -- Every reply is awaited where it is yielded; an exception of the awaiting is one of the block.
  unfoldable pub awaited : Generator W (Reply W) → Generator W Dyn
  awaited (stop value w) = stop value w
  awaited (throws e w) = throws e w
  awaited (yields reply w resume) =
      let (o, w') = resolved reply w in yield_awaited o w' (λ v u. awaited (resume v u))
