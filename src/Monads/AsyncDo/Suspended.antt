-- ===== src/Monads/AsyncDo/Suspended.antt =====
-- The blocks of `async_do` with their suspensions, as blocks on what awaiting does.
pub mod ResultBlocks
pub mod OptionBlocks
pub mod EitherBlocks
pub mod Interleaved
use aikernel_core.Base.{ℕ}
use aikernel_core.Python.Effect.{Py, pure, ◌>>=◌}
use aikernel_core.Python.Tasks.{Wake, beside}
use aikernel_core.Monads.Types.{Dyn}
use aikernel_core.Monads.Generator.{Generator, stop, throws, yields, Called, plain, generator}
use aikernel_core.Monads.Async.{Reply}
use aikernel_core.Monads.Coroutines.{TaskReply}
use aikernel_core.Monads.Coroutines.Replies.{as_reply}

module _ {ℓ} {W : Type ℓ} (others : ℕ → W → Wake × W) where
  -- The generator beside the clock of the event loop.
  unfoldable pub suspended : Generator W (TaskReply W Dyn) → ℕ → Generator (ℕ × W) (Reply (ℕ × W))
  suspended (stop value w) n = stop value (n, w)
  suspended (throws e w) n = throws e (n, w)
  suspended (yields reply w resume) n =
      yields (as_reply others reply) (n, w) (λ v s. suspended (resume v s.1) s.0)

  unfoldable pub suspended_call : Called W (TaskReply W Dyn) → Called (ℕ × W) (Reply (ℕ × W))
  unfolding suspended
  suspended_call (plain value) = plain value
  suspended_call (generator start) = generator (λ s. suspended (start s.1) s.0)

  unfoldable pub suspended_block :
      Py W (Called W (TaskReply W Dyn)) → Py (ℕ × W) (Called (ℕ × W) (Reply (ℕ × W)))
  unfolding suspended_call
  suspended_block func = beside func >>= λ c. pure (suspended_call c)
