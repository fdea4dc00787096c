-- ===== src/Monads/Generator.antt =====
-- Generators, as `send` shows them. A value is what the generator does from a `send` up to its next
-- `yield` or its end, with the world that it leaves: it returns, it raises, or it yields a `Y` and
-- goes on with what is sent, in the world of that time. Every path through a generator is finite.
use aikernel_core.Python.Object.{Object, Exn}

pub data Generator {ℓ κ} (W : Type ℓ) (Y : Type κ) : Type (ℓ ⊔ κ) where
  stop : Object → W → Generator W Y
  throws : Exn → W → Generator W Y
  yields : Y → W → (Object → W → Generator W Y) → Generator W Y

-- What a decorated function returns: a generator, which does nothing before the first `send`, or
-- any other object.
pub data Called {ℓ κ} (W : Type ℓ) (Y : Type κ) : Type (ℓ ⊔ κ) where
  plain : Object → Called W Y
  generator : (W → Generator W Y) → Called W Y

module _ {ℓ κ} {W : Type ℓ} {Y : Type κ} where
  -- Every monad that is yielded has `P`.
  abbrev pub All {μ} : (Y → Type μ) → Generator W Y → Type (ℓ ⊔ μ)
  All P (stop v w) = Unit
  All P (throws e w) = Unit
  All P (yields y w k) = P y × ((v : Object) (u : W) → All P (k v u))
