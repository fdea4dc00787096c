-- ===== src/Monads/Do/Endless.antt =====
-- The loop of `do` in python/src/aikernel_net/monads.py over a generator that may yield for ever: a
-- generator is a state, and what `send` does in it. The loop takes fuel, one unit for each `send`;
-- `none` means that the fuel has run out.
pub mod Rounds
pub mod Ending
pub mod Bounds
pub mod Stops
pub mod Exact
use mathlib.Core.Option as Maybe
use mathlib.Core.Option.{some, none}
use aikernel_core.Base.{ℕ, zero, suc, [], if◌then◌else◌}
use aikernel_core.Python.Object.{Object, Exn}
use aikernel_core.Python.Effect.{Outcome, return, raise}
use aikernel_core.Monads.Types.{Metadata, Dyn}
use aikernel_core.Monads.Do.{DoState, pure_monad, short_circuit, unwrap, learn, finish}

-- What a generator does on a `send`: it returns, raises, or yields and is in a new state.
pub data Sent {ℓ κ} (S : Type ℓ) (Y : Type κ) : Type (ℓ ⊔ κ) where
  stops : Object → Sent S Y
  throws : Exn → Sent S Y
  yields : Y → S → Sent S Y

-- The variables of the loop, the state of the generator, and the world.
pub record Config {ℓ κ} (S : Type ℓ) (W : Type κ) : Type (ℓ ⊔ κ) where
  pub generator : S
  pub current : Object
  pub metadata : Metadata
  pub world : W

-- What a round comes to: the loop is over, or goes on.
pub data Round {ℓ κ} (S : Type ℓ) (W : Type κ) : Type (ℓ ⊔ κ) where
  over : Outcome Dyn × (Metadata × W) → Round S W
  on : Config S W → Round S W

module _ {ℓ κ} {S : Type ℓ} {W : Type κ} where
  -- A round after `_short_circuit` has let the monad pass.
  abbrev pub with_value : Outcome Object → S → Metadata → W → Round S W
  with_value (return current) s metadata w =
      on (record { generator = s; current = current; metadata = metadata; world = w })
  with_value (raise e) s metadata w = over (raise e, (metadata, w))

  unfoldable pub with_short :
      DoState → Outcome (Maybe.Option Dyn) → Dyn → S → Metadata → W → Round S W
  unfolding unwrap
  with_short state (raise e) monad s metadata w = over (raise e, (metadata, w))
  with_short state (return (some short)) monad s metadata w = over (return short, (metadata, w))
  with_short state (return none) monad s metadata w =
      with_value (unwrap monad) s (learn state.kind monad metadata) w

  unfoldable pub with_sent : DoState → Sent S Dyn × W → Metadata → Round S W
  unfolding pure_monad short_circuit with_short
  with_sent state (stops value, w) metadata =
      over (return (pure_monad state value metadata), (metadata, w))
  with_sent state (throws e, w) metadata = over (raise e, (metadata, w))
  with_sent state (yields monad s, w) metadata =
      with_short state (short_circuit state monad metadata) monad s metadata w

  abbrev pub by_round :
      (Config S W → Maybe.Option (Outcome Dyn × (Metadata × W)))
      → Round S W
      → Maybe.Option (Outcome Dyn × (Metadata × W))
  by_round next (over o) = some o
  by_round next (on c) = next c

  -- Where the loop begins: `current = None`, and no metadata.
  abbrev pub initial : S → W → Config S W
  initial s w = record { generator = s; current = Object.none; metadata = []; world = w }

  module _ (send : S → Object → W → Sent S Dyn × W) where
    -- One round of the loop.
    unfoldable pub round : DoState → Config S W → Round S W
    unfolding with_sent
    round state c = with_sent state (send c.generator c.current c.world) c.metadata

    -- The loop.
    unfoldable pub rounds : ℕ → DoState → Config S W → Maybe.Option (Outcome Dyn × (Metadata × W))
    unfolding round
    rounds zero state c = none
    rounds (suc fuel) state c = by_round (rounds fuel state) (round state c)

    -- `wrapper`, on a function that has returned a generator.
    unfoldable pub run_block : ℕ → DoState → S → W → Maybe.Option (Outcome Dyn × W)
    unfolding rounds
    run_block fuel state s w = Maybe.map (finish state) (rounds fuel state (initial s w))
