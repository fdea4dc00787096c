-- ===== src/Monads/Do/Endless/Bounds.antt =====
-- How many times a block of `do` in python/src/aikernel_net/monads.py sends to its generator.
use mathlib.Core.Option as Maybe
use mathlib.Core.Option.{some, none}
use aikernel_core.Base.{ℕ, zero, suc, ◌<◌, ◌≡◌, refl, [], arith}
use aikernel_core.Python.Object.{Object}
use aikernel_core.Python.Effect.{Outcome, return, raise, pure}
use aikernel_core.Monads.Types.{Metadata, Dyn}
use aikernel_core.Monads.Generator as Trees
use aikernel_core.Monads.Generator.{Generator, generator}
use aikernel_core.Monads.Do.{
  DoState, short_circuit, unwrap, learn, loop, advance, send_value, run_do,
}
use aikernel_core.Monads.Do.Endless.{
  Sent, by_round, with_value, with_short, round, rounds, run_block,
}
use aikernel_core.Monads.Do.Endless.Rounds.{Unfolds, stopped, thrown, yielded, config}

-- On no path does the generator yield more than `n` times.
abbrev pub IsWithin {ℓ κ} : {W : Type ℓ} {Y : Type κ} → ℕ → Generator W Y → Type ℓ
IsWithin n (Trees.stop v w) = Unit
IsWithin n (Trees.throws e w) = Unit
IsWithin {W = W} zero (Trees.yields y w k) = W → ⊥
IsWithin {W = W} (suc n) (Trees.yields y w k) = (v : Object) (u : W) → IsWithin n (k v u)

module _ {ℓ κ} {S : Type ℓ} {W : Type κ} (send : S → Object → W → Sent S Dyn × W)
    (state : DoState) where
  module _ (fuel : ℕ) (t : S) (u : W) (next : Object → Metadata × W → Outcome Dyn × (Metadata × W))
      (go_on : (v : Object) (m : Metadata)
        → rounds send fuel state (config send state t v m u) ≡ some (next v (m, u))) where
    value-within :
        (o : Outcome Object) (metadata : Metadata)
        → by_round (rounds send fuel state) (with_value o t metadata u)
          ≡ some (send_value o metadata u next)
    value-within (return v) metadata = go_on v metadata
    value-within (raise e) metadata = refl

    short-within :
        (o : Outcome (Maybe.Option Dyn)) (monad : Dyn) (metadata : Metadata)
        → by_round (rounds send fuel state) (with_short state o monad t metadata u)
          ≡ some (advance state o monad metadata u next)
    unfolding unwrap with_short
    short-within (raise e) monad metadata = refl
    short-within (return (some short)) monad metadata = refl
    short-within (return none) monad metadata =
        value-within (unwrap monad) (learn state.kind monad metadata)

  rounds-within :
      (n fuel : ℕ) {s : S} {v : Object} {w : W} {g : Generator W Dyn} (metadata : Metadata)
      → Unfolds send state s v w g
      → IsWithin n g
      → n < fuel
      → rounds send fuel state (config send state s v metadata w) ≡ some (loop state g metadata)
  unfolding rounds round loop
  rounds-within n zero metadata unfolds h lt = elim lt [ ]
  rounds-within n (suc fuel) metadata (stopped x u e) h lt = rw e refl
  rounds-within n (suc fuel) metadata (thrown x u e) h lt = rw e refl
  rounds-within zero (suc fuel) metadata (yielded monad t u k e next) h lt = absurd (h u)
  rounds-within (suc n) (suc fuel) metadata (yielded monad t u k e next) h lt = rw e (
      short-within fuel t u (λ v p. loop state (k v p.1) p.0)
        (λ v m. rounds-within n fuel m (next v u) (h v u) (omega arith))
        (short_circuit state monad metadata) monad metadata)

  -- A block over a generator that ends on every path after at most `n` yields ends after at most
  -- `n + 1` sends, with what the decorated function gives over the tree of the generator.
  pub run_block-within :
      (n fuel : ℕ) (s : S) (w : W) (g : W → Generator W Dyn)
      → Unfolds send state s Object.none w (g w)
      → IsWithin n (g w)
      → n < fuel
      → run_block send fuel state s w ≡ some (run_do state (pure (generator g)) w)
  unfolding run_block run_do
  run_block-within n fuel s w g unfolds h lt = rw (rounds-within n fuel [] unfolds h lt) refl
