-- ===== src/Monads/Do/Endless/Exact.antt =====
-- When a block of `do` over a generator that may yield for ever ends, and how.
use mathlib.Core.Option as Maybe
use mathlib.Core.Option.{some, none}
use aikernel_core.Base.{ℕ, ◌<◌, ◌≡◌, ◌↔◌, refl, ◌∙◌, subst, Bool-cases, inl, inr}
use aikernel_core.Python.Object.{Object, Exn, is_exception}
use aikernel_core.Python.Effect.{Outcome, return, raise}
use aikernel_core.Monads.Types.{Metadata, Result, Dyn, result, option, either, other}
use aikernel_core.Monads.Result
use aikernel_core.Monads.Option
use aikernel_core.Monads.Either
use aikernel_core.Monads.Do.{
  MonadType, result_type, option_type, either_type, other_type, DoState, pure_monad, short_circuit,
  finish,
}
use aikernel_core.Monads.Do.ResultBlocks.{after}
use aikernel_core.Monads.Do.Classes.{of_kind, IsMonad}
use aikernel_core.Monads.Do.Endless.{Sent, Config, over, round, rounds, initial, run_block}
use aikernel_core.Monads.Do.Endless.Rounds.{Reach, rounds-Reach, rounds-Ended}
use aikernel_core.Monads.Do.Endless.Ending.{stray, Fails, yields_error, yields_other, raises}
use aikernel_core.Monads.Do.Endless.Stops.{
  Stops, returned, passing, failed, yields_nothing, no_option, yields_left, no_either, Passes,
  no_option_error, no_either_error, AtEnd, round-AtEnd,
}

module _ {ℓ κ} {S : Type ℓ} {W : Type κ} (send : S → Object → W → Sent S Dyn × W) where
  run_block-over :
      (state : DoState) {n : ℕ} {d : Config S W} (s : S) (w : W) (fuel : ℕ)
      (o : Outcome Dyn × (Metadata × W))
      → Reach send state n (initial s w) d
      → round send state d ≡ over o
      → n < fuel
      → run_block send fuel state s w ≡ some (finish state o)
  unfolding run_block
  run_block-over state s w fuel o r last lt = rw (rounds-Reach send state fuel r last lt) refl

  module _ (d : Config S W) where
    -- The last round of a block that ends so.
    abbrev LastRound : MonadType → Outcome Dyn → W → Type (ℓ ⊔ κ)
    LastRound kind o u =
        (p : Outcome Dyn × (Metadata × W)) × (round send (of_kind kind) d ≡ over p)
        × (finish (of_kind kind) p ≡ (o, u))

    failed-LastRound :
        (r : Result) (u : W) → Fails send d r u → LastRound result_type (return (result r)) u
    unfolding round short_circuit Result.is_err
    failed-LastRound r u (yields_error q t v e c) =
        ((return (result (after d.metadata q)), (d.metadata, u)), rw (e, c) refl, refl)
    failed-LastRound r u (raises e v sent c) = ((raise e, (d.metadata, u)), rw sent refl, rw c refl)
    failed-LastRound r u (yields_other (option o) t v e ne) =
        ((return (result (stray d.metadata)), (d.metadata, u)), rw e refl, refl)
    failed-LastRound r u (yields_other (either o) t v e ne) =
        ((return (result (stray d.metadata)), (d.metadata, u)), rw e refl, refl)
    failed-LastRound r u (yields_other (other o) t v e ne) =
        ((return (result (stray d.metadata)), (d.metadata, u)), rw e refl, refl)
    failed-LastRound r u (yields_other (result q) t v e ne) = absurd (ne q refl)

    passing-finish :
        (kind : MonadType) (e : Exn) (u : W)
        → IsMonad kind
        → Passes kind e
        → finish (of_kind kind) (raise e, (d.metadata, u)) ≡ (raise e, u)
    passing-finish result_type e u m no_e = rw no_e refl
    passing-finish option_type e u m no_e = elim (Bool-cases (is_exception e)) [
      | inl c ↦ rw c refl
      | inr c ↦ rw c refl
    ]
    passing-finish either_type e u m no_e = elim (Bool-cases (is_exception e)) [
      | inl c ↦ rw c refl
      | inr c ↦ rw c refl
    ]
    passing-finish other_type e u m no_e = absurd m

    stops-LastRound :
        (kind : MonadType) (o : Outcome Dyn) (u : W)
        → IsMonad kind
        → Stops send d kind o u
        → LastRound kind o u
    unfolding round short_circuit Option.is_none Either.is_left is_exception
    stops-LastRound kind o u m (returned k v x sent) =
        ((return (pure_monad (of_kind k) v d.metadata), (d.metadata, u)), rw sent refl, refl)
    stops-LastRound kind o u m (passing k e x sent h) =
        ((raise e, (d.metadata, u)), rw sent refl, passing-finish k e u m h)
    stops-LastRound kind o u m (failed r x fails) = failed-LastRound r u fails
    stops-LastRound kind o u m (yields_nothing q t x sent c) =
        ((return (option q), (d.metadata, u)), rw (sent, c) refl, refl)
    stops-LastRound kind o u m (yields_left q t x sent c) =
        ((return (either q), (d.metadata, u)), rw (sent, c) refl, refl)
    stops-LastRound kind o u m (no_option (option q) t x sent ne) = absurd (ne q refl)
    stops-LastRound kind o u m (no_option (result q) t x sent ne) =
        ((raise no_option_error, (d.metadata, u)), rw sent refl, refl)
    stops-LastRound kind o u m (no_option (either q) t x sent ne) =
        ((raise no_option_error, (d.metadata, u)), rw sent refl, refl)
    stops-LastRound kind o u m (no_option (other q) t x sent ne) =
        ((raise no_option_error, (d.metadata, u)), rw sent refl, refl)
    stops-LastRound kind o u m (no_either (either q) t x sent ne) = absurd (ne q refl)
    stops-LastRound kind o u m (no_either (result q) t x sent ne) =
        ((raise no_either_error, (d.metadata, u)), rw sent refl, refl)
    stops-LastRound kind o u m (no_either (option q) t x sent ne) =
        ((raise no_either_error, (d.metadata, u)), rw sent refl, refl)
    stops-LastRound kind o u m (no_either (other q) t x sent ne) =
        ((raise no_either_error, (d.metadata, u)), rw sent refl, refl)

  finished :
      (fuel : ℕ) (state : DoState) (s : S) (w : W) (o : Outcome Dyn × W)
      → run_block send fuel state s w ≡ some o
      → (p : Outcome Dyn × (Metadata × W)) × (rounds send fuel state (initial s w) ≡ some p)
        × (finish state p ≡ o)
  unfolding run_block
  finished fuel state s w o e = go (rounds send fuel state (initial s w)) refl e
    where
      go :
          (x : Maybe.Option (Outcome Dyn × (Metadata × W)))
          → rounds send fuel state (initial s w) ≡ x
          → Maybe.map (finish state) x ≡ some o
          → (p : Outcome Dyn × (Metadata × W)) × (rounds send fuel state (initial s w) ≡ some p)
            × (finish state p ≡ o)
      go none f e = cc
      go (some p) f e = (p, f, cc)

  -- A block of `do` of any of the three classes ends with an outcome and a world, within some fuel, just
  -- where its generator, after fewer rounds than that which all went well, does what ends the block so:
  -- it returns; it raises; or it yields an error, Nothing or a Left, or an object of another class.
  pub run_block-Stops :
      (kind : MonadType) (fuel : ℕ) (s : S) (w : W) (o : Outcome Dyn) (u : W)
      → IsMonad kind
      → (run_block send fuel (of_kind kind) s w ≡ some (o, u)) ↔ (
          (n : ℕ) × (d : Config S W) × Reach send (of_kind kind) n (initial s w) d
          × Stops send d kind o u
          × (n < fuel))
  run_block-Stops kind fuel s w o u m = (ends, starts)
    where
      ends :
          run_block send fuel (of_kind kind) s w ≡ some (o, u)
          → (n : ℕ) × (d : Config S W) × Reach send (of_kind kind) n (initial s w) d
            × Stops send d kind o u
            × (n < fuel)
      ends e =
          let (p, loop_p, same) = finished fuel (of_kind kind) s w (o, u) e in
          let (n, d, r, last, lt) = rounds-Ended send (of_kind kind) fuel (initial s w) p loop_p in
          (
            n,
            d,
            r,
            subst (λ (x : Outcome Dyn × W). Stops send d kind x.0 x.1) same
                (subst (AtEnd send d kind) last (round-AtEnd send d kind m)),
            lt,
          )

      starts :
          ((n : ℕ) × (d : Config S W) × Reach send (of_kind kind) n (initial s w) d
            × Stops send d kind o u
            × (n < fuel))
          → run_block send fuel (of_kind kind) s w ≡ some (o, u)
      starts (n, d, r, h, lt) =
          let (p, last, same) = stops-LastRound d kind o u m h in
          run_block-over (of_kind kind) s w fuel p r last lt ∙ rw same refl
