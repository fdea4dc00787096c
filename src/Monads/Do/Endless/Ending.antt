-- ===== src/Monads/Do/Endless/Ending.antt =====
-- How a block of `do` over a generator that may yield for ever ends.
use mathlib.Core.Option.{some}
use aikernel_core.Base.{ℕ, ◌<◌, ◌≤◌, ◌≡◌, refl, ◌∙◌, false, true, [], arith}
use aikernel_core.Python.Object.{Object, Exn, exn, type_error, is_exception}
use aikernel_core.Python.Effect.{Outcome, return, raise, pure}
use aikernel_core.Monads.Types.{Metadata, Result, Dyn, result, option, either, other, failure}
use aikernel_core.Monads.Result.{is_err}
use aikernel_core.Monads.Generator.{Generator, generator}
use aikernel_core.Monads.Do.{DoState, short_circuit, finish, loop, run_do}
use aikernel_core.Monads.Do.ResultBlocks.{of_result, after}
use aikernel_core.Monads.Do.Endless.{
  Sent, throws, yields, Config, over, round, rounds, initial, run_block,
}
use aikernel_core.Monads.Do.Endless.Rounds.{Reach, rounds-Reach, rounds-Ended, Unfolds, rounds-loop}

-- The result of a block that has yielded something else than a `Result`.
abbrev pub stray : Metadata → Result
stray = failure (exn (type_error "Result do blocks must yield Result."))

module _ {ℓ κ} {S : Type ℓ} {W : Type κ} (send : S → Object → W → Sent S Dyn × W) where
  rounds-le :
      (state : DoState) (few fuel : ℕ) (c : Config S W) (o : Outcome Dyn × (Metadata × W))
      → rounds send few state c ≡ some o
      → few ≤ fuel
      → rounds send fuel state c ≡ some o
  rounds-le state few fuel c o e le =
      let (n, d, r, last, lt) = rounds-Ended send state few c o e in
      rounds-Reach send state fuel r last (omega arith)

  -- A block over a generator that ends on every path ends: from some fuel on, it gives what the
  -- decorated function gives over the tree of the generator.
  pub run_block-run_do :
      (state : DoState) (s : S) (w : W) (g : W → Generator W Dyn)
      → ((u : W) → Unfolds send state s Object.none u (g u))
      → (enough : ℕ) × ((fuel : ℕ)
          → enough ≤ fuel
          → run_block send fuel state s w ≡ some (run_do state (pure (generator g)) w))
  unfolding run_block run_do
  run_block-run_do state s w g unfolds =
      let (enough, found) = rounds-loop send state [] (unfolds w) in
      (
        enough,
        λ fuel le.
            rw (rounds-le state enough fuel (initial s w) (loop state (g w) []) found le) refl,
      )

  -- What ends a `do(Result)` block early, with the result that it ends with and the world that is left:
  -- an error, another object than a `Result`, or an `Exception`.
  pub data Fails (d : Config S W) : Result → W → Type (ℓ ⊔ κ) where
    yields_error :
        (r : Result) (t : S) (u : W)
        → send d.generator d.current d.world ≡ (yields (result r) t, u)
        → r.is_ok ≡ false
        → Fails d (after d.metadata r) u
    yields_other :
        (monad : Dyn) (t : S) (u : W)
        → send d.generator d.current d.world ≡ (yields monad t, u)
        → ((r : Result) → monad ≡ result r → ⊥)
        → Fails d (stray d.metadata) u
    raises :
        (e : Exn) (u : W)
        → send d.generator d.current d.world ≡ (throws e, u)
        → is_exception e ≡ true
        → Fails d (failure (exn e) d.metadata) u

  run_block-over :
      {n : ℕ} {d : Config S W} (s : S) (w : W) (fuel : ℕ) (o : Outcome Dyn × (Metadata × W))
      → Reach send of_result n (initial s w) d
      → round send of_result d ≡ over o
      → n < fuel
      → run_block send fuel of_result s w ≡ some (finish of_result o)
  unfolding run_block
  run_block-over s w fuel o r last lt = rw (rounds-Reach send of_result fuel r last lt) refl

  -- A `do(Result)` block ends with the first failure of its generator, however the generator would
  -- go on: after `n` rounds that went well, `n + 1` units of fuel are enough, and the result is the
  -- failure, with the metadata of the rounds before it.
  run_block-Fails :
      {n : ℕ} {d : Config S W} {r : Result} {u : W} (s : S) (w : W) (fuel : ℕ)
      → Reach send of_result n (initial s w) d
      → Fails d r u
      → n < fuel
      → run_block send fuel of_result s w ≡ some (return (result r), u)
  unfolding round short_circuit is_err
  run_block-Fails {d = d} s w fuel r (yields_error q t u e failed) lt =
      run_block-over s w fuel (return (result (after d.metadata q)), (d.metadata, u)) r
        (rw (e, failed) refl) lt
  run_block-Fails {d = d} s w fuel r (raises e u sent caught) lt =
      run_block-over s w fuel (raise e, (d.metadata, u)) r (rw sent refl) lt ∙ rw caught refl
  run_block-Fails {d = d} s w fuel r (yields_other (option o) t u e ne) lt =
      run_block-over s w fuel (return (result (stray d.metadata)), (d.metadata, u)) r (rw e refl) lt
  run_block-Fails {d = d} s w fuel r (yields_other (either o) t u e ne) lt =
      run_block-over s w fuel (return (result (stray d.metadata)), (d.metadata, u)) r (rw e refl) lt
  run_block-Fails {d = d} s w fuel r (yields_other (other o) t u e ne) lt =
      run_block-over s w fuel (return (result (stray d.metadata)), (d.metadata, u)) r (rw e refl) lt
  run_block-Fails {d = d} s w fuel r (yields_other (result q) t u e ne) lt = absurd (ne q refl)
