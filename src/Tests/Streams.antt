-- ===== src/Tests/Streams.antt =====
-- Blocks of `do` over a generator that yields for ever.
use mathlib.Core.Option.{some}
use aikernel_core.Base.{zero, ℕ, suc, ◌≤◌, ◌<◌, ◌≡◌, ◌↔◌, refl, arith}
use aikernel_core.Python.Object.{Object, exn, is_exception}
use aikernel_core.Python.Effect.{return, raise, pure}
use aikernel_core.Python.Dict.{put, update}
use aikernel_core.Monads.Result.{with_metadata}
use aikernel_core.Monads.Types.{Dyn, result, failure}
use aikernel_core.Monads.Generator as Trees
use aikernel_core.Monads.Generator.{Generator, generator}
use aikernel_core.Monads.Do.{run_do, result_type}
use aikernel_core.Monads.Async.{Reply, coroutine}
use aikernel_core.Monads.AsyncDo.Endless.{run_async_block}
use aikernel_core.Monads.AsyncDo.Endless.Agreement.{IsSent}
use aikernel_core.Monads.AsyncDo.Endless.Blocks.{awaited_send, run_async_block-run_block}
use aikernel_core.Monads.Do.ResultBlocks.{of_result}
use aikernel_core.Monads.Do.Endless.{Sent, Config, stops, yields, round, initial, run_block}
use aikernel_core.Monads.Do.Endless.Rounds.{Reach, here, more, stopped, yielded}
use aikernel_core.Monads.Do.Endless.Ending.{run_block-run_do, yields_error}
use aikernel_core.Monads.Do.Endless.Stops.{Stops, failed}
use aikernel_core.Monads.Do.Endless.Exact.{run_block-Stops}
use aikernel_core.Monads.Do.Endless.Bounds.{run_block-within}
use aikernel_core.Tests.Samples.{item, boom, trace, good, bad}

-- It yields a success at each `send`, and a failure after two calls; it goes on for ever.
abbrev endless : ℕ → Object → ℕ → Sent ℕ Dyn × ℕ
endless s v (suc (suc n)) = (yields (result bad) (suc s), suc (suc (suc n)))
endless s v n = (yields (result good) (suc s), suc n)

endless-run : run_block endless 3 of_result 0 0 ≡ some (return (result bad), 3)
unfolding run_block round update put
endless-run = refl

abbrev reached : Config ℕ ℕ
reached = record { generator = 2; current = item 1; metadata = trace; world = 2 }

run_block-Stops_example :
    (run_block endless 3 of_result 0 0 ≡ some (return (result (failure (exn boom) trace)), 3)) ↔ (
      (n : ℕ) × (d : Config ℕ ℕ) × Reach endless of_result n (initial 0 0) d
      × Stops endless d result_type (return (result (failure (exn boom) trace))) 3
      × (n < 3))
run_block-Stops_example =
    run_block-Stops endless result_type 3 0 0 (return (result (failure (exn boom) trace))) 3 tt

-- The two rounds before the failure.
failure-Stops :
    (n : ℕ) × (d : Config ℕ ℕ) × Reach endless of_result n (initial 0 0) d
    × Stops endless d result_type (return (result (failure (exn boom) trace))) 3
    × (n < 3)
unfolding round update put with_metadata
failure-Stops = (
  2,
  reached,
  more refl (more refl (here reached)),
  failed (failure (exn boom) trace) 3 (yields_error bad 3 3 refl refl),
  omega arith,
)

-- It yields two successes, and returns what the second one held.
abbrev short : ℕ → Object → ℕ → Sent ℕ Dyn × ℕ
short (suc (suc s)) v n = (stops v, suc n)
short s v n = (yields (result good) (suc s), suc n)

abbrev short_tree : ℕ → Generator ℕ Dyn
short_tree n =
    Trees.yields (result good) (suc n)
      (λ v m. Trees.yields (result good) (suc m) (λ u k. Trees.stop u (suc k)))

run_block-run_do_example :
    (enough : ℕ) × ((fuel : ℕ)
      → enough ≤ fuel
      → run_block short fuel of_result 0 0
        ≡ some (run_do of_result (pure (generator short_tree)) 0))
run_block-run_do_example = run_block-run_do short of_result 0 0 short_tree (λ n.
    yielded (result good) 1 (suc n) _ refl
      (λ v m. yielded (result good) 2 (suc m) _ refl (λ u k. stopped u (suc k) refl)))

run_block-within_example :
    run_block short 3 of_result 0 0 ≡ some (run_do of_result (pure (generator short_tree)) 0)
run_block-within_example =
    run_block-within short of_result 2 3 0 0 short_tree
      (yielded (result good) 1 1 _ refl
        (λ v m. yielded (result good) 2 (suc m) _ refl (λ u k. stopped u (suc k) refl)))
      (λ v m u k. tt) (omega arith)

-- It yields coroutines for ever. Each makes a call, and the third one raises.
abbrev coroutines : ℕ → Object → ℕ → Sent ℕ (Reply ℕ) × ℕ
coroutines (suc (suc s)) v n = (yields (coroutine (λ m. (raise boom, suc m))) (suc s), suc n)
coroutines s v n = (yields (coroutine (λ m. (return (result good), suc m))) (suc s), suc n)

coroutines-IsSent :
    (s : ℕ) (v : Object) (n : ℕ) → IsSent result_type (awaited_send coroutines s v n)
coroutines-IsSent zero v n = tt
coroutines-IsSent (suc zero) v n = tt
coroutines-IsSent (suc (suc s)) v n = tt

coroutines-run :
    run_async_block coroutines 3 of_result 0 0
    ≡ some (return (result (failure (exn boom) trace)), 6)
unfolding run_async_block update put is_exception
coroutines-run = refl

run_async_block-run_block_example :
    run_async_block coroutines 3 of_result 0 0 ≡ run_block (awaited_send coroutines) 3 of_result 0 0
run_async_block-run_block_example =
    run_async_block-run_block coroutines result_type 3 0 0 coroutines-IsSent
