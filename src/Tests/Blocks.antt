-- ===== src/Tests/Blocks.antt =====
-- Blocks of `do` and `async_do` on small inputs.
use mathlib.Core.Option as Maybe
use aikernel_core.Base.{ℕ, suc, ◌≡◌, refl, [], ◌∷◌}
use aikernel_core.Python.Object.{Object}
use aikernel_core.Python.Effect.{return, pure}
use aikernel_core.Python.Effect.Rules.{Ends, Passing}
use aikernel_core.Python.Dict.{put, update}
use aikernel_core.Monads.Types.{Dyn, result, option, either, success, some, nothing, right, left}
use aikernel_core.Monads.Generator.{Generator, stop, yields, generator}
use aikernel_core.Monads.Async.{Reply, now, coroutine, resolved}
use aikernel_core.Monads.Do.{option_type, decorate, run_do, loop, unwrap}
use aikernel_core.Monads.Do.FailClosed.{IsResultObject, run_do_fail_closed}
use aikernel_core.Monads.Do.ResultBlocks
use aikernel_core.Monads.Do.ResultBlocks.{of_result, result_block-bind_chain}
use aikernel_core.Monads.Do.OptionBlocks
use aikernel_core.Monads.Do.OptionBlocks.{of_option}
use aikernel_core.Monads.Do.EitherBlocks
use aikernel_core.Monads.Do.EitherBlocks.{of_either}
use aikernel_core.Monads.Do.PlainBlocks.{plain_blocks-bind_chain}
use aikernel_core.Monads.AsyncDo.{decorate as async_decorate, run_async_result_do, async_do}
use aikernel_core.Monads.AsyncDo.Classes.{blocks-IsClass}
use aikernel_core.Monads.Do.Classes.{IsClass, AnyExn}
use aikernel_core.Monads.AsyncDo.Awaited.{awaited}
use aikernel_core.Monads.AsyncDo.ResultLaws.{run_async_result_do-run_do}
use aikernel_core.Monads.Result.SelectMany
use aikernel_core.Monads.Do.Query.{query, query-select_many}
use aikernel_core.Tests.Samples.{item, good, better, good-IsNormal, better-IsNormal, give}

-- Two yields, and the second value is returned.
abbrev pair {ℓ} : {Y : Type ℓ} → Y → Y → ℕ → Generator ℕ Y
pair x y n = yields x (suc n) (λ v m. yields y (suc m) (λ u k. stop u (suc k)))

run_do-pair : run_do of_result (pure (generator (pair (result good) (result better)))) 0 ≡ (
  return (result (success (item 2) (("trace", Object.text "b") ∷ ("span", Object.text "c") ∷ []))),
  3,
)
unfolding run_do loop unwrap update put
run_do-pair = refl

result_block-bind_chain_example :
    run_do of_result (pure (generator (pair (result good) (result better)))) 0
    ≡ ResultBlocks.as_dyn (ResultBlocks.bind_chain (pair (result good) (result better) 0))
result_block-bind_chain_example =
    result_block-bind_chain (pair (result good) (result better)) 0
      (good-IsNormal, λ v u. (better-IsNormal, λ x y. tt))

run_do_fail_closed_example :
    Ends IsResultObject Passing
      (run_do of_result (pure (generator (pair (result good) (option nothing)))) 0).0
run_do_fail_closed_example =
    run_do_fail_closed (pure (generator (pair (result good) (option nothing)))) 0

-- A coroutine that makes one call and returns the object.
abbrev later : Dyn → Reply ℕ
later d = coroutine (λ n. (return d, suc n))

run_async_result_do-run_do_example :
    run_async_result_do of_result
      (pure (generator (pair (now (result good)) (later (result better)))))
      0
    ≡ run_do of_result
        (pure (generator (λ u. awaited (pair (now (result good)) (later (result better)) u))))
        0
unfolding awaited
run_async_result_do-run_do_example =
    run_async_result_do-run_do (pair (now (result good)) (later (result better))) 0
      (tt, λ v u. (tt, λ x y. tt))

plain_blocks-bind_chain_example :
    (run_do of_option (pure (generator (pair (option (some (item 1))) (option nothing)))) 0
      ≡ OptionBlocks.as_dyn
          (OptionBlocks.bind_chain (pair (option (some (item 1))) (option nothing) 0)))
    × (run_do of_either
          (pure (generator (pair (either (right (item 1))) (either (left (item 2))))))
          0
        ≡ EitherBlocks.as_dyn
            (EitherBlocks.bind_chain (pair (either (right (item 1))) (either (left (item 2))) 0)))
plain_blocks-bind_chain_example =
    plain_blocks-bind_chain (pair (option (some (item 1))) (option nothing))
      (pair (either (right (item 1))) (either (left (item 2)))) 0
      (λ e. cc, λ v u. (λ e. refl, λ x y. tt)) (λ e. cc, λ v u. (λ e. refl, λ x y. tt))

query-select_many_example :
    run_do of_result
      (pure (generator (query good (give (result better)) (λ v bound. give (item 4) bound))))
      0
    ≡ ResultBlocks.as_dyn
        (SelectMany.select_many good (give (result better)) (Maybe.some (λ v. give (item 4))) 0)
query-select_many_example =
    query-select_many good (give (result better)) (λ v. give (item 4)) 0 good-IsNormal
      (λ v u. better-IsNormal)

blocks-IsClass_example :
    Ends
      (IsClass option_type)
      AnyExn
      (run_do of_option (pure (generator (pair (option (some (item 1))) (option nothing)))) 0).0
    × Ends
        (IsClass option_type)
        AnyExn
        (resolved
          (async_do of_option
            (pure (generator (pair (now (result good)) (later (option nothing))))))
          0).0
unfolding decorate async_decorate
blocks-IsClass_example =
    blocks-IsClass option_type of_option of_option
      (pure (generator (pair (option (some (item 1))) (option nothing))))
      (pure (generator (pair (now (result good)) (later (option nothing))))) 0 refl refl
