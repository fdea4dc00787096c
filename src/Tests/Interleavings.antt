-- ===== src/Tests/Interleavings.antt =====
-- Coroutines among other tasks: at each suspension the others act on the world, a counter.
use mathlib.Core.Option as Maybe
use aikernel_core.Base.{ℕ, suc, ◌≡◌, refl}
use aikernel_core.Python.Object.{Object, Exn, is_exception}
use aikernel_core.Python.Effect.{return, raise, Py, pure}
use aikernel_core.Python.Tasks.{Wake, sent, thrown, Task, ended, suspends, interleaved}
use aikernel_core.Python.Dict.{put, update}
use aikernel_core.Monads.Types.{Option, Either, Dyn, result, option, either, success, some, right}
use aikernel_core.Monads.Generator.{Generator, stop, yields, generator}
use aikernel_core.Monads.Result.{with_metadata}
use aikernel_core.Monads.AsyncDo.Suspended.Interleaved.{driven, driven_do, async_do-interleaved}
use aikernel_core.Monads.AsyncResult.Suspended.Sync as ResultMethods
use aikernel_core.Monads.AsyncOption.Suspended.Sync as OptionMethods
use aikernel_core.Monads.AsyncEither.Suspended.Sync as EitherMethods
use aikernel_core.Monads.AsyncOption.Suspended.SelectMany as OptionQueries
use aikernel_core.Monads.AsyncEither.Suspended.SelectMany as EitherQueries
use aikernel_core.Monads.AsyncResult.Raised.{methods_raised}
use aikernel_core.Monads.Coroutines.{TaskReply, awaitable}
use aikernel_core.Monads.Coroutines.ResultMethods.{
  map_task, bind_task, select_many_task, tap_task, where_task,
}
use aikernel_core.Monads.Coroutines.Blocks.{do_task}
use aikernel_core.Monads.Do.{result_type}
use aikernel_core.Monads.Do.Classes.{of_kind}
use aikernel_core.Monads.Do.ResultBlocks.{of_result}
use aikernel_core.Monads.Interleavings.{methods-interleaved}
use aikernel_core.Tests.Samples.{item, trace, good, better, good-IsNormal, give}

-- The others make two calls, and the task is resumed.
abbrev busy : ℕ → ℕ → Wake × ℕ
busy n w = (sent, suc (suc w))

-- A task that gives its value after a suspension, and is cancelled if an exception is thrown in.
abbrev wakes {ℓ} : {A : Type ℓ} → A → Wake → Task ℕ A
wakes a sent = ended (return a)
wakes a (thrown e) = ended (raise e)

abbrev asleep {ℓ} : {A : Type ℓ} → A → Task ℕ A
asleep a = suspends (wakes a)

abbrev answer : Object → Py ℕ (TaskReply ℕ Dyn)
answer = give (awaitable (asleep (result better)))

abbrev projector : Maybe.Option (Object → Object → Py ℕ Object)
projector = Maybe.some (λ v. give (item 4))

abbrev yes : Object → Py ℕ (TaskReply ℕ Object)
yes = give (awaitable (asleep (item 1)))

interleaved-bind_task :
    interleaved busy (bind_task (asleep (result good)) answer) (0, 0)
    ≡ (return (result (success (item 2) (update trace better.metadata))), (2, 5))
unfolding interleaved bind_task with_metadata update put
interleaved-bind_task = refl

abbrev present : Option
present = some (item 1)

abbrev right_one : Either
right_one = right (item 1)

methods-interleaved_example :
    ResultMethods.RunAs busy
      (asleep (result good))
      good
      (give (item 2))
      answer
      yes
      yes
      (0, 0)
      (1, 2)
    × OptionMethods.RunAs busy
        (asleep (option present))
        present
        (give (item 2))
        (give (awaitable (asleep (option present))))
        yes
        yes
        (0, 0)
        (1, 2)
    × EitherMethods.RunAs busy
        (asleep (either right_one))
        right_one
        (give (item 2))
        (give (awaitable (asleep (either right_one))))
        yes
        yes
        (pure (item 9))
        (0, 0)
        (1, 2)
    × OptionQueries.SelectsAs busy
        (asleep (option present))
        present
        (give (awaitable (asleep (option present))))
        projector
        (0, 0)
        (1, 2)
    × EitherQueries.SelectsAs busy
        (asleep (either right_one))
        right_one
        (give (awaitable (asleep (either right_one))))
        projector
        (0, 0)
        (1, 2)
unfolding interleaved
methods-interleaved_example =
    methods-interleaved busy good present right_one (asleep (result good)) (asleep (option present))
      (asleep (either right_one)) (0, 0) (1, 2) (1, 2) (1, 2) (give (item 2)) answer
      (give (awaitable (asleep (option present)))) (give (awaitable (asleep (either right_one))))
      projector yes yes (pure (item 9)) good-IsNormal refl refl refl tt tt tt tt

-- CancelledError, thrown in at the first suspension.
abbrev cancelled : Exn
cancelled = Exn.interrupt 0 "cancelled"

abbrev cancelling : ℕ → ℕ → Wake × ℕ
cancelling n w = (thrown cancelled, suc w)

methods_raised_example :
    (interleaved cancelling (map_task (asleep (result good)) (give (item 2))) (0, 0)
      ≡ (raise cancelled, (1, 1)))
    × (interleaved cancelling (bind_task (asleep (result good)) answer) (0, 0)
        ≡ (raise cancelled, (1, 1)))
    × (interleaved cancelling (select_many_task (asleep (result good)) answer projector) (0, 0)
        ≡ (raise cancelled, (1, 1)))
    × (interleaved cancelling (tap_task (asleep (result good)) yes) (0, 0)
        ≡ (raise cancelled, (1, 1)))
    × (interleaved cancelling (where_task (asleep (result good)) yes) (0, 0)
        ≡ (raise cancelled, (1, 1)))
unfolding is_exception interleaved
methods_raised_example =
    methods_raised cancelling (asleep (result good)) (give (item 2)) answer projector yes yes
      cancelled (0, 0) (1, 1) refl

-- A block that awaits twice, and returns what it was sent last.
abbrev block : ℕ → Generator ℕ (TaskReply ℕ Dyn)
block n =
    yields (awaitable (asleep (result good))) (suc n)
      (λ v m. yields (awaitable (asleep (result better))) (suc m) (λ u k. stop u (suc k)))

interleaved-block :
    interleaved busy (do_task of_result (pure (generator block))) (0, 0)
    ≡ (return (result (success (item 2) (update trace better.metadata))), (2, 7))
unfolding interleaved do_task with_metadata update put
interleaved-block = refl

async_do-interleaved_example :
    interleaved busy (do_task (of_kind result_type) (pure (generator block))) (0, 0)
    ≡ driven_do busy result_type block (0, 0)
unfolding interleaved driven
async_do-interleaved_example =
    async_do-interleaved busy result_type block (0, 0) tt (tt, λ v u. (tt, λ x t. tt))
