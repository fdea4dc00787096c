-- ===== src/Monads/Interleavings.antt =====
-- The methods of the three asynchronous wrappers of python/src/aikernel_net/monads.py among other tasks, beside
-- the methods of the synchronous classes.
use mathlib.Core.Option as Maybe
use aikernel_core.Base.{ℕ, ◌≡◌}
use aikernel_core.Python.Object.{Object}
use aikernel_core.Python.Effect.{return, Py}
use aikernel_core.Python.Effect.Rules.{RaisesNoException}
use aikernel_core.Python.Tasks.{Wake, Task, interleaved}
use aikernel_core.Monads.Types.{Result, Option, Either, Dyn, result, option, either}
use aikernel_core.Monads.Coroutines.{TaskReply}
use aikernel_core.Monads.Coroutines.Replies.{calling}
use aikernel_core.Monads.Result.Normal.{IsNormal}
use aikernel_core.Monads.Option.Laws.{IsOption}
use aikernel_core.Monads.Either.Laws.{IsEither}
use aikernel_core.Monads.AsyncResult.BindSync.{IsResultReply}
use aikernel_core.Monads.AsyncResult.Suspended.Sync as ResultMethods
use aikernel_core.Monads.AsyncOption.Suspended.Sync as OptionMethods
use aikernel_core.Monads.AsyncEither.Suspended.Sync as EitherMethods
use aikernel_core.Monads.AsyncOption.Suspended.SelectMany as OptionQueries
use aikernel_core.Monads.AsyncEither.Suspended.SelectMany as EitherQueries

module _ {ℓ} {W : Type ℓ} (others : ℕ → W → Wake × W) where
  -- Among other tasks, which at each suspension act on the world and have the event loop resume the
  -- coroutine or throw an exception in, `map`, `bind`, `tap` and `where` of the three wrappers and
  -- `select_many` of `AsyncOption` and `AsyncEither`, whose awaitables have returned a `Result`, an
  -- `Option` and an `Either`, do what these methods of that object do with callbacks whose replies
  -- are awaited, suspensions included, where they can be. The `Result` is normal. For `bind` and
  -- `select_many` the reply of the binder is or resolves to an object of the same class, or calling
  -- it or the awaiting raises; for `Result`, calling it raises no Exception.
  pub methods-interleaved :
      (r : Result) (x : Option) (y : Either) (result_task option_task either_task : Task W Dyn)
      (s s_result s_option s_either : ℕ × W) (func : Object → Py W Object)
      (result_binder option_binder either_binder : Object → Py W (TaskReply W Dyn))
      (projector : Maybe.Option (Object → Object → Py W Object))
      (action predicate : Object → Py W (TaskReply W Object)) (left_factory : Py W Object)
      → IsNormal r
      → interleaved others result_task s ≡ (return (result r), s_result)
      → interleaved others option_task s ≡ (return (option x), s_option)
      → interleaved others either_task s ≡ (return (either y), s_either)
      → RaisesNoException (result_binder r.value s_result.1).0
      → IsResultReply (calling others result_binder r.value s_result).0
      → IsOption (calling others option_binder x.value s_option).0
      → IsEither (calling others either_binder y.right s_either).0
      → ResultMethods.RunAs others result_task r func result_binder action predicate s s_result
        × OptionMethods.RunAs others option_task x func option_binder action predicate s s_option
        × EitherMethods.RunAs others either_task y func either_binder action predicate left_factory
            s s_either
        × OptionQueries.SelectsAs others option_task x option_binder projector s s_option
        × EitherQueries.SelectsAs others either_task y either_binder projector s s_either
  methods-interleaved r x y result_task option_task either_task s s_result s_option s_either func
        result_binder option_binder either_binder projector action predicate left_factory normal
        result_ended option_ended either_ended passing result_reply option_reply either_reply =
      (
        ResultMethods.methods-RunAs others result_task r func result_binder action predicate s
            s_result normal result_ended passing result_reply,
        OptionMethods.methods-RunAs others option_task x func option_binder action predicate s
            s_option option_ended option_reply,
        EitherMethods.methods-RunAs others either_task y func either_binder action predicate
            left_factory s s_either either_ended either_reply,
        OptionQueries.select_many-SelectsAs others option_task x option_binder projector s s_option
            option_ended option_reply,
        EitherQueries.select_many-SelectsAs others either_task y either_binder projector s s_either
            either_ended either_reply,
      )
