-- ===== src/Tests/Asynchronous.antt =====
-- The asynchronous wrappers on small inputs.
use mathlib.Core.Option as Maybe
use aikernel_core.Base.{ℕ, suc, ◌≡◌, refl, []}
use aikernel_core.Python.Object.{Object, exn, is_exception}
use aikernel_core.Python.Effect.{return, raise, Py, ◌>>=◌}
use aikernel_core.Python.Effect.Rules.{RaisesNoException}
use aikernel_core.Monads.Types.{result, option, either, failure, some, right}
use aikernel_core.Monads.Result
use aikernel_core.Monads.Option
use aikernel_core.Monads.Either
use aikernel_core.Monads.Async.{
  AsyncResult, AsyncOption, AsyncEither, now, coroutine, awaiting, plain, resolved, observe,
}
use aikernel_core.Monads.AsyncResult
use aikernel_core.Monads.AsyncOption
use aikernel_core.Monads.AsyncEither
use aikernel_core.Monads.AsyncResult.Sync.{as_dyn}
use aikernel_core.Monads.AsyncResult.BindSync.{methods-sync}
use aikernel_core.Monads.AsyncResult.Errors.{await-RaisesNoException, bind_drops_metadata}
use aikernel_core.Monads.AsyncOption.Sync as OptionSync
use aikernel_core.Monads.AsyncEither.Sync as EitherSync
use aikernel_core.Monads.AsyncPlain.{plain_async-sync}
use aikernel_core.Tests.Samples.{item, boom, trace, good, better, good-IsNormal, give, fail}

-- An awaitable that makes one call and returns the object.
abbrev later {ℓ} : {A : Type ℓ} → A → Py ℕ A
later a n = (return a, suc n)

abbrev pending : AsyncResult ℕ
pending = record { awaitable = later (result good) }

abbrev broken : AsyncResult ℕ
broken = record { awaitable = λ n. (raise boom, suc n) }

await-RaisesNoException_example :
    RaisesNoException ((AsyncResult.map broken fail).awaitable 0).0
    × RaisesNoException ((AsyncResult.bind broken (give (now (result better)))).awaitable 0).0
    × RaisesNoException
        ((AsyncResult.select_many broken (give (now (result better))) Maybe.none).awaitable 0).0
await-RaisesNoException_example =
    await-RaisesNoException broken 0 fail (give (now (result better))) Maybe.none

bind_drops_metadata_example :
    ((AsyncResult.bind pending fail).awaitable 0 ≡ (return (result (failure (exn boom) [])), 2))
    × (Result.bind good fail 1 ≡ (return (failure (exn boom) trace), 2))
unfolding is_exception
bind_drops_metadata_example =
    bind_drops_metadata pending good 0 1 2 boom fail fail refl refl refl refl refl

abbrev pending_option : AsyncOption ℕ
pending_option = record { awaitable = later (option (some (item 1))) }

abbrev pending_either : AsyncEither ℕ
pending_either = record { awaitable = later (either (right (item 1))) }

plain_async-sync_example :
    ((AsyncOption.map pending_option (give (item 2))).awaitable 0
      ≡ OptionSync.as_dyn (Option.map (some (item 1)) (give (item 2))) 1)
    × ((AsyncOption.bind pending_option (give (now (option (some (item 3)))))).awaitable 0
        ≡ OptionSync.as_dyn
            (Option.bind (some (item 1)) (λ v. give (now (option (some (item 3)))) v >>= resolved))
            1)
    × ((AsyncOption.tap pending_option fail).awaitable 0
        ≡ OptionSync.as_dyn (Option.tap (some (item 1)) (λ v. fail v >>= observe)) 1)
    × ((AsyncOption.filter_where pending_option (give (plain Object.none))).awaitable 0
        ≡ OptionSync.as_dyn
            (Option.filter_where (some (item 1)) (λ v. give (plain Object.none) v >>= observe))
            1)
    × ((AsyncEither.map pending_either (give (item 2))).awaitable 0
        ≡ EitherSync.as_dyn (Either.map (right (item 1)) (give (item 2))) 1)
    × ((AsyncEither.bind pending_either (give (now (either (right (item 3)))))).awaitable 0
        ≡ EitherSync.as_dyn
            (Either.bind
              (right (item 1))
              (λ v. give (now (either (right (item 3)))) v >>= resolved))
            1)
    × ((AsyncEither.tap pending_either fail).awaitable 0
        ≡ EitherSync.as_dyn (Either.tap (right (item 1)) (λ v. fail v >>= observe)) 1)
    × ((AsyncEither.filter_where pending_either
            (give (plain Object.none))
            (later (item 4))).awaitable
          0
        ≡ EitherSync.as_dyn
            (Either.filter_where
              (right (item 1))
              (λ v. give (plain Object.none) v >>= observe)
              (later (item 4)))
            1)
plain_async-sync_example =
    plain_async-sync pending_option (some (item 1)) pending_either (right (item 1)) 0 1 1
      (give (item 2)) (give (now (option (some (item 3))))) (give (now (either (right (item 3)))))
      fail (give (plain Object.none)) (later (item 4)) refl refl tt tt

methods-sync_example :
    ((AsyncResult.map pending fail).awaitable 0 ≡ as_dyn (Result.map good fail) 1)
    × ((AsyncResult.bind pending (give (coroutine (later (result better))))).awaitable 0
        ≡ as_dyn
            (Result.bind good (λ v. give (coroutine (later (result better))) v >>= resolved))
            1)
    × ((AsyncResult.tap pending (give (awaiting (later (item 2))))).awaitable 0
        ≡ as_dyn (Result.tap good (λ v. give (awaiting (later (item 2))) v >>= observe)) 1)
    × ((AsyncResult.filter_where pending (give (plain Object.none))).awaitable 0
        ≡ as_dyn (Result.filter_where good (λ v. give (plain Object.none) v >>= observe)) 1)
methods-sync_example =
    methods-sync pending good 0 1 fail (give (coroutine (later (result better))))
      (give (awaiting (later (item 2)))) (give (plain Object.none)) good-IsNormal refl tt tt
