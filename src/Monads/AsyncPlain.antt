-- ===== src/Monads/AsyncPlain.antt =====
-- The classes `AsyncOption` and `AsyncEither` of python/src/aikernel_net/monads.py, which catch
-- nothing.
use aikernel_core.Base.{◌≡◌}
use aikernel_core.Python.Object.{Object}
use aikernel_core.Python.Effect.{return, Py, ◌>>=◌}
use aikernel_core.Monads.Types.{Option, Either, option, either}
use aikernel_core.Monads.Option
use aikernel_core.Monads.Option.Laws.{IsOption}
use aikernel_core.Monads.Either
use aikernel_core.Monads.Either.Laws.{IsEither}
use aikernel_core.Monads.Async.{AsyncOption, AsyncEither, Reply, Observed, resolved, observe}
use aikernel_core.Monads.AsyncOption
use aikernel_core.Monads.AsyncOption.Sync as OptionSync
use aikernel_core.Monads.AsyncOption.Sync.{async_option-sync}
use aikernel_core.Monads.AsyncEither
use aikernel_core.Monads.AsyncEither.Sync as EitherSync
use aikernel_core.Monads.AsyncEither.Sync.{async_either-sync}

module _ {ℓ} {W : Type ℓ} where
  -- Where the awaitables have returned an `Option` and an `Either`, `map`, `bind`, `tap` and `where`
  -- are those of the classes, with what a callback returns awaited where it can be. For `bind` the
  -- reply is or resolves to an object of the class, or raises.
  pub plain_async-sync :
      (self : AsyncOption W) (x : Option) (self' : AsyncEither W) (y : Either) (w w' u : W)
      (func : Object → Py W Object) (binder binder' : Object → Py W (Reply W))
      (action predicate : Object → Py W (Observed W)) (left_factory : Py W Object)
      → self.awaitable w ≡ (return (option x), w')
      → self'.awaitable w ≡ (return (either y), u)
      → IsOption ((binder x.value >>= resolved) w').0
      → IsEither ((binder' y.right >>= resolved) u).0
      → ((AsyncOption.map self func).awaitable w ≡ OptionSync.as_dyn (Option.map x func) w')
        × ((AsyncOption.bind self binder).awaitable w
            ≡ OptionSync.as_dyn (Option.bind x (λ v. binder v >>= resolved)) w')
        × ((AsyncOption.tap self action).awaitable w
            ≡ OptionSync.as_dyn (Option.tap x (λ v. action v >>= observe)) w')
        × ((AsyncOption.filter_where self predicate).awaitable w
            ≡ OptionSync.as_dyn (Option.filter_where x (λ v. predicate v >>= observe)) w')
        × ((AsyncEither.map self' func).awaitable w ≡ EitherSync.as_dyn (Either.map y func) u)
        × ((AsyncEither.bind self' binder').awaitable w
            ≡ EitherSync.as_dyn (Either.bind y (λ v. binder' v >>= resolved)) u)
        × ((AsyncEither.tap self' action).awaitable w
            ≡ EitherSync.as_dyn (Either.tap y (λ v. action v >>= observe)) u)
        × ((AsyncEither.filter_where self' predicate left_factory).awaitable w
            ≡ EitherSync.as_dyn
                (Either.filter_where y (λ v. predicate v >>= observe) left_factory)
                u)
  plain_async-sync self x self' y w w' u func binder binder' action predicate left_factory e e' h
        h' =
      let (mapped, bound, tapped, filtered) =
        async_option-sync self x w w' func binder action predicate e h in
      let (mapped', bound', tapped', filtered') =
        async_either-sync self' y w u func binder' action predicate left_factory e' h' in
      (mapped, bound, tapped, filtered, mapped', bound', tapped', filtered')
