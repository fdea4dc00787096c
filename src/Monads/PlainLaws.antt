-- ===== src/Monads/PlainLaws.antt =====
-- The classes `Option` and `Either` of python/src/aikernel_net/monads.py, which catch nothing.
use aikernel_core.Base.{◌≡◌}
use aikernel_core.Python.Object.{Object}
use aikernel_core.Python.Effect.{Py, ◌>>=◌}
use aikernel_core.Monads.Types.{Option, Either, Dyn}
use aikernel_core.Monads.Option
use aikernel_core.Monads.Option.Laws as OptionLaws
use aikernel_core.Monads.Option.Laws.{IsOption, option_laws}
use aikernel_core.Monads.Either
use aikernel_core.Monads.Either.Laws as EitherLaws
use aikernel_core.Monads.Either.Laws.{IsEither, either_laws}

module _ {ℓ} {W : Type ℓ} where
  -- `bind` of `Option` and of `Either` is associative where the first callback returns an object of
  -- the class or raises; two maps are one map of the composed function; and two filters, for `Either`
  -- with one factory of left values, are one, by the conjunction that does not run its second test
  -- where the first one fails. Callbacks may raise.
  pub plain_laws :
      (x : Option) (y : Either) (f f' g : Object → Py W Dyn) (p q : Object → Py W Object)
      (left_factory : Py W Object) (w : W)
      → ((v : Object) (u : W) → IsOption (f v u).0)
      → ((v : Object) (u : W) → IsEither (f' v u).0)
      → ((Option.bind x f >>= λ z. Option.bind z g) w
          ≡ Option.bind x (λ v. f v >>= λ d. OptionLaws.bind_reply d g) w)
        × ((Option.map x p >>= λ z. Option.map z q) w ≡ Option.map x (λ v. p v >>= q) w)
        × ((Option.filter_where x p >>= λ z. Option.filter_where z q) w
            ≡ Option.filter_where x (OptionLaws.both p q) w)
        × ((Either.bind y f' >>= λ z. Either.bind z g) w
            ≡ Either.bind y (λ v. f' v >>= λ d. EitherLaws.bind_reply d g) w)
        × ((Either.map y p >>= λ z. Either.map z q) w ≡ Either.map y (λ v. p v >>= q) w)
        × ((Either.filter_where y p left_factory >>= λ z. Either.filter_where z q left_factory) w
            ≡ Either.filter_where y (EitherLaws.both p q) left_factory w)
  plain_laws x y f f' g p q left_factory w h h' =
      let (bound, mapped, filtered) = option_laws x f g p q w h in
      let (bound', mapped', filtered') = either_laws y f' g p q left_factory w h' in
      (bound, mapped, filtered, bound', mapped', filtered')
