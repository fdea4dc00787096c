-- ===== src/Monads/AsyncEither.antt =====
-- The class `AsyncEither` of python/src/aikernel_net/monads.py. Each method wraps a coroutine, its
-- local function `run`, and catches nothing. Each PascalCase method calls the method before it.
pub mod Sync
pub mod Suspended
use mathlib.Core.Option as Maybe
use mathlib.Core.Option.{none, some}
use aikernel_core.Base.{if◌then◌else◌}
use aikernel_core.Python.Object.{Object, truthy}
use aikernel_core.Python.Effect.{Py, pure, lift, ◌>>=◌, ◌>>◌}
use aikernel_core.Monads.Types.{Either, Dyn, either, left}
use aikernel_core.Monads.Either
use aikernel_core.Monads.Dyn
use aikernel_core.Monads.Async.{
  AsyncEither, Reply, of_either, Observed, observe, resolve_either, async_either, as_either,
}

module _ {ℓ} {W : Type ℓ} where
  unfoldable pub map : AsyncEither W → (Object → Py W Object) → AsyncEither W
  unfolding Dyn.map
  map self func = record { awaitable = self.awaitable >>= λ d. Dyn.map d func }

  -- `run` of `bind` on what was awaited
  abbrev pub bind_run : (Object → Py W (Reply W)) → Either → Py W Dyn
  unfolding Either.is_left Either.unwrap resolve_either
  bind_run func x w =
      if Either.is_left x
      then pure (either (left x.left)) w
      else (lift (Either.unwrap x) >>= func >>= resolve_either >>= λ y. pure (either y)) w

  unfoldable pub bind : AsyncEither W → (Object → Py W (Reply W)) → AsyncEither W
  unfolding bind_run
  bind self func = record { awaitable = self.awaitable >>= as_either >>= bind_run func }

  -- `lambda value: async_either(binder(value)).map(lambda bound: projector(value, bound))`
  abbrev pub project :
      (Object → Py W (Reply W)) → (Object → Object → Py W Object) → Object → Py W (Reply W)
  unfolding map async_either
  project binder projector value =
      binder value >>= λ reply. pure (of_either (map (async_either reply) (projector value)))

  -- With no projector it is `bind`.
  unfoldable pub select_many :
      AsyncEither W
      → (Object → Py W (Reply W))
      → Maybe.Option (Object → Object → Py W Object)
      → AsyncEither W
  unfolding bind project
  select_many self binder none = bind self binder
  select_many self binder (some projector) = bind self (project binder projector)

  -- `run` of `tap` on what was awaited
  abbrev pub tap_run : (Object → Py W (Observed W)) → Either → Py W Dyn
  unfolding Either.unwrap
  tap_run action x w =
      if x.is_right
      then ((lift (Either.unwrap x) >>= action >>= observe) >> pure (either x)) w
      else pure (either x) w

  unfoldable pub tap : AsyncEither W → (Object → Py W (Observed W)) → AsyncEither W
  unfolding tap_run
  tap self action = record { awaitable = self.awaitable >>= as_either >>= tap_run action }

  abbrev pub filtered : Either → Py W Object → Object → Py W Dyn
  unfolding truthy
  filtered x left_factory passed w =
      if truthy passed then pure (either x) w else (left_factory >>= λ l. pure (either (left l))) w

  -- `run` of `where` on what was awaited
  abbrev pub where_run : (Object → Py W (Observed W)) → Py W Object → Either → Py W Dyn
  unfolding Either.is_left Either.unwrap filtered
  where_run predicate left_factory x w =
      if Either.is_left x
      then pure (either x) w
      else (lift (Either.unwrap x) >>= predicate >>= observe >>= filtered x left_factory) w

  -- `where`
  unfoldable pub filter_where :
      AsyncEither W → (Object → Py W (Observed W)) → Py W Object → AsyncEither W
  unfolding where_run
  filter_where self predicate left_factory = record {
    awaitable = self.awaitable >>= as_either >>= where_run predicate left_factory;
  }
