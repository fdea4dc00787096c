-- ===== src/Monads/AsyncOption.antt =====
-- The class `AsyncOption` of python/src/aikernel_net/monads.py. Each method wraps a coroutine, its
-- local function `run`, and catches nothing. Each PascalCase method calls the method before it.
pub mod Sync
pub mod Suspended
use mathlib.Core.Option as Maybe
use mathlib.Core.Option.{none, some}
use aikernel_core.Base.{if◌then◌else◌}
use aikernel_core.Python.Object.{Object, truthy}
use aikernel_core.Python.Effect.{Py, pure, lift, ◌>>=◌, ◌>>◌}
use aikernel_core.Monads.Types.{Option, Dyn, option, nothing}
use aikernel_core.Monads.Option
use aikernel_core.Monads.Dyn
use aikernel_core.Monads.Async.{
  AsyncOption, Reply, of_option, Observed, observe, resolve_option, async_option, as_option,
}

module _ {ℓ} {W : Type ℓ} where
  unfoldable pub map : AsyncOption W → (Object → Py W Object) → AsyncOption W
  unfolding Dyn.map
  map self func = record { awaitable = self.awaitable >>= λ d. Dyn.map d func }

  -- `run` of `bind` on what was awaited
  abbrev pub bind_run : (Object → Py W (Reply W)) → Option → Py W Dyn
  unfolding Option.is_none Option.unwrap resolve_option
  bind_run func x w =
      if Option.is_none x
      then pure (option nothing) w
      else (lift (Option.unwrap x) >>= func >>= resolve_option >>= λ y. pure (option y)) w

  unfoldable pub bind : AsyncOption W → (Object → Py W (Reply W)) → AsyncOption W
  unfolding bind_run
  bind self func = record { awaitable = self.awaitable >>= as_option >>= bind_run func }

  -- `lambda value: async_option(binder(value)).map(lambda bound: projector(value, bound))`
  abbrev pub project :
      (Object → Py W (Reply W)) → (Object → Object → Py W Object) → Object → Py W (Reply W)
  unfolding map async_option
  project binder projector value =
      binder value >>= λ reply. pure (of_option (map (async_option reply) (projector value)))

  -- With no projector it is `bind`.
  unfoldable pub select_many :
      AsyncOption W
      → (Object → Py W (Reply W))
      → Maybe.Option (Object → Object → Py W Object)
      → AsyncOption W
  unfolding bind project
  select_many self binder none = bind self binder
  select_many self binder (some projector) = bind self (project binder projector)

  -- `run` of `tap` on what was awaited
  abbrev pub tap_run : (Object → Py W (Observed W)) → Option → Py W Dyn
  unfolding Option.unwrap
  tap_run action x w =
      if x.is_some
      then ((lift (Option.unwrap x) >>= action >>= observe) >> pure (option x)) w
      else pure (option x) w

  unfoldable pub tap : AsyncOption W → (Object → Py W (Observed W)) → AsyncOption W
  unfolding tap_run
  tap self action = record { awaitable = self.awaitable >>= as_option >>= tap_run action }

  abbrev pub filtered : Option → Object → Py W Dyn
  unfolding truthy
  filtered x passed w = if truthy passed then pure (option x) w else pure (option nothing) w

  -- `run` of `where` on what was awaited
  abbrev pub where_run : (Object → Py W (Observed W)) → Option → Py W Dyn
  unfolding Option.is_none Option.unwrap filtered
  where_run predicate x w =
      if Option.is_none x
      then pure (option x) w
      else (lift (Option.unwrap x) >>= predicate >>= observe >>= filtered x) w

  -- `where`
  unfoldable pub filter_where : AsyncOption W → (Object → Py W (Observed W)) → AsyncOption W
  unfolding where_run
  filter_where self predicate = record {
    awaitable = self.awaitable >>= as_option >>= where_run predicate;
  }
