-- ===== src/Monads/Either/SelectMany.antt =====
-- `Either.select_many` of python/src/aikernel_net/monads.py.
use aikernel_core.Python.Object.{Object}
use aikernel_core.Python.Effect.{Py, ◌>>=◌}
use aikernel_core.Monads.Types.{Either, Dyn}
use aikernel_core.Monads.Dyn
use aikernel_core.Monads.Either.{bind}
use mathlib.Core.Option as Maybe
use mathlib.Core.Option.{none, some}

module _ {ℓ} {W : Type ℓ} where
  -- `lambda value: binder(value).map(lambda bound: projector(value, bound))`
  abbrev pub project : (Object → Py W Dyn) → (Object → Object → Py W Object) → Object → Py W Dyn
  unfolding Dyn.map
  project binder projector value = binder value >>= λ found. Dyn.map found (projector value)

  -- With no projector it is `bind`.
  unfoldable pub select_many :
      Either → (Object → Py W Dyn) → Maybe.Option (Object → Object → Py W Object) → Py W Either
  unfolding bind project
  select_many self binder none = bind self binder
  select_many self binder (some projector) = bind self (project binder projector)
