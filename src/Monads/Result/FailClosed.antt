-- ===== src/Monads/Result/FailClosed.antt =====
-- The operations of a `Result` together: what they return, what they raise, and what an error does.
use mathlib.Core.Option as Maybe
use mathlib.Core.Option.{none, some}
use aikernel_core.Python.Object.{Object}
use aikernel_core.Python.Effect.{Py}
use aikernel_core.Monads.Types.{Result, Dyn}
use aikernel_core.Monads.Result.{bind, map, tap, filter_where}
use aikernel_core.Monads.Result.SelectMany.{project, select_many}
use aikernel_core.Monads.Result.Normal.{
  IsNormal, IsClosed, bind-IsClosed, map-IsClosed, tap-IsClosed, filter_where-IsClosed,
}

module _ {ℓ} {W : Type ℓ} (self : Result) (normal : IsNormal self) (w : W) where
  select_many-IsClosed :
      (binder : Object → Py W Dyn) (projector : Maybe.Option (Object → Object → Py W Object))
      → IsClosed (select_many self binder projector w).0
  unfolding select_many
  select_many-IsClosed binder none = bind-IsClosed self normal w binder
  select_many-IsClosed binder (some projector) =
      bind-IsClosed self normal w (project binder projector)

  -- On a normal result, and whatever the callbacks do, `bind`, `map`, `select_many`, `tap` and
  -- `where` return a normal result, or raise what is no `Exception`.
  pub operations-IsClosed :
      (func action predicate : Object → Py W Object) (binder : Object → Py W Dyn)
      (projector : Maybe.Option (Object → Object → Py W Object))
      → IsClosed (bind self binder w).0
        × IsClosed (map self func w).0
        × IsClosed (select_many self binder projector w).0
        × IsClosed (tap self action w).0
        × IsClosed (filter_where self predicate w).0
  operations-IsClosed func action predicate binder projector = (
    bind-IsClosed self normal w binder,
    map-IsClosed self normal w func,
    select_many-IsClosed binder projector,
    tap-IsClosed self normal w action,
    filter_where-IsClosed self normal w predicate,
  )
