-- ===== src/Monads/Result/Errors.antt =====
-- What the operations of a `Result` do on an error.
use mathlib.Core.Option as Maybe
use mathlib.Core.Option.{none, some}
use aikernel_core.Base.{◌≡◌, false, arith, ap, ◌∙◌}
use aikernel_core.Python.Object.{Object}
use aikernel_core.Python.Effect.{Py, return}
use aikernel_core.Monads.Types.{Result, Dyn, failure}
use aikernel_core.Monads.Result.{then_success, bind, map, tap, filter_where}
use aikernel_core.Monads.Result.SelectMany.{project, select_many}
use aikernel_core.Monads.Result.Normal.{IsNormal}

pub failure-eq_self : (r : Result) → IsNormal r → r.is_ok ≡ false → failure r.error r.metadata ≡ r
failure-eq_self r n e = ground (arith, n.no_value e)

module _ {ℓ} {W : Type ℓ} (self : Result) (w : W) (failed : self.is_ok ≡ false) where
  pub bind-failed :
      (func : Object → Py W Dyn) → bind self func w ≡ (return (failure self.error self.metadata), w)
  unfolding bind
  bind-failed func = rw failed

  pub map-failed :
      (func : Object → Py W Object)
      → map self func w ≡ (return (failure self.error self.metadata), w)
  unfolding map
  map-failed func = bind-failed (then_success func)

  select_many-failed :
      (binder : Object → Py W Dyn) (projector : Maybe.Option (Object → Object → Py W Object))
      → select_many self binder projector w ≡ (return (failure self.error self.metadata), w)
  unfolding select_many
  select_many-failed binder none = bind-failed binder
  select_many-failed binder (some projector) = bind-failed (project binder projector)

  tap-failed :
      (action : Object → Py W Object)
      → tap self action w ≡ (return (failure self.error self.metadata), w)
  unfolding tap
  tap-failed action = rw failed

  filter_where-failed :
      (predicate : Object → Py W Object)
      → filter_where self predicate w ≡ (return (failure self.error self.metadata), w)
  unfolding filter_where
  filter_where-failed predicate = rw failed

-- On a normal result that holds an error, `bind`, `map`, `select_many`, `tap` and `where` return
-- that result, with its metadata, and call no callback: the world is as before.
pub error_short_circuits {ℓ} :
    {W : Type ℓ} (self : Result) (w : W) (func action predicate : Object → Py W Object)
    (binder : Object → Py W Dyn) (projector : Maybe.Option (Object → Object → Py W Object))
    → IsNormal self
    → self.is_ok ≡ false
    → (bind self binder w ≡ (return self, w))
      × (map self func w ≡ (return self, w))
      × (select_many self binder projector w ≡ (return self, w))
      × (tap self action w ≡ (return self, w))
      × (filter_where self predicate w ≡ (return self, w))
error_short_circuits self w func action predicate binder projector normal failed =
    let unchanged = ap (λ r. (return r, w)) (failure-eq_self self normal failed) in
    (
      bind-failed self w failed binder ∙ unchanged,
      map-failed self w failed func ∙ unchanged,
      select_many-failed self w failed binder projector ∙ unchanged,
      tap-failed self w failed action ∙ unchanged,
      filter_where-failed self w failed predicate ∙ unchanged,
    )
