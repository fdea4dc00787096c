-- ===== src/Monads/Result/Normal.antt =====
-- What the operations of a `Result` that return one keep: the shape that the factories give, and that only what
-- is no `Exception` is raised.
use aikernel_core.Base.{◌≡◌, true, false, arith, if◌then◌else◌}
use aikernel_core.Python.Object.{Object, exn, value_error, truthy}
use aikernel_core.Python.Effect.{Outcome, Py, pure, try_else}
use aikernel_core.Python.Effect.Rules.{Ends, Passing, Ends-if, Ends-try_else}
use aikernel_core.Python.Dict.{update}
use aikernel_core.Python.Dict.Laws.{IsDict, update-IsDict}
use aikernel_core.Monads.Types.{Metadata, Result, Dyn, result, success, failure}
use aikernel_core.Monads.Result.{
  is_err, with_metadata, accept, then_success, bind, map, tap, filtered, filter_where,
}

-- Only the slot that `is_ok` names is filled, and the metadata has distinct keys.
pub record IsNormal (r : Result) : Type 0 where
  pub no_error : r.is_ok ≡ true → r.error ≡ Object.none
  pub no_value : r.is_ok ≡ false → r.value ≡ Object.none
  pub distinct : IsDict r.metadata

abbrev pub IsClosed : Outcome Result → Type 0
IsClosed = Ends IsNormal Passing

pub success-IsNormal : (v : Object) (m : Metadata) → IsDict m → IsNormal (success v m)
success-IsNormal v m h = ground arith

pub failure-IsNormal : (e : Object) (m : Metadata) → IsDict m → IsNormal (failure e m)
failure-IsNormal e m h = ground arith

pub with_metadata-IsNormal : (r : Result) (m : Metadata) → IsDict m → IsNormal (with_metadata r m)
unfolding with_metadata
with_metadata-IsNormal r m h = ground arith

accept-IsNormal : (self : Result) (next : Dyn) → IsDict self.metadata → IsNormal (accept self next)
unfolding accept with_metadata
accept-IsNormal self (result next) h =
    with_metadata-IsNormal next (update self.metadata next.metadata)
      (update-IsDict self.metadata next.metadata h)
accept-IsNormal self _ h = failure-IsNormal _ self.metadata h

module _ {ℓ} {W : Type ℓ} (self : Result) (normal : IsNormal self) (w : W) where
  -- The shape of these operations: an error passes, an exception of the callback becomes an error.
  guarded-IsClosed {κ} :
      {A : Type κ} (m : Py W A) (k : A → Py W Result)
      → ((a : A) (w' : W) → IsClosed (k a w').0)
      → IsClosed
          (if is_err self
            then pure (failure self.error self.metadata) w
            else try_else m (λ ex. pure (failure (exn ex) self.metadata)) k w).0
  guarded-IsClosed m k next =
      Ends-if IsNormal Passing (is_err self) (pure (failure self.error self.metadata) w)
        (try_else m (λ ex. pure (failure (exn ex) self.metadata)) k w)
        (λ _. failure-IsNormal self.error self.metadata normal.distinct)
        λ _.
          Ends-try_else IsNormal Passing m (λ ex. pure (failure (exn ex) self.metadata)) k w
            (λ e w' _. failure-IsNormal (exn e) self.metadata normal.distinct) (λ e h. h) next

  pub bind-IsClosed : (func : Object → Py W Dyn) → IsClosed (bind self func w).0
  unfolding bind
  bind-IsClosed func =
      guarded-IsClosed (func self.value) (λ next. pure (accept self next))
        (λ d w'. accept-IsNormal self d normal.distinct)

  pub tap-IsClosed : (action : Object → Py W Object) → IsClosed (tap self action w).0
  unfolding tap
  tap-IsClosed action = guarded-IsClosed (action self.value) (λ _. pure self) (λ _ w'. normal)

  pub filter_where-IsClosed :
      (predicate : Object → Py W Object) → IsClosed (filter_where self predicate w).0
  unfolding filter_where
  filter_where-IsClosed predicate =
      guarded-IsClosed (predicate self.value) (filtered self) λ passed w'.
        Ends-if IsNormal Passing (truthy passed) (pure self w')
          (pure (failure (exn (value_error "Predicate failed")) self.metadata) w') (λ _. normal)
          (λ _. failure-IsNormal _ self.metadata normal.distinct)

  pub map-IsClosed : (func : Object → Py W Object) → IsClosed (map self func w).0
  unfolding map
  map-IsClosed func = bind-IsClosed (then_success func)
