-- ===== src/Monads/Option.antt =====
-- The class `Option` of python/src/aikernel_net/monads.py. Nothing is caught here: what a callback
-- raises passes through.
pub mod SelectMany
pub mod Laws
use aikernel_core.Base.{Bool, not, if◌then◌else◌}
use aikernel_core.Python.Object.{Object, type_error, value_error, truthy}
use aikernel_core.Python.Effect.{Outcome, return, raise, Py, pure, throw, ◌>>=◌, ◌>>◌}
use aikernel_core.Monads.Types.{Option, Dyn, option, some, nothing}

unfoldable pub is_none : Option → Bool
is_none self = not self.is_some

unfoldable pub or_else : Option → Object → Object
or_else self fallback = if self.is_some then self.value else fallback

unfoldable pub unwrap : Option → Outcome Object
unwrap self =
    if self.is_some then return self.value else raise (value_error "Cannot unwrap None option.")

module _ {ℓ} {W : Type ℓ} where
  -- The end of `bind`, on what the callback returned.
  abbrev pub accept : Dyn → Py W Option
  accept (option next) = pure next
  accept _ = throw (type_error "Option.bind callback must return Option.")

  unfoldable pub bind : Option → (Object → Py W Dyn) → Py W Option
  unfolding is_none
  bind self func w = if is_none self then pure nothing w else (func self.value >>= accept) w

  -- `lambda value: Some(func(value))`
  abbrev pub then_some : (Object → Py W Object) → Object → Py W Dyn
  then_some func value = func value >>= λ v. pure (option (some v))

  unfoldable pub map : Option → (Object → Py W Object) → Py W Option
  unfolding bind
  map self func = bind self (then_some func)

  unfoldable pub tap : Option → (Object → Py W Object) → Py W Option
  tap self action w = if self.is_some then (action self.value >> pure self) w else pure self w

  -- The end of `where`, on what the predicate returned.
  abbrev pub filtered : Option → Object → Py W Option
  unfolding truthy
  filtered self passed w = if truthy passed then pure self w else pure nothing w

  -- `where`
  unfoldable pub filter_where : Option → (Object → Py W Object) → Py W Option
  unfolding is_none filtered
  filter_where self predicate w =
      if is_none self then pure self w else (predicate self.value >>= filtered self) w

  unfoldable pub match_option {κ} : {A : Type κ} → Option → (Object → Py W A) → Py W A → Py W A
  match_option self on_some on_none w = if self.is_some then on_some self.value w else on_none w
