-- ===== src/Tests/Samples.antt =====
-- Small inputs. The world counts the calls of callbacks.
use aikernel_core.Base.{ℕ, suc, refl, true, [], ◌∷◌}
use aikernel_core.Python.Object.{Object, Exn, custom, exn}
use aikernel_core.Python.Effect.{return, raise, Py}
use aikernel_core.Python.Dict.{contains}
use aikernel_core.Monads.Types.{Metadata, Result, success, failure}
use aikernel_core.Monads.Result.Normal.{IsNormal}

abbrev pub item : ℕ → Object
item n = Object.other n "item" true

abbrev pub boom : Exn
boom = custom 1 "boom"

abbrev pub trace : Metadata
trace = ("trace", Object.text "a") ∷ []

abbrev pub later_trace : Metadata
later_trace = ("trace", Object.text "b") ∷ ("span", Object.text "c") ∷ []

abbrev pub good : Result
good = success (item 1) trace

abbrev pub better : Result
better = success (item 2) later_trace

abbrev pub bad : Result
bad = failure (exn boom) trace

pub good-IsNormal : IsNormal good
unfolding contains
good-IsNormal = record { no_error = λ e. refl; no_value = λ e. cc; distinct = (refl, tt) }

pub better-IsNormal : IsNormal better
unfolding contains
better-IsNormal = record { no_error = λ e. refl; no_value = λ e. cc; distinct = (refl, (refl, tt)) }

pub bad-IsNormal : IsNormal bad
unfolding contains
bad-IsNormal = record { no_error = λ e. cc; no_value = λ e. refl; distinct = (refl, tt) }

abbrev pub give {ℓ} : {A : Type ℓ} → A → Object → Py ℕ A
give a v n = (return a, suc n)

abbrev pub fail {ℓ} : {A : Type ℓ} → Object → Py ℕ A
fail v n = (raise boom, suc n)
