-- ===== src/Monads/Result/Trace.antt =====
-- What `bind` does with metadata.
use aikernel_core.Base.{
  ◌≡◌, refl, true, Bool-cases, inl, inr, arith, String, subst, ◌∙◌, if◌then◌else◌,
}
use aikernel_core.Python.Object.{Object, is_exception}
use aikernel_core.Python.Effect.{Outcome, return, raise, Py}
use aikernel_core.Python.Effect.Rules.{Ends}
use aikernel_core.Python.Dict.{get, contains}
use aikernel_core.Python.Dict.Laws.{IsDict, contains-update, get-update}
use aikernel_core.Monads.Types.{Result, Dyn, result}
use aikernel_core.Monads.Result.{with_metadata, accept, bind}
use aikernel_core.Monads.Result.Normal.{IsNormal}
use aikernel_core.Monads.Result.Errors.{bind-failed}
use aikernel_core.Monads.Result.Laws.{settle, bind-succeeded}

-- What is returned has the key.
abbrev Keeps : String → Outcome Result → Type 0
Keeps key = Ends (λ r. contains key r.metadata ≡ true) (λ e. Unit)

accept-fields :
    (self next : Result)
    → IsNormal next
    → ((accept self (result next)).value ≡ next.value)
      × ((accept self (result next)).error ≡ next.error)
unfolding accept with_metadata
accept-fields self next n = ground (arith, n.no_error, n.no_value)

get-accept :
    (key : String) (self next : Result)
    → IsDict next.metadata
    → get key (accept self (result next)).metadata
      ≡ (if contains key next.metadata then get key next.metadata else get key self.metadata)
unfolding accept with_metadata
get-accept key self next h = ground (arith, get-update key self.metadata next.metadata)

module _ {ℓ} {W : Type ℓ} (key : String) where
  settle-Keeps :
      (self : Result) (o : Outcome Dyn) (w : W)
      → contains key self.metadata ≡ true
      → Keeps key (settle self o w).0
  unfolding accept with_metadata
  settle-Keeps self (return (result next)) w known =
      ground (arith, contains-update key self.metadata next.metadata)
  settle-Keeps self (return _) w known = known
  settle-Keeps self (raise e) w known = elim (Bool-cases (is_exception e)) [
    | inl caught ↦ rw caught known
    | inr passed ↦ rw passed tt
  ]

  bind-Keeps :
      (self : Result) (func : Object → Py W Dyn) (w : W)
      → contains key self.metadata ≡ true
      → Keeps key (bind self func w).0
  bind-Keeps self func w known = elim (Bool-cases self.is_ok) [
    | inl e ↦
        rw (bind-succeeded self func w e)
          (settle-Keeps self (func self.value w).0 (func self.value w).1 known)
    | inr e ↦ rw (bind-failed self w e func) known
  ]

  -- `bind` forgets no key of the metadata, also where the result is an error, and where the
  -- callback fails, raises or returns what is no `Result`.
  pub contains-bind :
      (self : Result) (func : Object → Py W Dyn) (w : W) (r : Result)
      → contains key self.metadata ≡ true
      → (bind self func w).0 ≡ return r
      → contains key r.metadata ≡ true
  contains-bind self func w r known returned =
      subst (Keeps key) returned (bind-Keeps self func w known)

  -- Where the callback of a successful `Result` returns a normal `Result`, successful or not,
  -- `bind` returns that one's value and error, under the metadata of both: a key has its value in
  -- the callback's metadata, if it is there, and else the value that it had.
  pub get-bind :
      (self next : Result) (func : Object → Py W Dyn) (w w' : W)
      → IsNormal next
      → self.is_ok ≡ true
      → func self.value w ≡ (return (result next), w')
      → (r : Result) × (bind self func w ≡ (return r, w'))
        × (r.is_ok ≡ next.is_ok)
        × (r.value ≡ next.value)
        × (r.error ≡ next.error)
        × (get key r.metadata
            ≡ (if contains key next.metadata then get key next.metadata else get key self.metadata))
  unfolding accept with_metadata
  get-bind self next func w w' n ok called = (
    accept self (result next),
    bind-succeeded self func w ok ∙ rw called refl,
    ground arith,
    (accept-fields self next n).0,
    (accept-fields self next n).1,
    get-accept key self next n.distinct,
  )
