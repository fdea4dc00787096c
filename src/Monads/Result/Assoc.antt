-- ===== src/Monads/Result/Assoc.antt =====
-- `bind` of a `Result` is associative.
use aikernel_core.Base.{◌≡◌, refl, ap, ◌∙◌, Bool-cases, inl, inr, arith}
use aikernel_core.Python.Object.{Object, exn, is_exception}
use aikernel_core.Python.Effect.{Outcome, return, raise, Py, pure, ◌>>=◌, proceed}
use aikernel_core.Python.Dict.{update}
use aikernel_core.Python.Dict.Laws.{IsDict, update_assoc}
use aikernel_core.Monads.Types.{Result, Dyn, result, option, either, other, success, failure}
use aikernel_core.Monads.Result.{with_metadata, accept, bind}
use aikernel_core.Monads.Result.Errors.{bind-failed}
use aikernel_core.Monads.Result.Laws.{settle, bind-succeeded}

-- A `Result` whose metadata has distinct keys, or an exception.
abbrev pub IsResult : Outcome Dyn → Type 0
IsResult (return (result r)) = IsDict r.metadata
IsResult (return _) = ⊥
IsResult (raise e) = Unit

accept-accept :
    (self r : Result) (d : Dyn)
    → IsDict r.metadata
    → accept (success r.value (update self.metadata r.metadata)) d
      ≡ accept self (result (accept r d))
unfolding accept with_metadata
accept-accept self r (result s) h =
    ground (arith, update_assoc self.metadata r.metadata s.metadata h)
accept-accept self r _ h = refl

module _ {ℓ} {W : Type ℓ} where
  -- `monad.bind(func)`, where `monad` is a `Result`
  abbrev pub bind_reply : Dyn → (Object → Py W Dyn) → Py W Dyn
  bind_reply (result r) func = bind r func >>= λ s. pure (result s)
  bind_reply reply func = pure reply

  settle-settle :
      (self r : Result) (o : Outcome Dyn) (w : W)
      → IsDict r.metadata
      → settle (success r.value (update self.metadata r.metadata)) o w
        ≡ (let (o', w') = (settle r o >>= λ s. pure (result s)) w in settle self o' w')
  unfolding accept with_metadata
  settle-settle self r (return d) w h = ap (λ x. (return x, w)) (accept-accept self r d h)
  settle-settle self r (raise e) w h = elim (Bool-cases (is_exception e)) [
    | inl caught ↦ rw caught refl
    | inr passed ↦ rw passed (rw passed refl)
  ]

  bind-accept :
      (self r : Result) (g : Object → Py W Dyn) (w : W)
      → IsDict r.metadata
      → bind (accept self (result r)) g w
        ≡ (let (o, w') = (bind r g >>= λ s. pure (result s)) w in settle self o w')
  unfolding accept with_metadata
  bind-accept self r g w h = elim (Bool-cases r.is_ok) [
    | inl e ↦
        rw (bind-succeeded r g w e, e)
          (bind-succeeded (success r.value (update self.metadata r.metadata)) g w refl
            ∙ settle-settle self r (g r.value w).0 (g r.value w).1 h)
    | inr e ↦
        rw (bind-failed r w e g, e)
          (bind-failed (failure r.error (update self.metadata r.metadata)) w refl g)
  ]

  bind_after :
      (self : Result) (o : Outcome Dyn) (g : Object → Py W Dyn) (w : W)
      → IsResult o
      → (let (r, w') = settle self o w in proceed r (λ r. bind r g) w')
        ≡ (let (o', w') = proceed o (λ d. bind_reply d g) w in settle self o' w')
  bind_after self (return (result r)) g w h = bind-accept self r g w h
  bind_after self (return (option _)) g w h = absurd h
  bind_after self (return (either _)) g w h = absurd h
  bind_after self (return (other _)) g w h = absurd h
  bind_after self (raise e) g w h = elim (Bool-cases (is_exception e)) [
    | inl caught ↦ rw caught (bind-failed (failure (exn e) self.metadata) w refl g)
    | inr passed ↦ rw passed refl
  ]

  -- `bind` is associative where the first callback returns a `Result` whose metadata has distinct
  -- keys, or raises: binding twice has the effects, the result and the metadata of one `bind` whose
  -- callback binds. The second callback may return or raise anything.
  pub bind_assoc :
      (self : Result) (f g : Object → Py W Dyn) (w : W)
      → ((v : Object) (u : W) → IsResult (f v u).0)
      → (bind self f >>= λ r. bind r g) w ≡ bind self (λ v. f v >>= λ d. bind_reply d g) w
  bind_assoc self f g w h = elim (Bool-cases self.is_ok) [
    | inl e ↦
        rw (bind-succeeded self f w e, bind-succeeded self (λ v. f v >>= λ d. bind_reply d g) w e)
          (bind_after self (f self.value w).0 g (f self.value w).1 (h self.value w))
    | inr e ↦
        rw (bind-failed self w e f, bind-failed self w e (λ v. f v >>= λ d. bind_reply d g))
          (bind-failed (failure self.error self.metadata) w refl g)
  ]
