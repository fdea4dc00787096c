-- ===== src/Monads/Result/Laws.antt =====
-- The laws of `bind` and `map` of a `Result`, as equations of what is returned or raised and of the
-- world that is left.
use aikernel_core.Base.{◌≡◌, refl, true, Bool-cases, inl, inr, [], arith, ap, ◌∙◌}
use aikernel_core.Python.Object.{Object, exn, is_exception}
use aikernel_core.Python.Effect.{Outcome, return, raise, Py, pure, ◌>>=◌, proceed, recover}
use aikernel_core.Python.Dict.{update}
use aikernel_core.Python.Dict.Laws.{update-nil}
use aikernel_core.Monads.Types.{Result, Dyn, result, success, failure}
use aikernel_core.Monads.Result.{with_metadata, accept, then_success, bind, map}
use aikernel_core.Monads.Result.Normal.{IsNormal}
use aikernel_core.Monads.Result.Errors.{failure-eq_self, bind-failed, map-failed}

with_metadata_self : (r : Result) → IsNormal r → with_metadata r r.metadata ≡ r
unfolding with_metadata
with_metadata_self r n = elim (Bool-cases r.is_ok) [
  | inl e ↦ rw e (ground (arith, n.no_error e))
  | inr e ↦ rw e (ground (arith, n.no_value e))
]

success-eq_self : (r : Result) → IsNormal r → r.is_ok ≡ true → success r.value r.metadata ≡ r
success-eq_self r n e = ground (arith, n.no_error e)

module _ {ℓ} {W : Type ℓ} where
  -- What `bind` does with what the callback left.
  abbrev pub settle : Result → Outcome Dyn → Py W Result
  settle self o =
      recover o (λ ex. pure (failure (exn ex) self.metadata)) (λ next. pure (accept self next))

  pub bind-succeeded :
      (self : Result) (func : Object → Py W Dyn) (w : W)
      → self.is_ok ≡ true
      → bind self func w ≡ settle self (func self.value w).0 (func self.value w).1
  unfolding bind
  bind-succeeded self func w e = rw e

  -- A callback that returns a normal result is called with the value, and its result is returned.
  pub bind-success :
      (a : Object) (func : Object → Py W Dyn) (r : Result) (w w' : W)
      → IsNormal r
      → func a w ≡ (return (result r), w')
      → bind (success a []) func w ≡ (return r, w')
  unfolding accept
  bind-success a func r w w' n called =
      bind-succeeded (success a []) func w refl
      ∙ rw called (rw (update-nil r.metadata n.distinct, with_metadata_self r n))

  -- Binding `Success` to a normal result returns that result.
  pub bind-pure :
      (self : Result) (w : W) → IsNormal self → bind self (then_success pure) w ≡ (return self, w)
  unfolding accept update
  bind-pure self w n = elim (Bool-cases self.is_ok) [
    | inl e ↦
        bind-succeeded self (then_success pure) w e
        ∙ ap (λ r. (return r, w)) (success-eq_self self n e)
    | inr e ↦
        bind-failed self w e (then_success pure)
        ∙ ap (λ r. (return r, w)) (failure-eq_self self n e)
  ]

  -- What `map` does with what the function left.
  abbrev settle_map : Result → Outcome Object → Py W Result
  settle_map self o =
      recover o (λ ex. pure (failure (exn ex) self.metadata)) (λ v. pure (success v self.metadata))

  settle-then_success :
      (self : Result) (o : Outcome Object) (w : W)
      → (let (o', w') = proceed o (λ v. pure (result (success v []))) w in settle self o' w')
        ≡ settle_map self o w
  unfolding accept update
  settle-then_success self (return v) w = refl
  settle-then_success self (raise e) w = refl

  map-succeeded :
      (self : Result) (func : Object → Py W Object) (w : W)
      → self.is_ok ≡ true
      → map self func w ≡ settle_map self (func self.value w).0 (func self.value w).1
  unfolding map
  map-succeeded self func w e =
      bind-succeeded self (then_success func) w e
      ∙ settle-then_success self (func self.value w).0 (func self.value w).1

  map_after :
      (self : Result) (o : Outcome Object) (g : Object → Py W Object) (w : W)
      → (let (r, w') = settle_map self o w in proceed r (λ r. map r g) w')
        ≡ (let (o', w') = proceed o g w in settle_map self o' w')
  map_after self (return v) g w = map-succeeded (success v self.metadata) g w refl
  map_after self (raise e) g w = elim (Bool-cases (is_exception e)) [
    | inl h ↦ rw h (map-failed (failure (exn e) self.metadata) w refl g)
    | inr h ↦ rw h refl
  ]

  -- Two maps are one map of the composed function, also where one of the functions raises.
  pub map-map :
      (self : Result) (f g : Object → Py W Object) (w : W)
      → (map self f >>= λ r. map r g) w ≡ map self (λ v. f v >>= g) w
  map-map self f g w = elim (Bool-cases self.is_ok) [
    | inl e ↦
        rw (map-succeeded self f w e, map-succeeded self (λ v. f v >>= g) w e)
          (map_after self (f self.value w).0 g (f self.value w).1)
    | inr e ↦
        rw (map-failed self w e f, map-failed self w e (λ v. f v >>= g))
          (map-failed (failure self.error self.metadata) w refl g)
  ]

  -- Binding `Success` to a normal result returns that result; `bind` on a success without metadata
  -- returns the normal result that the callback returns; and two maps of a normal result are one map of
  -- the composed function, also where one of the functions raises.
  pub result_laws :
      (self r : Result) (a : Object) (func : Object → Py W Dyn) (f g : Object → Py W Object)
      (w w' : W)
      → IsNormal self
      → IsNormal r
      → func a w ≡ (return (result r), w')
      → (bind self (then_success pure) w ≡ (return self, w))
        × (bind (success a []) func w ≡ (return r, w'))
        × ((map self f >>= λ x. map x g) w ≡ map self (λ v. f v >>= g) w)
  result_laws self r a func f g w w' n m called =
      (bind-pure self w n, bind-success a func r w w' m called, map-map self f g w)
