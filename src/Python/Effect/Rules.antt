-- ===== src/Python/Effect/Rules.antt =====
-- How a computation ends, with a rule for each way to build one.
use aikernel_core.Base.{◌⊎◌, ◌≡◌, refl, Bool, true, false, Bool-cases, inl, inr, if◌then◌else◌}
use aikernel_core.Python.Object.{Exn, is_exception}
use aikernel_core.Python.Effect.{Outcome, return, raise, Py, pure, recover, try_else, try_except}

pub Outcome-cases {ℓ} :
    {A : Type ℓ} (o : Outcome A) → ((a : A) × (o ≡ return a)) ⊎ ((e : Exn) × (o ≡ raise e))
Outcome-cases (return a) = inl (a, refl)
Outcome-cases (raise e) = inr (e, refl)

-- A value that is returned has `P`, and an exception that is raised has `R`.
abbrev pub Ends {ℓ κ} : {A : Type ℓ} → (A → Type κ) → (Exn → Type κ) → Outcome A → Type κ
Ends P R (return a) = P a
Ends P R (raise e) = R e

module _ {ℓ κ μ} {W : Type ℓ} {A : Type κ} (P : A → Type μ) (R : Exn → Type μ) where
  pub Ends-if :
      (b : Bool) (x y : Outcome A × W)
      → (b ≡ true → Ends P R x.0)
      → (b ≡ false → Ends P R y.0)
      → Ends P R (if b then x else y).0
  Ends-if true x y p q = p refl
  Ends-if false x y p q = q refl

module _ {ℓ κ μ ν} {W : Type ℓ} {A : Type κ} {B : Type ν} (P : B → Type μ) (R : Exn → Type μ) where
  Ends-recover :
      (o : Outcome A) (handler : Exn → Py W B) (k : A → Py W B) (w : W)
      → ((e : Exn) → is_exception e ≡ true → Ends P R (handler e w).0)
      → ((e : Exn) → is_exception e ≡ false → R e)
      → ((a : A) → Ends P R (k a w).0)
      → Ends P R (recover o handler k w).0
  Ends-recover (return a) handler k w caught passed done = done a
  Ends-recover (raise e) handler k w caught passed done = elim (Bool-cases (is_exception e)) [
    | inl yes_e ↦ rw yes_e (caught e yes_e)
    | inr no_e ↦ rw no_e (passed e no_e)
  ]

  pub Ends-try_else :
      (m : Py W A) (handler : Exn → Py W B) (k : A → Py W B) (w : W)
      → ((e : Exn) (w' : W) → is_exception e ≡ true → Ends P R (handler e w').0)
      → ((e : Exn) → is_exception e ≡ false → R e)
      → ((a : A) (w' : W) → Ends P R (k a w').0)
      → Ends P R (try_else m handler k w).0
  Ends-try_else m handler k w caught passed done =
      let (o, w') = m w in Ends-recover o handler k w' (λ e. caught e w') passed (λ a. done a w')

-- Only what is no `Exception` is raised, so that it passes through the handlers.
abbrev pub Passing : Exn → Type 0
Passing e = is_exception e ≡ false

abbrev pub RaisesNoException {ℓ} : {A : Type ℓ} → Outcome A → Type 0
RaisesNoException = Ends (λ a. Unit) Passing

module _ {ℓ κ} {W : Type ℓ} {A : Type κ} where
  -- A handler that is never called.
  pub try_except-passing :
      (m : Py W A) (handler : Exn → Py W A) (w : W)
      → RaisesNoException (m w).0
      → try_except m handler w ≡ m w
  try_except-passing m handler w h = let (o, w') = m w in go o w' h
    where
      go : (o : Outcome A) (u : W) → RaisesNoException o → recover o handler pure u ≡ (o, u)
      go (return a) u h = refl
      go (raise e) u h = rw h refl
