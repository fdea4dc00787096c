-- ===== src/Python/Fallible.antt =====
-- Python code that raises and has no other effect.
use aikernel_core.Python.Object.{Exn}
use aikernel_core.Python.Effect.{Outcome, return, raise}
use aikernel_core.Python.Effect.Rules.{Ends}

module _ {ℓ κ} {A : Type ℓ} {B : Type κ} where
  infixl 5 ◌>>=◌ ◌>>◌
  abbrev pub ◌>>=◌ : Outcome A → (A → Outcome B) → Outcome B
  return a >>= k = k a
  raise e >>= k = raise e

  abbrev pub ◌>>◌ : Outcome A → Outcome B → Outcome B
  m >> k = m >>= λ _. k

module _ {ℓ κ μ} {A : Type ℓ} {B : Type κ} (P : A → Type μ) (Q : B → Type μ)
    (R : Exn → Type μ) where
  pub Ends->>= :
      (m : Outcome A) (k : A → Outcome B)
      → Ends P R m
      → ((a : A) → P a → Ends Q R (k a))
      → Ends Q R (m >>= k)
  Ends->>= (return a) k h next = next a h
  Ends->>= (raise e) k h next = h
