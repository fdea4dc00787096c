-- ===== src/Python/Effect.antt =====
-- A Python computation: it acts on the world `W` of the caller's code, and returns or raises. What
-- was done before a raise stays done. An awaitable is the computation that awaiting it performs.
pub mod Rules
use aikernel_core.Base.{if◌then◌else◌}
use aikernel_core.Python.Object.{Exn, is_exception}

pub data Outcome {ℓ} (A : Type ℓ) : Type ℓ where
  return : A → Outcome A
  raise : Exn → Outcome A

abbrev pub Py {ℓ κ} : Type ℓ → Type κ → Type (ℓ ⊔ κ)
Py W A = W → Outcome A × W

module _ {ℓ κ} {W : Type ℓ} {A : Type κ} where
  abbrev pub pure : A → Py W A
  pure a w = (return a, w)

  abbrev pub throw : Exn → Py W A
  throw e w = (raise e, w)

  -- What has been computed without effects.
  abbrev pub lift : Outcome A → Py W A
  lift o w = (o, w)

module _ {ℓ κ μ} {W : Type ℓ} {A : Type κ} {B : Type μ} where
  abbrev pub proceed : Outcome A → (A → Py W B) → Py W B
  proceed (return a) k w = k a w
  proceed (raise e) k w = (raise e, w)

  infixl 5 ◌>>=◌ ◌>>◌
  abbrev pub ◌>>=◌ : Py W A → (A → Py W B) → Py W B
  ◌>>=◌ m k w = let (o, w') = m w in proceed o k w'

  abbrev pub ◌>>◌ : Py W A → Py W B → Py W B
  m >> k = m >>= λ _. k

  -- How `try: a = m; except Exception as ex: handler; else: k` goes on after `m`. What is raised
  -- and is no `Exception` passes through.
  abbrev pub recover : Outcome A → (Exn → Py W B) → (A → Py W B) → Py W B
  recover (return a) handler k w = k a w
  recover (raise e) handler k w = if is_exception e then handler e w else (raise e, w)

  abbrev pub try_else : Py W A → (Exn → Py W B) → (A → Py W B) → Py W B
  try_else m handler k w = let (o, w') = m w in recover o handler k w'

module _ {ℓ κ} {W : Type ℓ} {A : Type κ} where
  abbrev pub try_except : Py W A → (Exn → Py W A) → Py W A
  try_except m handler = try_else m handler pure
