-- ===== src/Monads/Coroutines/Calls.antt =====
-- Calls beside the clock of the event loop, and computations that agree.
use aikernel_core.Base.{ℕ, ◌≡◌, refl, ap, ◌∙◌, Bool-cases, inl, inr}
use aikernel_core.Python.Object.{Object, Exn, is_exception}
use aikernel_core.Python.Effect.{
  Outcome, return, raise, Py, pure, lift, proceed, recover, ◌>>=◌, try_else,
}
use aikernel_core.Python.Effect.Rules.{Outcome-cases}
use aikernel_core.Python.Tasks.{
  Wake, Task, beside, interleaved, await_then, try_await, interleaved-await_then,
  interleaved-try_await,
}
use aikernel_core.Monads.Types.{Dyn, result, option, either, other}
use aikernel_core.Monads.Result
use aikernel_core.Monads.Option
use aikernel_core.Monads.Either
use aikernel_core.Monads.Dyn

module _ {ℓ κ μ} {W : Type ℓ} {A : Type κ} {B : Type μ} where
  pub then-same :
      (m m' : Py W A) (k k' : A → Py W B) (s : W)
      → m s ≡ m' s
      → ((a : A) (u : W) → k a u ≡ k' a u)
      → (m >>= k) s ≡ (m' >>= k') s
  then-same m m' k k' s e h = ap (λ p. proceed p.0 k p.1) e ∙ go (m' s).0 (m' s).1
    where
      go : (o : Outcome A) (u : W) → proceed o k u ≡ proceed o k' u
      go (return a) u = h a u
      go (raise x) u = refl

  pub try-same :
      (m m' : Py W A) (handler handler' : Exn → Py W B) (k k' : A → Py W B) (s : W)
      → m s ≡ m' s
      → ((x : Exn) (u : W) → handler x u ≡ handler' x u)
      → ((a : A) (u : W) → k a u ≡ k' a u)
      → try_else m handler k s ≡ try_else m' handler' k' s
  try-same m m' handler handler' k k' s e c h =
      ap (λ p. recover p.0 handler k p.1) e ∙ go (m' s).0 (m' s).1
    where
      go : (o : Outcome A) (u : W) → recover o handler k u ≡ recover o handler' k' u
      go (return a) u = h a u
      go (raise x) u = elim (Bool-cases (is_exception x)) [
        | inl yes_x ↦ rw yes_x (c x u)
        | inr no_x ↦ rw no_x refl
      ]

module _ {ℓ κ μ ν} {W : Type ℓ} {A : Type κ} {B : Type μ} {C : Type ν} where
  -- What is returned by way of another type.
  pub then-pure :
      (m : Py W A) (f : A → B) (k : B → Py W C) (s : W)
      → (m >>= λ a. k (f a)) s ≡ (m >>= (λ a. pure (f a)) >>= k) s
  then-pure m f k s = let (o, u) = m s in go o u
    where
      go :
          (o : Outcome A) (u : W)
          → proceed o (λ a. k (f a)) u ≡ (lift o >>= (λ a. pure (f a)) >>= k) u
      go (return a) u = refl
      go (raise e) u = refl

module _ {ℓ κ μ} {W : Type ℓ} {A : Type κ} {B : Type μ} (others : ℕ → W → Wake × W) where
  pub same-await_then :
      (t : Task W A) (k : A → Task W B) (m : Py (ℕ × W) A) (k' : A → Py (ℕ × W) B) (s : ℕ × W)
      → interleaved others t s ≡ m s
      → ((a : A) (u : ℕ × W) → interleaved others (k a) u ≡ k' a u)
      → interleaved others (await_then t k) s ≡ (m >>= k') s
  same-await_then t k m k' s e h =
      interleaved-await_then others t k s
      ∙ then-same (interleaved others t) m (λ a. interleaved others (k a)) k' s e h

  pub same-try_await :
      (t : Task W A) (handler : Exn → Task W B) (k : A → Task W B)
      → (m : Py (ℕ × W) A) (handler' : Exn → Py (ℕ × W) B) (k' : A → Py (ℕ × W) B) (s : ℕ × W)
      → interleaved others t s ≡ m s
      → ((x : Exn) (u : ℕ × W) → interleaved others (handler x) u ≡ handler' x u)
      → ((a : A) (u : ℕ × W) → interleaved others (k a) u ≡ k' a u)
      → interleaved others (try_await t handler k) s ≡ try_else m handler' k' s
  same-try_await t handler k m handler' k' s e c h =
      interleaved-try_await others t handler k s
      ∙ try-same (interleaved others t) m (λ x. interleaved others (handler x)) handler'
          (λ a. interleaved others (k a)) k' s e c h

module _ {ℓ} {W : Type ℓ} (func : Object → Py W Object) where
  abbrev pub lifted : Object → Py (ℕ × W) Object
  lifted v = beside (func v)

  pub map-lifted : (d : Dyn) (s : ℕ × W) → Dyn.map d lifted s ≡ beside (Dyn.map d func) s
  unfolding Dyn.map Result.map Result.bind Result.is_err Result.with_metadata Option.map Option.bind
      Option.is_none Either.map Either.bind Either.is_left
  map-lifted (result r) (n, w) = elim (Bool-cases r.is_ok) [
    | inl ok ↦ elim (Outcome-cases (func r.value w).0) [
      | inl (a, e) ↦ simp (ok, e)
      | inr (x, e) ↦ elim (Bool-cases (is_exception x)) [
        | inl c ↦ simp (ok, e, c)
        | inr c ↦ simp (ok, e, c)
      ]
    ]
    | inr failed ↦ simp failed refl
  ]
  map-lifted (option o) (n, w) = elim (Bool-cases o.is_some) [
    | inl ok ↦ elim (Outcome-cases (func o.value w).0) [
      | inl (a, e) ↦ simp (ok, e)
      | inr (x, e) ↦ simp (ok, e)
    ]
    | inr failed ↦ simp failed refl
  ]
  map-lifted (either o) (n, w) = elim (Bool-cases o.is_right) [
    | inl ok ↦ elim (Outcome-cases (func o.right w).0) [
      | inl (a, e) ↦ simp (ok, e)
      | inr (x, e) ↦ simp (ok, e)
    ]
    | inr failed ↦ simp failed refl
  ]
  map-lifted (other _) s = refl
