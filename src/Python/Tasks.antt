-- ===== src/Python/Tasks.antt =====
-- Coroutines with their suspensions, as asyncio runs them. A coroutine ends, does something to the
-- world and goes on at once, or suspends; while it is suspended other tasks act on the world. The
-- event loop resumes it with `send(None)`, or throws an exception in, as the cancelling of a task
-- does with CancelledError, which is no `Exception`.
use aikernel_core.Base.{ℕ, suc, ◌≡◌, refl, Bool-cases, inl, inr, if◌then◌else◌}
use aikernel_core.Python.Object.{Exn, is_exception}
use aikernel_core.Python.Effect.{Outcome, return, raise, Py, ◌>>=◌, try_else}

pub data Wake : Type 0 where
  sent : Wake
  thrown : Exn → Wake

pub data Task {ℓ κ} (W : Type ℓ) (A : Type κ) : Type (ℓ ⊔ κ) where
  ended : Outcome A → Task W A
  does : (W → W) → (W → Task W A) → Task W A
  suspends : (Wake → Task W A) → Task W A

module _ {ℓ κ} {W : Type ℓ} {A : Type κ} where
  -- A call that is not awaited.
  abbrev pub call : Py W A → Task W A
  call m = does (λ w. (m w).1) (λ w. ended (m w).0)

  -- What is computed from the world.
  abbrev pub reads : (W → Task W A) → Task W A
  reads next = does (λ w. w) next

  -- The same call beside the clock of the event loop.
  abbrev pub beside : Py W A → Py (ℕ × W) A
  beside m (n, w) = let (o, u) = m w in (o, (n, u))

  -- A run of a task: at its `n`-th suspension other tasks act on the world and the event loop wakes
  -- the task as `others n` tells.
  unfoldable pub interleaved : (ℕ → W → Wake × W) → Task W A → Py (ℕ × W) A
  interleaved others (ended o) s = (o, s)
  interleaved others (does effect next) (n, w) = interleaved others (next w) (n, effect w)
  interleaved others (suspends resume) (n, w) =
      let (wake, u) = others n w in interleaved others (resume wake) (suc n, u)

module _ {ℓ κ μ} {W : Type ℓ} {A : Type κ} {B : Type μ} where
  -- `k(await t)`
  unfoldable pub await_then : Task W A → (A → Task W B) → Task W B
  await_then (ended (return a)) k = k a
  await_then (ended (raise e)) k = ended (raise e)
  await_then (does effect next) k = does effect (λ w. await_then (next w) k)
  await_then (suspends resume) k = suspends (λ wake. await_then (resume wake) k)

  -- `try: a = await t; except Exception as ex: handler; else: k`
  unfoldable pub try_await : Task W A → (Exn → Task W B) → (A → Task W B) → Task W B
  try_await (ended (return a)) handler k = k a
  try_await (ended (raise e)) handler k = if is_exception e then handler e else ended (raise e)
  try_await (does effect next) handler k = does effect (λ w. try_await (next w) handler k)
  try_await (suspends resume) handler k = suspends (λ wake. try_await (resume wake) handler k)

  module _ (others : ℕ → W → Wake × W) where
    pub interleaved-await_then :
        (t : Task W A) (k : A → Task W B) (s : ℕ × W)
        → interleaved others (await_then t k) s
          ≡ (interleaved others t >>= λ a. interleaved others (k a)) s
    unfolding interleaved await_then
    interleaved-await_then (ended (return a)) k s = refl
    interleaved-await_then (ended (raise e)) k s = refl
    interleaved-await_then (does effect next) k (n, w) =
        interleaved-await_then (next w) k (n, effect w)
    interleaved-await_then (suspends resume) k (n, w) =
        let (wake, u) = others n w in interleaved-await_then (resume wake) k (suc n, u)

    pub interleaved-try_await :
        (t : Task W A) (handler : Exn → Task W B) (k : A → Task W B) (s : ℕ × W)
        → interleaved others (try_await t handler k) s
          ≡ try_else
              (interleaved others t)
              (λ e. interleaved others (handler e))
              (λ a. interleaved others (k a))
              s
    unfolding interleaved try_await
    interleaved-try_await (ended (return a)) handler k s = refl
    interleaved-try_await (ended (raise e)) handler k s = elim (Bool-cases (is_exception e)) [
      | inl c ↦ rw c refl
      | inr c ↦ rw c refl
    ]
    interleaved-try_await (does effect next) handler k (n, w) =
        interleaved-try_await (next w) handler k (n, effect w)
    interleaved-try_await (suspends resume) handler k (n, w) =
        let (wake, u) = others n w in interleaved-try_await (resume wake) handler k (suc n, u)
