-- ===== src/Monads/AsyncEither/Suspended.antt =====
-- The methods of `AsyncEither` with their suspensions, beside the methods on what awaiting does.
pub mod SelectMany
pub mod Sync
use aikernel_core.Base.{ℕ, ◌≡◌, refl, sym, ◌∙◌, Bool-cases, inl, inr}
use aikernel_core.Python.Object.{Object, truthy}
use aikernel_core.Python.Effect.{Py, pure, ◌>>=◌}
use aikernel_core.Python.Tasks.{Wake, Task, call, beside, interleaved, await_then}
use aikernel_core.Monads.Types.{Either, Dyn, either, left}
use aikernel_core.Monads.Either
use aikernel_core.Monads.Dyn
use aikernel_core.Monads.Async.{AsyncEither, observe, resolve_either, as_either}
use aikernel_core.Monads.AsyncEither
use aikernel_core.Monads.AsyncEither.{bind_run, tap_run, where_run, filtered}
use aikernel_core.Monads.Coroutines.{
  TaskReply, give, resolved_task, resolve_either_task, as_either_task,
}
use aikernel_core.Monads.Coroutines.EitherMethods.{
  map_task, bind_run_task, bind_task, tap_run_task, tap_task, filtered_task, where_run_task,
  where_task,
}
use aikernel_core.Monads.Coroutines.Calls.{then-pure, same-await_then, lifted, map-lifted}
use aikernel_core.Monads.Coroutines.Replies.{
  as_reply, replying, observing, interleaved-either, interleaved-resolve_either,
  interleaved-observing,
}

module _ {ℓ} {W : Type ℓ} (others : ℕ → W → Wake × W) where
  -- What awaiting a task does, what other tasks do meanwhile included.
  abbrev pub awaited : Task W Dyn → AsyncEither (ℕ × W)
  awaited t = record { awaitable = interleaved others t }

  pub map-interleaved :
      (self : Task W Dyn) (func : Object → Py W Object) (s : ℕ × W)
      → interleaved others (map_task self func) s
        ≡ (AsyncEither.map (awaited self) (lifted func)).awaitable s
  unfolding interleaved map_task AsyncEither.map
  map-interleaved self func s =
      same-await_then others self (λ d. call (Dyn.map d func)) (interleaved others self)
        (λ d. Dyn.map d (lifted func)) s refl (λ d u. sym (map-lifted func d u))

  bind_run-interleaved :
      (func : Object → Py W (TaskReply W Dyn)) (x : Either) (s : ℕ × W)
      → interleaved others (bind_run_task func x) s ≡ bind_run (replying others func) x s
  unfolding interleaved bind_run_task await_then Either.is_left Either.unwrap bind_run
  bind_run-interleaved func x s = elim (Bool-cases x.is_right) [
    | inl yes_x ↦ simp yes_x (
        same-await_then others (await_then (call (func x.right)) resolve_either_task)
          (λ y. give (either y)) (replying others func x.right >>= resolve_either)
          (λ y. pure (either y)) s
          (same-await_then others (call (func x.right)) resolve_either_task (beside (func x.right))
              (λ reply. resolve_either (as_reply others reply)) s refl
              (interleaved-resolve_either others)
            ∙ then-pure (beside (func x.right)) (as_reply others) resolve_either s)
          (λ y u. refl))
    | inr no_x ↦ simp no_x refl
  ]

  pub bind-interleaved :
      (self : Task W Dyn) (func : Object → Py W (TaskReply W Dyn)) (s : ℕ × W)
      → interleaved others (bind_task self func) s
        ≡ (AsyncEither.bind (awaited self) (replying others func)).awaitable s
  unfolding bind_task AsyncEither.bind
  bind-interleaved self func s =
      same-await_then others (await_then self as_either_task) (bind_run_task func)
        (interleaved others self >>= as_either) (bind_run (replying others func)) s
        (interleaved-either others self s) (bind_run-interleaved func)

  tap_run-interleaved :
      (action : Object → Py W (TaskReply W Object)) (x : Either) (s : ℕ × W)
      → interleaved others (tap_run_task action x) s ≡ tap_run (observing others action) x s
  unfolding interleaved tap_run_task await_then Either.unwrap tap_run
  tap_run-interleaved action x s = elim (Bool-cases x.is_right) [
    | inl yes_x ↦ simp yes_x (
        same-await_then others (await_then (call (action x.right)) resolved_task)
          (λ _. give (either x)) (observing others action x.right >>= observe)
          (λ _. pure (either x)) s (interleaved-observing others action x.right s) (λ v u. refl))
    | inr no_x ↦ simp no_x refl
  ]

  pub tap-interleaved :
      (self : Task W Dyn) (action : Object → Py W (TaskReply W Object)) (s : ℕ × W)
      → interleaved others (tap_task self action) s
        ≡ (AsyncEither.tap (awaited self) (observing others action)).awaitable s
  unfolding tap_task AsyncEither.tap
  tap-interleaved self action s =
      same-await_then others (await_then self as_either_task) (tap_run_task action)
        (interleaved others self >>= as_either) (tap_run (observing others action)) s
        (interleaved-either others self s) (tap_run-interleaved action)

  left-interleaved :
      (left_factory : Py W Object) (s : ℕ × W)
      → interleaved others (await_then (call left_factory) (λ l. give (either (left l)))) s
        ≡ (beside left_factory >>= λ l. pure (either (left l))) s
  unfolding interleaved
  left-interleaved left_factory s =
      same-await_then others (call left_factory) (λ l. give (either (left l))) (beside left_factory)
        (λ l. pure (either (left l))) s refl (λ l u. refl)

  filtered-interleaved :
      (x : Either) (left_factory : Py W Object) (passed : Object) (s : ℕ × W)
      → interleaved others (filtered_task x left_factory passed) s
        ≡ filtered x (beside left_factory) passed s
  unfolding interleaved filtered_task filtered truthy await_then
  filtered-interleaved x left_factory passed s = elim (Bool-cases (truthy passed)) [
    | inl yes_passed ↦ simp yes_passed refl
    | inr no_passed ↦ simp no_passed (left-interleaved left_factory s)
  ]

  where_run-interleaved :
      (predicate : Object → Py W (TaskReply W Object)) (left_factory : Py W Object) (x : Either)
      (s : ℕ × W)
      → interleaved others (where_run_task predicate left_factory x) s
        ≡ where_run (observing others predicate) (beside left_factory) x s
  unfolding interleaved where_run_task await_then Either.is_left Either.unwrap where_run
  where_run-interleaved predicate left_factory x s = elim (Bool-cases x.is_right) [
    | inl yes_x ↦ simp yes_x (
        same-await_then others (await_then (call (predicate x.right)) resolved_task)
          (filtered_task x left_factory) (observing others predicate x.right >>= observe)
          (filtered x (beside left_factory)) s (interleaved-observing others predicate x.right s)
          (filtered-interleaved x left_factory))
    | inr no_x ↦ simp no_x refl
  ]

  pub where-interleaved :
      (self : Task W Dyn) (predicate : Object → Py W (TaskReply W Object))
      (left_factory : Py W Object) (s : ℕ × W)
      → interleaved others (where_task self predicate left_factory) s
        ≡ (AsyncEither.filter_where
              (awaited self)
              (observing others predicate)
              (beside left_factory)).awaitable
            s
  unfolding where_task AsyncEither.filter_where
  where-interleaved self predicate left_factory s =
      same-await_then others (await_then self as_either_task)
        (where_run_task predicate left_factory) (interleaved others self >>= as_either)
        (where_run (observing others predicate) (beside left_factory)) s
        (interleaved-either others self s) (where_run-interleaved predicate left_factory)
