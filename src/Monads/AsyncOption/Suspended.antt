-- ===== src/Monads/AsyncOption/Suspended.antt =====
-- The methods of `AsyncOption` with their suspensions, beside the methods on what awaiting does.
pub mod SelectMany
pub mod Sync
use aikernel_core.Base.{ℕ, ◌≡◌, refl, sym, ◌∙◌, Bool-cases, inl, inr}
use aikernel_core.Python.Object.{Object, truthy}
use aikernel_core.Python.Effect.{Py, pure, ◌>>=◌}
use aikernel_core.Python.Tasks.{Wake, Task, call, beside, interleaved, await_then}
use aikernel_core.Monads.Types.{Option, Dyn, option}
use aikernel_core.Monads.Option
use aikernel_core.Monads.Dyn
use aikernel_core.Monads.Async.{AsyncOption, observe, resolve_option, as_option}
use aikernel_core.Monads.AsyncOption
use aikernel_core.Monads.AsyncOption.{bind_run, tap_run, where_run, filtered}
use aikernel_core.Monads.Coroutines.{
  TaskReply, give, resolved_task, resolve_option_task, as_option_task,
}
use aikernel_core.Monads.Coroutines.OptionMethods.{
  map_task, bind_run_task, bind_task, tap_run_task, tap_task, filtered_task, where_run_task,
  where_task,
}
use aikernel_core.Monads.Coroutines.Calls.{then-pure, same-await_then, lifted, map-lifted}
use aikernel_core.Monads.Coroutines.Replies.{
  as_reply, replying, observing, interleaved-option, interleaved-resolve_option,
  interleaved-observing,
}

module _ {ℓ} {W : Type ℓ} (others : ℕ → W → Wake × W) where
  -- What awaiting a task does, what other tasks do meanwhile included.
  abbrev pub awaited : Task W Dyn → AsyncOption (ℕ × W)
  awaited t = record { awaitable = interleaved others t }

  pub map-interleaved :
      (self : Task W Dyn) (func : Object → Py W Object) (s : ℕ × W)
      → interleaved others (map_task self func) s
        ≡ (AsyncOption.map (awaited self) (lifted func)).awaitable s
  unfolding interleaved map_task AsyncOption.map
  map-interleaved self func s =
      same-await_then others self (λ d. call (Dyn.map d func)) (interleaved others self)
        (λ d. Dyn.map d (lifted func)) s refl (λ d u. sym (map-lifted func d u))

  bind_run-interleaved :
      (func : Object → Py W (TaskReply W Dyn)) (x : Option) (s : ℕ × W)
      → interleaved others (bind_run_task func x) s ≡ bind_run (replying others func) x s
  unfolding interleaved bind_run_task await_then Option.is_none Option.unwrap bind_run
  bind_run-interleaved func x s = elim (Bool-cases x.is_some) [
    | inl yes_x ↦ simp yes_x (
        same-await_then others (await_then (call (func x.value)) resolve_option_task)
          (λ y. give (option y)) (replying others func x.value >>= resolve_option)
          (λ y. pure (option y)) s
          (same-await_then others (call (func x.value)) resolve_option_task (beside (func x.value))
              (λ reply. resolve_option (as_reply others reply)) s refl
              (interleaved-resolve_option others)
            ∙ then-pure (beside (func x.value)) (as_reply others) resolve_option s)
          (λ y u. refl))
    | inr no_x ↦ simp no_x refl
  ]

  pub bind-interleaved :
      (self : Task W Dyn) (func : Object → Py W (TaskReply W Dyn)) (s : ℕ × W)
      → interleaved others (bind_task self func) s
        ≡ (AsyncOption.bind (awaited self) (replying others func)).awaitable s
  unfolding bind_task AsyncOption.bind
  bind-interleaved self func s =
      same-await_then others (await_then self as_option_task) (bind_run_task func)
        (interleaved others self >>= as_option) (bind_run (replying others func)) s
        (interleaved-option others self s) (bind_run-interleaved func)

  tap_run-interleaved :
      (action : Object → Py W (TaskReply W Object)) (x : Option) (s : ℕ × W)
      → interleaved others (tap_run_task action x) s ≡ tap_run (observing others action) x s
  unfolding interleaved tap_run_task await_then Option.unwrap tap_run
  tap_run-interleaved action x s = elim (Bool-cases x.is_some) [
    | inl yes_x ↦ simp yes_x (
        same-await_then others (await_then (call (action x.value)) resolved_task)
          (λ _. give (option x)) (observing others action x.value >>= observe)
          (λ _. pure (option x)) s (interleaved-observing others action x.value s) (λ v u. refl))
    | inr no_x ↦ simp no_x refl
  ]

  pub tap-interleaved :
      (self : Task W Dyn) (action : Object → Py W (TaskReply W Object)) (s : ℕ × W)
      → interleaved others (tap_task self action) s
        ≡ (AsyncOption.tap (awaited self) (observing others action)).awaitable s
  unfolding tap_task AsyncOption.tap
  tap-interleaved self action s =
      same-await_then others (await_then self as_option_task) (tap_run_task action)
        (interleaved others self >>= as_option) (tap_run (observing others action)) s
        (interleaved-option others self s) (tap_run-interleaved action)

  filtered-interleaved :
      (x : Option) (passed : Object) (s : ℕ × W)
      → interleaved others (filtered_task x passed) s ≡ filtered x passed s
  unfolding interleaved filtered_task filtered truthy await_then
  filtered-interleaved x passed s = elim (Bool-cases (truthy passed)) [
    | inl yes_passed ↦ simp yes_passed refl
    | inr no_passed ↦ simp no_passed refl
  ]

  where_run-interleaved :
      (predicate : Object → Py W (TaskReply W Object)) (x : Option) (s : ℕ × W)
      → interleaved others (where_run_task predicate x) s
        ≡ where_run (observing others predicate) x s
  unfolding interleaved where_run_task await_then Option.is_none Option.unwrap where_run
  where_run-interleaved predicate x s = elim (Bool-cases x.is_some) [
    | inl yes_x ↦ simp yes_x (
        same-await_then others (await_then (call (predicate x.value)) resolved_task)
          (filtered_task x) (observing others predicate x.value >>= observe) (filtered x) s
          (interleaved-observing others predicate x.value s) (filtered-interleaved x))
    | inr no_x ↦ simp no_x refl
  ]

  pub where-interleaved :
      (self : Task W Dyn) (predicate : Object → Py W (TaskReply W Object)) (s : ℕ × W)
      → interleaved others (where_task self predicate) s
        ≡ (AsyncOption.filter_where (awaited self) (observing others predicate)).awaitable s
  unfolding where_task AsyncOption.filter_where
  where-interleaved self predicate s =
      same-await_then others (await_then self as_option_task) (where_run_task predicate)
        (interleaved others self >>= as_option) (where_run (observing others predicate)) s
        (interleaved-option others self s) (where_run-interleaved predicate)
