-- ===== src/Monads/AsyncResult/Suspended.antt =====
-- The methods of `AsyncResult` with their suspensions, beside the methods on what awaiting does.
pub mod Agreement
pub mod Sync
use aikernel_core.Base.{ℕ, ◌≡◌, refl, sym, ◌∙◌, [], Bool-cases, inl, inr}
use aikernel_core.Python.Object.{Object, Exn, exn, truthy}
use aikernel_core.Python.Effect.{Py, pure, ◌>>=◌}
use aikernel_core.Python.Tasks.{Wake, Task, call, beside, interleaved, await_then, try_await}
use aikernel_core.Monads.Types.{Result, Dyn, result, failure}
use aikernel_core.Monads.Result
use aikernel_core.Monads.Dyn
use aikernel_core.Monads.Async.{AsyncResult, observe, resolve_result, as_result}
use aikernel_core.Monads.AsyncResult
use aikernel_core.Monads.AsyncResult.{bind_run, tap_run, where_run, filtered}
use aikernel_core.Monads.Coroutines.{
  TaskReply, give, resolved_task, resolve_result_task, as_result_task,
}
use aikernel_core.Monads.Coroutines.ResultMethods.{
  map_task, bind_run_task, bind_task, tap_run_task, tap_task, filtered_task, where_run_task,
  where_task,
}
use aikernel_core.Monads.Coroutines.Calls.{
  then-pure, same-await_then, same-try_await, lifted, map-lifted,
}
use aikernel_core.Monads.Coroutines.Replies.{
  as_reply, replying, observing, interleaved-result, interleaved-resolve_result,
  interleaved-observing,
}

module _ {ℓ} {W : Type ℓ} (others : ℕ → W → Wake × W) where
  -- What awaiting a task does, what other tasks do meanwhile included.
  abbrev pub awaited : Task W Dyn → AsyncResult (ℕ × W)
  awaited t = record { awaitable = interleaved others t }

  abbrev uncaught : Exn → Dyn
  uncaught ex = result (failure (exn ex) [])

  abbrev caught : Exn → Task W Dyn
  caught ex = give (uncaught ex)

  abbrev returns : {A : Type 0} → A → Py (ℕ × W) A
  returns = pure

  pub map-interleaved :
      (self : Task W Dyn) (func : Object → Py W Object) (s : ℕ × W)
      → interleaved others (map_task self func) s
        ≡ (AsyncResult.map (awaited self) (lifted func)).awaitable s
  unfolding interleaved map_task AsyncResult.map
  map-interleaved self func s =
      same-try_await others (await_then self (λ d. call (Dyn.map d func))) caught give
        (interleaved others self >>= λ d. Dyn.map d (lifted func)) (λ ex. returns (uncaught ex))
        returns s
        (same-await_then others self (λ d. call (Dyn.map d func)) (interleaved others self)
          (λ d. Dyn.map d (lifted func)) s refl (λ d u. sym (map-lifted func d u)))
        (λ x u. refl) (λ d u. refl)

  bind_run-interleaved :
      (func : Object → Py W (TaskReply W Dyn)) (r : Result) (s : ℕ × W)
      → interleaved others (bind_run_task func r) s ≡ bind_run (replying others func) r s
  unfolding interleaved bind_run_task await_then Result.is_err Result.unwrap bind_run
  bind_run-interleaved func r s = elim (Bool-cases r.is_ok) [
    | inl ok ↦ rw ok (
        same-await_then others
          (await_then (call (func r.value)) (λ reply. resolve_result_task reply r.metadata))
          (λ x. give (result x))
          (replying others func r.value >>= λ reply. resolve_result reply r.metadata)
          (λ x. pure (result x)) s
          (same-await_then others (call (func r.value))
              (λ reply. resolve_result_task reply r.metadata) (beside (func r.value))
              (λ reply. resolve_result ((as_reply others) reply) r.metadata) s refl
              (λ reply u. interleaved-resolve_result others reply r.metadata u)
            ∙ then-pure (beside (func r.value)) (as_reply others)
                (λ reply. resolve_result reply r.metadata) s)
          (λ x u. refl))
    | inr failed ↦ rw failed refl
  ]

  pub bind-interleaved :
      (self : Task W Dyn) (func : Object → Py W (TaskReply W Dyn)) (s : ℕ × W)
      → interleaved others (bind_task self func) s
        ≡ (AsyncResult.bind (awaited self) (replying others func)).awaitable s
  unfolding interleaved bind_task AsyncResult.bind
  bind-interleaved self func s =
      same-try_await others (await_then (await_then self as_result_task) (bind_run_task func))
        caught give (interleaved others self >>= as_result >>= bind_run (replying others func))
        (λ ex. returns (uncaught ex)) returns s
        (same-await_then others (await_then self as_result_task) (bind_run_task func)
          (interleaved others self >>= as_result) (bind_run (replying others func)) s
          (interleaved-result others self s) (bind_run-interleaved func))
        (λ x u. refl) (λ d u. refl)

  tap_run-interleaved :
      (action : Object → Py W (TaskReply W Object)) (r : Result) (s : ℕ × W)
      → interleaved others (tap_run_task action r) s ≡ tap_run (observing others action) r s
  unfolding interleaved tap_run_task try_await await_then Result.is_err Result.unwrap tap_run
  tap_run-interleaved action r s = elim (Bool-cases r.is_ok) [
    | inl ok ↦ simp ok (
        same-try_await others (await_then (call (action r.value)) resolved_task)
          (λ ex. give (result (failure (exn ex) r.metadata))) (λ _. give (result r))
          (observing others action r.value >>= observe)
          (λ ex. pure (result (failure (exn ex) r.metadata))) (λ _. pure (result r)) s
          (interleaved-observing others action r.value s) (λ x u. refl) (λ a u. refl))
    | inr failed ↦ rw failed refl
  ]

  pub tap-interleaved :
      (self : Task W Dyn) (action : Object → Py W (TaskReply W Object)) (s : ℕ × W)
      → interleaved others (tap_task self action) s
        ≡ (AsyncResult.tap (awaited self) (observing others action)).awaitable s
  unfolding tap_task AsyncResult.tap
  tap-interleaved self action s =
      same-await_then others (await_then self as_result_task) (tap_run_task action)
        (interleaved others self >>= as_result) (tap_run (observing others action)) s
        (interleaved-result others self s) (tap_run-interleaved action)

  filtered-interleaved :
      (r : Result) (passed : Object) (s : ℕ × W)
      → interleaved others (filtered_task r passed) s ≡ filtered r passed s
  unfolding interleaved filtered truthy
  filtered-interleaved r passed s = elim (Bool-cases (truthy passed)) [
    | inl yes_passed ↦ rw yes_passed refl
    | inr no_passed ↦ rw no_passed refl
  ]

  where_run-interleaved :
      (predicate : Object → Py W (TaskReply W Object)) (r : Result) (s : ℕ × W)
      → interleaved others (where_run_task predicate r) s
        ≡ where_run (observing others predicate) r s
  unfolding interleaved where_run_task try_await await_then Result.is_err Result.unwrap where_run
  where_run-interleaved predicate r s = elim (Bool-cases r.is_ok) [
    | inl ok ↦ simp ok (
        same-try_await others (await_then (call (predicate r.value)) resolved_task)
          (λ ex. give (result (failure (exn ex) r.metadata))) (filtered_task r)
          (observing others predicate r.value >>= observe)
          (λ ex. pure (result (failure (exn ex) r.metadata))) (filtered r) s
          (interleaved-observing others predicate r.value s) (λ x u. refl) (filtered-interleaved r))
    | inr failed ↦ rw failed refl
  ]

  pub where-interleaved :
      (self : Task W Dyn) (predicate : Object → Py W (TaskReply W Object)) (s : ℕ × W)
      → interleaved others (where_task self predicate) s
        ≡ (AsyncResult.filter_where (awaited self) (observing others predicate)).awaitable s
  unfolding where_task AsyncResult.filter_where
  where-interleaved self predicate s =
      same-await_then others (await_then self as_result_task) (where_run_task predicate)
        (interleaved others self >>= as_result) (where_run (observing others predicate)) s
        (interleaved-result others self s) (where_run-interleaved predicate)
