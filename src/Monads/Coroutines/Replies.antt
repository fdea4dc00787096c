-- ===== src/Monads/Coroutines/Replies.antt =====
-- What the callbacks of the wrappers return with suspensions, beside what awaiting it does.
use mathlib.Core.Path.{fun_ext}
use aikernel_core.Base.{ℕ, ◌≡◌, refl, sym, ap, ◌∙◌}
use aikernel_core.Python.Object.{Object}
use aikernel_core.Python.Effect.{Py, pure, ◌>>=◌}
use aikernel_core.Python.Tasks.{Wake, Task, call, beside, interleaved, await_then}
use aikernel_core.Monads.Types.{Metadata, Dyn, result, option, either, other}
use aikernel_core.Monads.Async.{
  of_result, of_option, of_either, Reply, now, coroutine, Observed, plain, awaiting, observe,
  resolved, resolve_result, as_result,
}
use aikernel_core.Monads.Async.{
  checked_option, resolve_option, checked_either, resolve_either, as_option, as_either,
}
use aikernel_core.Monads.Coroutines.{
  TaskReply, resolved_task, resolve_result_task, checked_option_task, resolve_option_task,
  checked_either_task, resolve_either_task, as_result_task, as_option_task, as_either_task,
}
use aikernel_core.Monads.Coroutines.Calls.{then-pure, same-await_then, same-try_await}

module _ {ℓ} {W : Type ℓ} (others : ℕ → W → Wake × W) where
  abbrev pub as_reply : TaskReply W Dyn → Reply (ℕ × W)
  as_reply (TaskReply.plain d) = now d
  as_reply (TaskReply.awaitable t) = coroutine (interleaved others t)
  as_reply (TaskReply.of_result t) = of_result (record { awaitable = interleaved others t })
  as_reply (TaskReply.of_option t) = of_option (record { awaitable = interleaved others t })
  as_reply (TaskReply.of_either t) = of_either (record { awaitable = interleaved others t })

  abbrev pub as_observed : TaskReply W Object → Observed (ℕ × W)
  as_observed (TaskReply.plain v) = plain v
  as_observed (TaskReply.awaitable t) = awaiting (interleaved others t)
  as_observed (TaskReply.of_result t) = awaiting (interleaved others t)
  as_observed (TaskReply.of_option t) = awaiting (interleaved others t)
  as_observed (TaskReply.of_either t) = awaiting (interleaved others t)

  -- A callback that returns an object or an awaitable.
  abbrev pub replying : (Object → Py W (TaskReply W Dyn)) → Object → Py (ℕ × W) (Reply (ℕ × W))
  replying func v = beside (func v) >>= λ r. pure (as_reply r)

  abbrev pub observing :
      (Object → Py W (TaskReply W Object)) → Object → Py (ℕ × W) (Observed (ℕ × W))
  observing action v = beside (action v) >>= λ r. pure (as_observed r)

  pub interleaved-resolved :
      (r : TaskReply W Dyn) (s : ℕ × W)
      → interleaved others (resolved_task r) s ≡ resolved (as_reply r) s
  unfolding interleaved
  interleaved-resolved (TaskReply.plain d) s = refl
  interleaved-resolved (TaskReply.awaitable t) s = refl
  interleaved-resolved (TaskReply.of_result t) s = refl
  interleaved-resolved (TaskReply.of_option t) s = refl
  interleaved-resolved (TaskReply.of_either t) s = refl

  pub interleaved-observed :
      (r : TaskReply W Object) (s : ℕ × W)
      → interleaved others (resolved_task r) s ≡ observe (as_observed r) s
  unfolding interleaved
  interleaved-observed (TaskReply.plain d) s = refl
  interleaved-observed (TaskReply.awaitable t) s = refl
  interleaved-observed (TaskReply.of_result t) s = refl
  interleaved-observed (TaskReply.of_option t) s = refl
  interleaved-observed (TaskReply.of_either t) s = refl

  pub interleaved-result :
      (self : Task W Dyn) (s : ℕ × W)
      → interleaved others (await_then self as_result_task) s
        ≡ (interleaved others self >>= as_result) s
  unfolding interleaved
  interleaved-result self s =
      same-await_then others self as_result_task (interleaved others self) as_result s refl checks
    where
      checks : (d : Dyn) (u : ℕ × W) → interleaved others (as_result_task d) u ≡ as_result d u
      checks (result r) u = refl
      checks (option o) u = refl
      checks (either e) u = refl
      checks (other v) u = refl

  pub interleaved-option :
      (self : Task W Dyn) (s : ℕ × W)
      → interleaved others (await_then self as_option_task) s
        ≡ (interleaved others self >>= as_option) s
  unfolding interleaved
  interleaved-option self s =
      same-await_then others self as_option_task (interleaved others self) as_option s refl checks
    where
      checks : (d : Dyn) (u : ℕ × W) → interleaved others (as_option_task d) u ≡ as_option d u
      checks (result r) u = refl
      checks (option o) u = refl
      checks (either e) u = refl
      checks (other v) u = refl

  pub interleaved-either :
      (self : Task W Dyn) (s : ℕ × W)
      → interleaved others (await_then self as_either_task) s
        ≡ (interleaved others self >>= as_either) s
  unfolding interleaved
  interleaved-either self s =
      same-await_then others self as_either_task (interleaved others self) as_either s refl checks
    where
      checks : (d : Dyn) (u : ℕ × W) → interleaved others (as_either_task d) u ≡ as_either d u
      checks (result r) u = refl
      checks (option o) u = refl
      checks (either e) u = refl
      checks (other v) u = refl

  pub interleaved-resolve_result :
      (r : TaskReply W Dyn) (metadata : Metadata) (s : ℕ × W)
      → interleaved others (resolve_result_task r metadata) s
        ≡ resolve_result (as_reply r) metadata s
  unfolding interleaved resolve_result_task resolve_result
  interleaved-resolve_result r metadata s =
      same-try_await others (resolved_task r) _ _ (resolved (as_reply r)) _ _ s
        (interleaved-resolved r s) (λ x u. refl) (λ d u. refl)

  pub interleaved-resolve_option :
      (r : TaskReply W Dyn) (s : ℕ × W)
      → interleaved others (resolve_option_task r) s ≡ resolve_option (as_reply r) s
  unfolding interleaved resolve_option_task resolve_option
  interleaved-resolve_option r s =
      same-await_then others (resolved_task r) checked_option_task (resolved (as_reply r))
        checked_option s (interleaved-resolved r s) checks
    where
      checks :
          (d : Dyn) (u : ℕ × W) → interleaved others (checked_option_task d) u ≡ checked_option d u
      checks (result r) u = refl
      checks (option o) u = refl
      checks (either e) u = refl
      checks (other v) u = refl

  pub interleaved-resolve_either :
      (r : TaskReply W Dyn) (s : ℕ × W)
      → interleaved others (resolve_either_task r) s ≡ resolve_either (as_reply r) s
  unfolding interleaved resolve_either_task resolve_either
  interleaved-resolve_either r s =
      same-await_then others (resolved_task r) checked_either_task (resolved (as_reply r))
        checked_either s (interleaved-resolved r s) checks
    where
      checks :
          (d : Dyn) (u : ℕ × W) → interleaved others (checked_either_task d) u ≡ checked_either d u
      checks (result r) u = refl
      checks (option o) u = refl
      checks (either e) u = refl
      checks (other v) u = refl

  pub interleaved-observing :
      (action : Object → Py W (TaskReply W Object)) (v : Object) (s : ℕ × W)
      → interleaved others (await_then (call (action v)) resolved_task) s
        ≡ (observing action v >>= observe) s
  unfolding interleaved await_then
  interleaved-observing action v s =
      same-await_then others (call (action v)) resolved_task (beside (action v))
        (λ r. observe (as_observed r)) s refl interleaved-observed
      ∙ then-pure (beside (action v)) as_observed observe s

  -- What calling a callback and awaiting what it returns, if it can be awaited, does.
  abbrev pub calling : {A : Type 0} → (Object → Py W (TaskReply W A)) → Object → Py (ℕ × W) A
  calling func v = beside (func v) >>= λ r. interleaved others (resolved_task r)

  pub replying-resolved :
      (func : Object → Py W (TaskReply W Dyn)) → (λ v. replying func v >>= resolved) ≡ calling func
  replying-resolved func = fun_ext (λ v. fun_ext (λ s.
      sym (then-pure (beside (func v)) as_reply resolved s)
      ∙ ap (λ (k : TaskReply W Dyn → Py (ℕ × W) Dyn). (beside (func v) >>= k) s)
          (fun_ext (λ r. fun_ext (λ u. sym (interleaved-resolved r u))))))

  pub observing-observe :
      (action : Object → Py W (TaskReply W Object))
      → (λ v. observing action v >>= observe) ≡ calling action
  observing-observe action = fun_ext (λ v. fun_ext (λ s.
      sym (then-pure (beside (action v)) as_observed observe s)
      ∙ ap (λ (k : TaskReply W Object → Py (ℕ × W) Object). (beside (action v) >>= k) s)
          (fun_ext (λ r. fun_ext (λ u. sym (interleaved-observed r u))))))
