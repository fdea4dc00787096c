-- ===== src/Monads/Coroutines/Wrapped.antt =====
-- What `async_result`, `async_option` and `async_either` make of what a callback returns with
-- suspensions, beside what they make of what awaiting it does.
use aikernel_core.Base.{[], ℕ, ◌≡◌, refl}
use aikernel_core.Python.Effect.{pure, ◌>>=◌}
use aikernel_core.Python.Tasks.{Wake, interleaved, await_then}
use aikernel_core.Monads.Types.{Dyn, result, option, either}
use aikernel_core.Monads.Async.{async_result, async_option, async_either, resolve_result}
use aikernel_core.Monads.Async.{resolve_option, resolve_either}
use aikernel_core.Monads.Coroutines.{
  give, async_result_task, async_option_task, async_either_task, TaskReply, resolve_result_task,
  resolve_option_task, resolve_either_task,
}
use aikernel_core.Monads.Coroutines.Calls.{same-await_then}
use aikernel_core.Monads.Coroutines.Replies.{
  as_reply, interleaved-resolve_result, interleaved-resolve_option, interleaved-resolve_either,
}

module _ {ℓ} {W : Type ℓ} (others : ℕ → W → Wake × W) where
  wrap_result-interleaved :
      (r : TaskReply W Dyn) (s : ℕ × W)
      → interleaved others (await_then (resolve_result_task r []) (λ x. give (result x))) s
        ≡ (resolve_result (as_reply others r) [] >>= λ x. pure (result x)) s
  unfolding interleaved
  wrap_result-interleaved r s =
      same-await_then others (resolve_result_task r []) (λ x. give (result x))
        (resolve_result (as_reply others r) []) (λ x. pure (result x)) s
        (interleaved-resolve_result others r [] s) (λ x u. refl)

  pub async_result-interleaved :
      (r : TaskReply W Dyn) (s : ℕ × W)
      → interleaved others (async_result_task r) s ≡ (async_result (as_reply others r)).awaitable s
  unfolding async_result_task async_result
  async_result-interleaved (TaskReply.plain d) s = wrap_result-interleaved (TaskReply.plain d) s
  async_result-interleaved (TaskReply.awaitable t) s =
      wrap_result-interleaved (TaskReply.awaitable t) s
  async_result-interleaved (TaskReply.of_result t) s = refl
  async_result-interleaved (TaskReply.of_option t) s =
      wrap_result-interleaved (TaskReply.of_option t) s
  async_result-interleaved (TaskReply.of_either t) s =
      wrap_result-interleaved (TaskReply.of_either t) s

  wrap_option-interleaved :
      (r : TaskReply W Dyn) (s : ℕ × W)
      → interleaved others (await_then (resolve_option_task r) (λ x. give (option x))) s
        ≡ (resolve_option (as_reply others r) >>= λ x. pure (option x)) s
  unfolding interleaved
  wrap_option-interleaved r s =
      same-await_then others (resolve_option_task r) (λ x. give (option x))
        (resolve_option (as_reply others r)) (λ x. pure (option x)) s
        (interleaved-resolve_option others r s) (λ x u. refl)

  pub async_option-interleaved :
      (r : TaskReply W Dyn) (s : ℕ × W)
      → interleaved others (async_option_task r) s ≡ (async_option (as_reply others r)).awaitable s
  unfolding async_option_task async_option
  async_option-interleaved (TaskReply.plain d) s = wrap_option-interleaved (TaskReply.plain d) s
  async_option-interleaved (TaskReply.awaitable t) s =
      wrap_option-interleaved (TaskReply.awaitable t) s
  async_option-interleaved (TaskReply.of_result t) s =
      wrap_option-interleaved (TaskReply.of_result t) s
  async_option-interleaved (TaskReply.of_option t) s = refl
  async_option-interleaved (TaskReply.of_either t) s =
      wrap_option-interleaved (TaskReply.of_either t) s

  wrap_either-interleaved :
      (r : TaskReply W Dyn) (s : ℕ × W)
      → interleaved others (await_then (resolve_either_task r) (λ x. give (either x))) s
        ≡ (resolve_either (as_reply others r) >>= λ x. pure (either x)) s
  unfolding interleaved
  wrap_either-interleaved r s =
      same-await_then others (resolve_either_task r) (λ x. give (either x))
        (resolve_either (as_reply others r)) (λ x. pure (either x)) s
        (interleaved-resolve_either others r s) (λ x u. refl)

  pub async_either-interleaved :
      (r : TaskReply W Dyn) (s : ℕ × W)
      → interleaved others (async_either_task r) s ≡ (async_either (as_reply others r)).awaitable s
  unfolding async_either_task async_either
  async_either-interleaved (TaskReply.plain d) s = wrap_either-interleaved (TaskReply.plain d) s
  async_either-interleaved (TaskReply.awaitable t) s =
      wrap_either-interleaved (TaskReply.awaitable t) s
  async_either-interleaved (TaskReply.of_result t) s =
      wrap_either-interleaved (TaskReply.of_result t) s
  async_either-interleaved (TaskReply.of_option t) s =
      wrap_either-interleaved (TaskReply.of_option t) s
  async_either-interleaved (TaskReply.of_either t) s = refl
