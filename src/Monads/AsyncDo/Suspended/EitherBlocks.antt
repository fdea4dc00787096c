-- ===== src/Monads/AsyncDo/Suspended/EitherBlocks.antt =====
-- The blocks of `async_do(Either)` with their suspensions, beside the blocks on what awaiting does.
use aikernel_core.Base.{ℕ, ◌≡◌, refl, ◌∙◌, Bool-cases, inl, inr}
use aikernel_core.Python.Object.{Object}
use aikernel_core.Python.Effect.{Py}
use aikernel_core.Python.Tasks.{Wake, Task, call, reads, beside, interleaved, await_then}
use aikernel_core.Monads.Types.{Either, Dyn}
use aikernel_core.Monads.Either
use aikernel_core.Monads.Generator.{Generator, stop, throws, yields, Called, plain, generator}
use aikernel_core.Monads.Do.{DoState}
use aikernel_core.Monads.Async.{resolve_either}
use aikernel_core.Monads.AsyncDo.{advance_either, loop_either, start_either, run_async_either_do}
use aikernel_core.Monads.Coroutines.{TaskReply, resolve_either_task}
use aikernel_core.Monads.Coroutines.Blocks.{
  advance_either_task, loop_either_task, start_either_task, either_do_task,
}
use aikernel_core.Monads.Coroutines.Calls.{then-pure, same-await_then}
use aikernel_core.Monads.Coroutines.Replies.{as_reply, interleaved-resolve_either}
use aikernel_core.Monads.AsyncDo.Suspended.{suspended, suspended_call, suspended_block}

module _ {ℓ} {W : Type ℓ} (others : ℕ → W → Wake × W) where
  advance_either-interleaved :
      (next_task : Object → Task W Dyn) (next : Object → Py (ℕ × W) Dyn)
      → ((v : Object) (u : ℕ × W) → interleaved others (next_task v) u ≡ next v u)
      → (e : Either) (u : ℕ × W)
      → interleaved others (advance_either_task next_task e) u ≡ advance_either next e u
  unfolding interleaved advance_either_task await_then advance_either Either.is_left Either.unwrap
  advance_either-interleaved next_task next h e u = elim (Bool-cases e.is_right) [
    | inl yes_e ↦ simp yes_e (h e.right u)
    | inr no_e ↦ simp no_e refl
  ]

  loop_either-interleaved :
      (state : DoState) (g : Generator W (TaskReply W Dyn)) (n : ℕ) (w₀ : W)
      → interleaved others (loop_either_task state g) (n, w₀)
        ≡ loop_either state (suspended others g n)
  unfolding interleaved loop_either_task loop_either suspended
  loop_either-interleaved state (stop value w) n w₀ = refl
  loop_either-interleaved state (throws e w) n w₀ = refl
  loop_either-interleaved state (yields reply w resume) n w₀ =
      same-await_then others (resolve_either_task reply)
        (advance_either_task (λ v. reads (λ u. loop_either_task state (resume v u))))
        (resolve_either (as_reply others reply))
        (advance_either (λ v u. loop_either state (suspended others (resume v u.1) u.0))) (n, w)
        (interleaved-resolve_either others reply (n, w))
        (advance_either-interleaved (λ v. reads (λ u. loop_either_task state (resume v u)))
          (λ v u. loop_either state (suspended others (resume v u.1) u.0))
          (λ v u. loop_either-interleaved state (resume v u.1) u.0 u.1))

  start_either-interleaved :
      (state : DoState) (c : Called W (TaskReply W Dyn)) (s : ℕ × W)
      → interleaved others (start_either_task state c) s
        ≡ start_either state (suspended_call others c) s
  unfolding interleaved start_either_task start_either suspended_call
  start_either-interleaved state (plain value) s = refl
  start_either-interleaved state (generator start) s =
      loop_either-interleaved state (start s.1) s.0 s.1

  pub either_do-interleaved :
      (state : DoState) (func : Py W (Called W (TaskReply W Dyn))) (s : ℕ × W)
      → interleaved others (either_do_task state func) s
        ≡ run_async_either_do state (suspended_block others func) s
  unfolding interleaved either_do_task run_async_either_do suspended_block
  either_do-interleaved state func s =
      same-await_then others (call func) (start_either_task state) (beside func)
        (λ c. start_either state (suspended_call others c)) s refl (start_either-interleaved state)
      ∙ then-pure (beside func) (suspended_call others) (start_either state) s
