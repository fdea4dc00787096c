-- ===== src/Monads/AsyncDo/Suspended/OptionBlocks.antt =====
-- The blocks of `async_do(Option)` with their suspensions, beside the blocks on what awaiting does.
use aikernel_core.Base.{ℕ, ◌≡◌, refl, ◌∙◌, Bool-cases, inl, inr}
use aikernel_core.Python.Object.{Object}
use aikernel_core.Python.Effect.{Py}
use aikernel_core.Python.Tasks.{Wake, Task, call, reads, beside, interleaved, await_then}
use aikernel_core.Monads.Types.{Option, Dyn}
use aikernel_core.Monads.Option
use aikernel_core.Monads.Generator.{Generator, stop, throws, yields, Called, plain, generator}
use aikernel_core.Monads.Do.{DoState}
use aikernel_core.Monads.Async.{resolve_option}
use aikernel_core.Monads.AsyncDo.{advance_option, loop_option, start_option, run_async_option_do}
use aikernel_core.Monads.Coroutines.{TaskReply, resolve_option_task}
use aikernel_core.Monads.Coroutines.Blocks.{
  advance_option_task, loop_option_task, start_option_task, option_do_task,
}
use aikernel_core.Monads.Coroutines.Calls.{then-pure, same-await_then}
use aikernel_core.Monads.Coroutines.Replies.{as_reply, interleaved-resolve_option}
use aikernel_core.Monads.AsyncDo.Suspended.{suspended, suspended_call, suspended_block}

module _ {ℓ} {W : Type ℓ} (others : ℕ → W → Wake × W) where
  advance_option-interleaved :
      (next_task : Object → Task W Dyn) (next : Object → Py (ℕ × W) Dyn)
      → ((v : Object) (u : ℕ × W) → interleaved others (next_task v) u ≡ next v u)
      → (o : Option) (u : ℕ × W)
      → interleaved others (advance_option_task next_task o) u ≡ advance_option next o u
  unfolding interleaved advance_option_task await_then advance_option Option.is_none Option.unwrap
  advance_option-interleaved next_task next h o u = elim (Bool-cases o.is_some) [
    | inl yes_o ↦ simp yes_o (h o.value u)
    | inr no_o ↦ simp no_o refl
  ]

  loop_option-interleaved :
      (state : DoState) (g : Generator W (TaskReply W Dyn)) (n : ℕ) (w₀ : W)
      → interleaved others (loop_option_task state g) (n, w₀)
        ≡ loop_option state (suspended others g n)
  unfolding interleaved loop_option_task loop_option suspended
  loop_option-interleaved state (stop value w) n w₀ = refl
  loop_option-interleaved state (throws e w) n w₀ = refl
  loop_option-interleaved state (yields reply w resume) n w₀ =
      same-await_then others (resolve_option_task reply)
        (advance_option_task (λ v. reads (λ u. loop_option_task state (resume v u))))
        (resolve_option (as_reply others reply))
        (advance_option (λ v u. loop_option state (suspended others (resume v u.1) u.0))) (n, w)
        (interleaved-resolve_option others reply (n, w))
        (advance_option-interleaved (λ v. reads (λ u. loop_option_task state (resume v u)))
          (λ v u. loop_option state (suspended others (resume v u.1) u.0))
          (λ v u. loop_option-interleaved state (resume v u.1) u.0 u.1))

  start_option-interleaved :
      (state : DoState) (c : Called W (TaskReply W Dyn)) (s : ℕ × W)
      → interleaved others (start_option_task state c) s
        ≡ start_option state (suspended_call others c) s
  unfolding interleaved start_option_task start_option suspended_call
  start_option-interleaved state (plain value) s = refl
  start_option-interleaved state (generator start) s =
      loop_option-interleaved state (start s.1) s.0 s.1

  pub option_do-interleaved :
      (state : DoState) (func : Py W (Called W (TaskReply W Dyn))) (s : ℕ × W)
      → interleaved others (option_do_task state func) s
        ≡ run_async_option_do state (suspended_block others func) s
  unfolding interleaved option_do_task run_async_option_do suspended_block
  option_do-interleaved state func s =
      same-await_then others (call func) (start_option_task state) (beside func)
        (λ c. start_option state (suspended_call others c)) s refl (start_option-interleaved state)
      ∙ then-pure (beside func) (suspended_call others) (start_option state) s
