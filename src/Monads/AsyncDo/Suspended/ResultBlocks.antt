-- ===== src/Monads/AsyncDo/Suspended/ResultBlocks.antt =====
-- The blocks of `async_do(Result)` with their suspensions, beside the blocks on what awaiting does.
use aikernel_core.Base.{ℕ, ◌≡◌, refl, ◌∙◌, [], Bool-cases, inl, inr}
use aikernel_core.Python.Object.{Object, Exn, is_exception}
use aikernel_core.Python.Effect.{Outcome, return, raise, Py, pure, lift, ◌>>=◌, recover}
use aikernel_core.Python.Tasks.{Wake, Task, call, reads, beside, interleaved}
use aikernel_core.Python.Dict.{update}
use aikernel_core.Monads.Types.{Metadata, Result, Dyn}
use aikernel_core.Monads.Result
use aikernel_core.Monads.Generator.{Generator, stop, throws, yields, Called, plain, generator}
use aikernel_core.Monads.Do.{DoState}
use aikernel_core.Monads.Async.{resolve_result}
use aikernel_core.Monads.AsyncDo.{
  advance_result, loop_result, body_result, finish_result, run_async_result_do,
}
use aikernel_core.Monads.Coroutines.{TaskReply, resolve_result_task}
use aikernel_core.Monads.Coroutines.Blocks.{
  fails, advance_result_task, loop_result_task, start_result_task, result_do_task,
}
use aikernel_core.Monads.Coroutines.Calls.{same-try_await}
use aikernel_core.Monads.AsyncDo.Suspended.{suspended, suspended_call, suspended_block}
use aikernel_core.Monads.Coroutines.Replies.{as_reply, interleaved-resolve_result}

module _ {ℓ} {W : Type ℓ} (others : ℕ → W → Wake × W) where
  -- How the block ends where `e` is raised.
  abbrev failed : Metadata → Exn → Py (ℕ × W) Dyn
  failed metadata e s = finish_result (raise e, (metadata, s))

  fails-interleaved :
      (metadata : Metadata) (e : Exn) (s : ℕ × W)
      → interleaved others (fails e metadata) s ≡ failed metadata e s
  unfolding interleaved
  fails-interleaved metadata e s = elim (Bool-cases (is_exception e)) [
    | inl c ↦ rw c refl
    | inr c ↦ rw c refl
  ]

  abbrev next_round :
      DoState → (Object → W → Generator W (TaskReply W Dyn)) → Object → Py (Metadata × (ℕ × W)) Dyn
  next_round state resume current s =
      loop_result state (suspended others (resume current s.1.1) s.1.0) s.0

  abbrev later :
      DoState → (Object → W → Generator W (TaskReply W Dyn)) → Object → Metadata → Task W Dyn
  later state resume current learned =
      reads (λ u. loop_result_task state (resume current u) learned)

  advance_result-interleaved :
      (metadata : Metadata) (next_task : Object → Metadata → Task W Dyn)
      (next : Object → Py (Metadata × (ℕ × W)) Dyn)
      → ((v : Object) (learned : Metadata) (u : ℕ × W)
          → interleaved others (next_task v learned) u ≡ finish_result (next v (learned, u)))
      → (r : Result) (u : ℕ × W)
      → interleaved others (advance_result_task metadata next_task r) u
        ≡ finish_result (advance_result (return r) metadata u next)
  unfolding interleaved advance_result_task advance_result Result.is_err Result.unwrap
  advance_result-interleaved metadata next_task next h r u = elim (Bool-cases r.is_ok) [
    | inl ok ↦ simp ok (h r.value (update metadata r.metadata) u)
    | inr failed_r ↦ simp failed_r refl
  ]

  recover-finish :
      (o : Outcome Result) (metadata : Metadata) (s : ℕ × W)
      (next : Object → Py (Metadata × (ℕ × W)) Dyn)
      → recover o
          (failed metadata)
          (λ r u. finish_result (advance_result (return r) metadata u next))
          s
        ≡ finish_result (advance_result o metadata s next)
  unfolding advance_result
  recover-finish (return r) metadata s next = refl
  recover-finish (raise e) metadata s next = elim (Bool-cases (is_exception e)) [
    | inl c ↦ rw c refl
    | inr c ↦ rw c refl
  ]

  loop_result-interleaved :
      (state : DoState) (g : Generator W (TaskReply W Dyn)) (metadata : Metadata) (n : ℕ) (w₀ : W)
      → interleaved others (loop_result_task state g metadata) (n, w₀)
        ≡ finish_result (loop_result state (suspended others g n) metadata)
  unfolding interleaved loop_result_task loop_result suspended
  loop_result-interleaved state (stop value w) metadata n w₀ = refl
  loop_result-interleaved state (throws e w) metadata n w₀ = fails-interleaved metadata e (n, w)
  loop_result-interleaved state (yields reply w resume) metadata n w₀ =
      same-try_await others (resolve_result_task reply metadata) (λ e. fails e metadata)
        (advance_result_task metadata (later state resume))
        (resolve_result (as_reply others reply) metadata) (failed metadata)
        (λ r u. finish_result (advance_result (return r) metadata u (next_round state resume)))
        (n, w) (interleaved-resolve_result others reply metadata (n, w))
        (fails-interleaved metadata)
        (advance_result-interleaved metadata (later state resume) (next_round state resume)
          (λ v learned u. loop_result-interleaved state (resume v u.1) learned u.0 u.1))
      ∙ (let (o, u) = resolve_result (as_reply others reply) metadata (n, w) in
          recover-finish o metadata u (next_round state resume))

  start_result-interleaved :
      (state : DoState) (c : Called W (TaskReply W Dyn)) (s : ℕ × W)
      → interleaved others (start_result_task state c) s
        ≡ finish_result (body_result state (return (suspended_call others c)) ([], s))
  unfolding interleaved start_result_task body_result suspended_call
  start_result-interleaved state (plain value) s = refl
  start_result-interleaved state (generator start) s =
      loop_result-interleaved state (start s.1) [] s.0 s.1

  pub result_do-interleaved :
      (state : DoState) (func : Py W (Called W (TaskReply W Dyn))) (s : ℕ × W)
      → interleaved others (result_do_task state func) s
        ≡ run_async_result_do state (suspended_block others func) s
  unfolding interleaved result_do_task run_async_result_do body_result suspended_block
  result_do-interleaved state func s =
      same-try_await others (call func) (λ e. fails e []) (start_result_task state) (beside func)
        (failed [])
        (λ c u. finish_result (body_result state (return (suspended_call others c)) ([], u))) s refl
        (fails-interleaved []) (start_result-interleaved state)
      ∙ (let (o, u) = beside func s in go o u)
    where
      go :
          (o : Outcome (Called W (TaskReply W Dyn))) (u : ℕ × W)
          → recover o
              (failed [])
              (λ c x. finish_result (body_result state (return (suspended_call others c)) ([], x)))
              u
            ≡ run_async_result_do state (lift o >>= λ c. pure (suspended_call others c)) u
      go (return c) u = refl
      go (raise e) u = elim (Bool-cases (is_exception e)) [
        | inl yes_e ↦ rw yes_e refl
        | inr no_e ↦ rw no_e refl
      ]
