-- ===== src/Monads/AsyncDo/ResultLaws.antt =====
-- An `async_do(Result)` block is the `do(Result)` block over what its replies resolve to.
use aikernel_core.Base.{◌≡◌, refl, ◌∙◌, ap, sym, true, false, [], Bool-cases, inl, inr}
use aikernel_core.Python.Object.{Object, exn, is_exception}
use aikernel_core.Python.Effect.{Outcome, return, raise, Py, pure, recover}
use aikernel_core.Python.Dict.{update}
use aikernel_core.Python.Dict.Laws.{IsDict, update-IsDict, update-update_self}
use aikernel_core.Monads.Types.{Metadata, Result, Dyn, result, option, either, other, failure}
use aikernel_core.Monads.Result
use aikernel_core.Monads.Generator.{Generator, stop, throws, yields, generator, All}
use aikernel_core.Monads.Do.{loop, finish, run_do}
use aikernel_core.Monads.Do.ResultBlocks.{of_result, after_all, loop-succeeded, loop-failed}
use aikernel_core.Monads.Async.{Reply, resolved, resolve_result, checked_result}
use aikernel_core.Monads.AsyncDo.{advance_result, loop_result, finish_result, run_async_result_do}
use aikernel_core.Monads.AsyncDo.Awaited.{awaited, yield_awaited}

abbrev pub IsResultYield : Dyn → Type 0
IsResultYield (result r) = Unit
IsResultYield _ = ⊥

module _ {ℓ} {W : Type ℓ} where
  -- The two loops agree from here on.
  abbrev Agrees : Generator W (Reply W) → Metadata → Type ℓ
  Agrees g metadata =
      finish_result (loop_result of_result g metadata)
      ≡ finish of_result (loop of_result (awaited g) metadata)

  -- `_resolve_result`, from what awaiting the reply left
  abbrev settled : Outcome Dyn → Metadata → Py W Result
  settled o metadata =
      recover o (λ ex. pure (failure (exn ex) metadata)) (λ d. pure (checked_result d metadata))

  settled-succeeded :
      (r : Result) (w : W) (metadata : Metadata) (next : Object → Py (Metadata × W) Dyn)
      → r.is_ok ≡ true
      → (let (s, u) = settled (return (result r)) metadata w in advance_result s metadata u next)
        ≡ next r.value (update metadata (update metadata r.metadata), w)
  unfolding advance_result Result.with_metadata
  settled-succeeded r w metadata next e = simp e refl

  settled-failed :
      (r : Result) (w : W) (metadata : Metadata) (next : Object → Py (Metadata × W) Dyn)
      → r.is_ok ≡ false
      → finish_result
          (let (s, u) = settled (return (result r)) metadata w in advance_result s metadata u next)
        ≡ after_all metadata (return (failure r.error r.metadata), w)
  unfolding advance_result Result.with_metadata
  settled-failed r w metadata next e = simp e refl

  step-Agrees :
      (o : Outcome Dyn) (w : W) (resume : Object → W → Generator W (Reply W)) (metadata : Metadata)
      → IsDict metadata
      → All IsResultYield (yield_awaited o w (λ v u. awaited (resume v u)))
      → ((v : Object) (u : W) (m : Metadata)
          → IsDict m
          → All IsResultYield (awaited (resume v u))
          → Agrees (resume v u) m)
      → finish_result (
          let (s, u) = settled o metadata w in
          advance_result s metadata u (λ v t. loop_result of_result (resume v t.1) t.0))
        ≡ finish of_result
            (loop of_result (yield_awaited o w (λ v u. awaited (resume v u))) metadata)
  unfolding advance_result Result.is_err loop
  step-Agrees (return (result r)) w resume metadata h a ih = elim (Bool-cases r.is_ok) [
    | inl ok ↦
        let next = λ (v : Object) (t : Metadata × W). loop_result of_result (resume v t.1) t.0 in
        ap finish_result (settled-succeeded r w metadata next ok)
        ∙ ap (λ m. finish_result (loop_result of_result (resume r.value w) m))
            (update-update_self metadata r.metadata h)
        ∙ ih r.value w (update metadata r.metadata) (update-IsDict metadata r.metadata h)
            (a.1 r.value w)
        ∙ ap (finish of_result) (sym (loop-succeeded r w (λ v u. awaited (resume v u)) metadata ok))
    | inr failed ↦
        settled-failed r w metadata (λ v t. loop_result of_result (resume v t.1) t.0) failed
        ∙ sym (loop-failed r w (λ v u. awaited (resume v u)) metadata failed)
  ]
  step-Agrees (return (option _)) w resume metadata h a ih = absurd a.0
  step-Agrees (return (either _)) w resume metadata h a ih = absurd a.0
  step-Agrees (return (other _)) w resume metadata h a ih = absurd a.0
  step-Agrees (raise e) w resume metadata h a ih = elim (Bool-cases (is_exception e)) [
    | inl c ↦ rw c refl
    | inr c ↦ rw c (rw c refl)
  ]

  loops-agree :
      (g : Generator W (Reply W)) (metadata : Metadata)
      → IsDict metadata
      → All IsResultYield (awaited g)
      → Agrees g metadata
  unfolding loop_result awaited loop resolve_result
  loops-agree (stop value w) metadata h a = refl
  loops-agree (throws e w) metadata h a = refl
  loops-agree (yields reply w resume) metadata h a =
      let (o, u) = resolved reply w in
      step-Agrees o u resume metadata h a (λ v t m. loops-agree (resume v t) m)

  -- Where every reply that is awaited resolves to a `Result` or raises, an `async_do(Result)` block
  -- has the effects, the result and the metadata of the `do(Result)` block that yields what the
  -- replies resolve to and raises what awaiting them raises.
  pub run_async_result_do-run_do :
      (start : W → Generator W (Reply W)) (w : W)
      → All IsResultYield (awaited (start w))
      → run_async_result_do of_result (pure (generator start)) w
        ≡ run_do of_result (pure (generator (λ u. awaited (start u)))) w
  unfolding run_async_result_do run_do
  run_async_result_do-run_do start w a = loops-agree (start w) [] tt a
