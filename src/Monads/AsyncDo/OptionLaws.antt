-- ===== src/Monads/AsyncDo/OptionLaws.antt =====
-- An `async_do(Option)` block is the `do(Option)` block over what its replies resolve to.
use aikernel_core.Base.{◌≡◌, refl, ◌∙◌, ap, sym, true, false, [], Bool-cases, inl, inr}
use aikernel_core.Python.Object.{Object}
use aikernel_core.Python.Effect.{Outcome, return, raise, Py, pure, proceed}
use aikernel_core.Monads.Types.{Option, Dyn, result, option, either, other}
use aikernel_core.Monads.Option
use aikernel_core.Monads.Generator.{Generator, stop, throws, yields, generator, All}
use aikernel_core.Monads.Do.{loop, finish, run_do}
use aikernel_core.Monads.Do.OptionBlocks.{of_option, finish_lem, loop-present, loop-absent}
use aikernel_core.Monads.Async.{Reply, resolved, checked_option, resolve_option}
use aikernel_core.Monads.AsyncDo.{advance_option, loop_option, run_async_option_do}
use aikernel_core.Monads.AsyncDo.Awaited.{awaited, yield_awaited}

abbrev pub IsOptionYield : Dyn → Type 0
IsOptionYield (option x) = Unit
IsOptionYield _ = ⊥

module _ {ℓ} {W : Type ℓ} where
  -- The two loops agree from here on.
  abbrev Agrees : Generator W (Reply W) → Type ℓ
  Agrees g = loop_option of_option g ≡ finish of_option (loop of_option (awaited g) [])

  advance-present :
      (x : Option) (w : W) (next : Object → Py W Dyn)
      → x.is_some ≡ true
      → advance_option next x w ≡ next x.value w
  unfolding advance_option Option.is_none Option.unwrap
  advance-present x w next e = simp e refl

  advance-absent :
      (x : Option) (w : W) (next : Object → Py W Dyn)
      → x.is_some ≡ false
      → advance_option next x w ≡ (return (option x), w)
  unfolding advance_option Option.is_none
  advance-absent x w next e = simp e refl

  step-Agrees :
      (o : Outcome Dyn) (w : W) (resume : Object → W → Generator W (Reply W))
      → All IsOptionYield (yield_awaited o w (λ v u. awaited (resume v u)))
      → ((v : Object) (u : W) → All IsOptionYield (awaited (resume v u)) → Agrees (resume v u))
      → (let (x, u) = proceed o checked_option w in
          proceed x (advance_option (λ v t. loop_option of_option (resume v t))) u)
        ≡ finish of_option (loop of_option (yield_awaited o w (λ v u. awaited (resume v u))) [])
  unfolding loop
  step-Agrees (return (option x)) w resume a ih = elim (Bool-cases x.is_some) [
    | inl e ↦
        advance-present x w (λ v t. loop_option of_option (resume v t)) e
        ∙ ih x.value w (a.1 x.value w)
        ∙ ap (finish of_option) (sym (loop-present x w (λ v u. awaited (resume v u)) [] e))
    | inr e ↦
        advance-absent x w (λ v t. loop_option of_option (resume v t)) e
        ∙ ap (finish of_option) (sym (loop-absent x w (λ v u. awaited (resume v u)) [] e))
  ]
  step-Agrees (return (result _)) w resume a ih = absurd a.0
  step-Agrees (return (either _)) w resume a ih = absurd a.0
  step-Agrees (return (other _)) w resume a ih = absurd a.0
  step-Agrees (raise e) w resume a ih = sym (finish_lem (raise e) [] w)

  loops-agree : (g : Generator W (Reply W)) → All IsOptionYield (awaited g) → Agrees g
  unfolding loop_option awaited loop resolve_option
  loops-agree (stop value w) a = refl
  loops-agree (throws e w) a = sym (finish_lem (raise e) [] w)
  loops-agree (yields reply w resume) a =
      let (o, u) = resolved reply w in step-Agrees o u resume a (λ v t. loops-agree (resume v t))

  -- Where every reply that is awaited resolves to an `Option` or raises, an `async_do(Option)`
  -- block has the effects and the result of the `do(Option)` block that yields what the replies
  -- resolve to and raises what awaiting them raises.
  pub run_async_option_do-run_do :
      (start : W → Generator W (Reply W)) (w : W)
      → All IsOptionYield (awaited (start w))
      → run_async_option_do of_option (pure (generator start)) w
        ≡ run_do of_option (pure (generator (λ u. awaited (start u)))) w
  unfolding run_async_option_do run_do
  run_async_option_do-run_do start w a = loops-agree (start w) a
