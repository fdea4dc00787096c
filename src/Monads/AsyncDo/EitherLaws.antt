-- ===== src/Monads/AsyncDo/EitherLaws.antt =====
-- An `async_do(Either)` block is the `do(Either)` block over what its replies resolve to.
use aikernel_core.Base.{◌≡◌, refl, ◌∙◌, ap, sym, true, false, [], Bool-cases, inl, inr}
use aikernel_core.Python.Object.{Object}
use aikernel_core.Python.Effect.{Outcome, return, raise, Py, pure, proceed}
use aikernel_core.Monads.Types.{Either, Dyn, result, option, either, other}
use aikernel_core.Monads.Either
use aikernel_core.Monads.Generator.{Generator, stop, throws, yields, generator, All}
use aikernel_core.Monads.Do.{loop, finish, run_do}
use aikernel_core.Monads.Do.EitherBlocks.{of_either, finish_lem, loop-present, loop-absent}
use aikernel_core.Monads.Async.{Reply, resolved, checked_either, resolve_either}
use aikernel_core.Monads.AsyncDo.{advance_either, loop_either, run_async_either_do}
use aikernel_core.Monads.AsyncDo.Awaited.{awaited, yield_awaited}

abbrev pub IsEitherYield : Dyn → Type 0
IsEitherYield (either x) = Unit
IsEitherYield _ = ⊥

module _ {ℓ} {W : Type ℓ} where
  -- The two loops agree from here on.
  abbrev Agrees : Generator W (Reply W) → Type ℓ
  Agrees g = loop_either of_either g ≡ finish of_either (loop of_either (awaited g) [])

  advance-present :
      (x : Either) (w : W) (next : Object → Py W Dyn)
      → x.is_right ≡ true
      → advance_either next x w ≡ next x.right w
  unfolding advance_either Either.is_left Either.unwrap
  advance-present x w next e = simp e refl

  advance-absent :
      (x : Either) (w : W) (next : Object → Py W Dyn)
      → x.is_right ≡ false
      → advance_either next x w ≡ (return (either x), w)
  unfolding advance_either Either.is_left
  advance-absent x w next e = simp e refl

  step-Agrees :
      (o : Outcome Dyn) (w : W) (resume : Object → W → Generator W (Reply W))
      → All IsEitherYield (yield_awaited o w (λ v u. awaited (resume v u)))
      → ((v : Object) (u : W) → All IsEitherYield (awaited (resume v u)) → Agrees (resume v u))
      → (let (x, u) = proceed o checked_either w in
          proceed x (advance_either (λ v t. loop_either of_either (resume v t))) u)
        ≡ finish of_either (loop of_either (yield_awaited o w (λ v u. awaited (resume v u))) [])
  unfolding loop
  step-Agrees (return (either x)) w resume a ih = elim (Bool-cases x.is_right) [
    | inl e ↦
        advance-present x w (λ v t. loop_either of_either (resume v t)) e
        ∙ ih x.right w (a.1 x.right w)
        ∙ ap (finish of_either) (sym (loop-present x w (λ v u. awaited (resume v u)) [] e))
    | inr e ↦
        advance-absent x w (λ v t. loop_either of_either (resume v t)) e
        ∙ ap (finish of_either) (sym (loop-absent x w (λ v u. awaited (resume v u)) [] e))
  ]
  step-Agrees (return (result _)) w resume a ih = absurd a.0
  step-Agrees (return (option _)) w resume a ih = absurd a.0
  step-Agrees (return (other _)) w resume a ih = absurd a.0
  step-Agrees (raise e) w resume a ih = sym (finish_lem (raise e) [] w)

  loops-agree : (g : Generator W (Reply W)) → All IsEitherYield (awaited g) → Agrees g
  unfolding loop_either awaited loop resolve_either
  loops-agree (stop value w) a = refl
  loops-agree (throws e w) a = sym (finish_lem (raise e) [] w)
  loops-agree (yields reply w resume) a =
      let (o, u) = resolved reply w in step-Agrees o u resume a (λ v t. loops-agree (resume v t))

  -- Where every reply that is awaited resolves to an `Either` or raises, an `async_do(Either)`
  -- block has the effects and the result of the `do(Either)` block that yields what the replies
  -- resolve to and raises what awaiting them raises.
  pub run_async_either_do-run_do :
      (start : W → Generator W (Reply W)) (w : W)
      → All IsEitherYield (awaited (start w))
      → run_async_either_do of_either (pure (generator start)) w
        ≡ run_do of_either (pure (generator (λ u. awaited (start u)))) w
  unfolding run_async_either_do run_do
  run_async_either_do-run_do start w a = loops-agree (start w) a
