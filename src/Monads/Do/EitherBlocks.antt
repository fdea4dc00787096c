-- ===== src/Monads/Do/EitherBlocks.antt =====
-- An `Either` block of `do` is the chain of `bind` that it abbreviates.
use aikernel_core.Base.{◌≡◌, refl, ap, sym, ◌∙◌, true, false, Bool-cases, inl, inr, []}
use aikernel_core.Python.Object.{Object, type_error, is_exception}
use aikernel_core.Python.Effect.{Outcome, return, raise, pure, proceed}
use aikernel_core.Monads.Types.{Metadata, Either, Dyn, either, right, left}
use aikernel_core.Monads.Either.{bind}
use aikernel_core.Monads.Either.Laws.{bind-present, bind-absent, accept_reply}
use aikernel_core.Monads.Generator.{Generator, stop, throws, yields, generator, All}
use aikernel_core.Monads.Do.{DoState, either_type, loop, finish, unwrap, run_do}

-- What is yielded has the shape that the factories give, if it is an `Either`.
abbrev pub IsNormalYield : Dyn → Type 0
IsNormalYield (either x) = x.is_right ≡ false → x ≡ left x.left
IsNormalYield _ = Unit

abbrev pub of_either : DoState
of_either = record { kind = either_type }

module _ {ℓ} {W : Type ℓ} where
  abbrev pub as_dyn : Outcome Either × W → Outcome Dyn × W
  as_dyn (o, w) = proceed o (λ x. pure (either x)) w

  -- Each `x = yield m` is `m.bind(lambda x: ...)`, and nothing that is raised is caught.
  pub bind_chain : Generator W Dyn → Outcome Either × W
  bind_chain (stop value w) = pure (right value) w
  bind_chain (throws e w) = (raise e, w)
  bind_chain (yields (either x) w resume) = bind x (λ v u. as_dyn (bind_chain (resume v u))) w
  bind_chain (yields _ w resume) = (raise (type_error "Either do blocks must yield Either."), w)

  pub finish_lem :
      (o : Outcome Dyn) (metadata : Metadata) (w : W) → finish of_either (o, (metadata, w)) ≡ (o, w)
  finish_lem (return d) metadata w = refl
  finish_lem (raise e) metadata w = elim (Bool-cases (is_exception e)) [
    | inl c ↦ rw c refl
    | inr c ↦ rw c refl
  ]

  pub loop-present :
      (x : Either) (w : W) (resume : Object → W → Generator W Dyn) (metadata : Metadata)
      → x.is_right ≡ true
      → loop of_either (yields (either x) w resume) metadata
        ≡ loop of_either (resume x.right w) metadata
  unfolding loop unwrap
  loop-present x w resume metadata e = rw e

  pub loop-absent :
      (x : Either) (w : W) (resume : Object → W → Generator W Dyn) (metadata : Metadata)
      → x.is_right ≡ false
      → loop of_either (yields (either x) w resume) metadata ≡ (return (either x), (metadata, w))
  unfolding loop unwrap
  loop-absent x w resume metadata e = rw e

  loop-bind_chain :
      (g : Generator W Dyn) (metadata : Metadata)
      → All IsNormalYield g
      → finish of_either (loop of_either g metadata) ≡ as_dyn (bind_chain g)
  unfolding loop bind_chain
  loop-bind_chain (stop value w) metadata h = refl
  loop-bind_chain (throws e w) metadata h = finish_lem (raise e) metadata w
  loop-bind_chain (yields (either x) w resume) metadata h = elim (Bool-cases x.is_right) [
    | inl e ↦
        let next = bind_chain (resume x.right w) in
        ap (finish of_either) (loop-present x w resume metadata e)
        ∙ loop-bind_chain (resume x.right w) metadata (h.1 x.right w)
        ∙ ap as_dyn (
            sym (
              bind-present x (λ v u. as_dyn (bind_chain (resume v u))) w e
              ∙ accept_reply next.0 next.1))
    | inr e ↦
        ap (finish of_either) (loop-absent x w resume metadata e)
        ∙ ap (λ y. (return (either y), w)) (h.0 e)
        ∙ ap as_dyn (sym (bind-absent x (λ v u. as_dyn (bind_chain (resume v u))) w e))
  ]
  loop-bind_chain (yields _ w resume) metadata h =
      finish_lem (raise (type_error "Either do blocks must yield Either.")) metadata w

  -- A block of `do(Either)` over a generator that yields normal values of `Either`, or other
  -- objects, has the effects and the result of its chain of `bind`.
  pub either_block-bind_chain :
      (start : W → Generator W Dyn) (w : W)
      → All IsNormalYield (start w)
      → run_do of_either (pure (generator start)) w ≡ as_dyn (bind_chain (start w))
  unfolding run_do
  either_block-bind_chain start w h = loop-bind_chain (start w) [] h
