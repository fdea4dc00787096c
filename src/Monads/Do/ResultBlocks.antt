-- ===== src/Monads/Do/ResultBlocks.antt =====
-- A `do(Result)` block is the chain of `bind` that it abbreviates.
use aikernel_core.Base.{
  ◌≡◌, refl, ap, ◌∙◌, sym, true, false, Bool-cases, inl, inr, arith, [], if◌then◌else◌,
}
use aikernel_core.Python.Object.{Object, Exn, exn, type_error, is_exception}
use aikernel_core.Python.Effect.{Outcome, return, raise, Py, pure, proceed}
use aikernel_core.Python.Dict.{update}
use aikernel_core.Python.Dict.Laws.{IsDict, update_assoc, update-nil}
use aikernel_core.Monads.Types.{Metadata, Result, Dyn, result, success, failure}
use aikernel_core.Monads.Result.{with_metadata, bind, accept}
use aikernel_core.Monads.Result.Normal.{
  IsNormal, IsClosed, success-IsNormal, failure-IsNormal, bind-IsClosed,
}
use aikernel_core.Monads.Result.Errors.{bind-failed}
use aikernel_core.Monads.Result.Laws.{settle, bind-succeeded}
use aikernel_core.Monads.Generator.{Generator, stop, throws, yields, generator, All}
use aikernel_core.Monads.Do.{DoState, result_type, loop, finish, unwrap, run_do}

-- What is yielded has the shape that the factories give, if it is a `Result`.
abbrev pub IsNormalYield : Dyn → Type 0
IsNormalYield (result r) = IsNormal r
IsNormalYield _ = Unit

abbrev pub of_result : DoState
of_result = record { kind = result_type }

-- A result under the metadata that was collected before it.
abbrev pub after : Metadata → Result → Result
unfolding with_metadata
after metadata r = with_metadata r (update metadata r.metadata)

after-after :
    (metadata : Metadata) (r s : Result)
    → IsDict r.metadata
    → after metadata (accept r (result s)) ≡ after (update metadata r.metadata) s
unfolding with_metadata
after-after metadata r s h = ground (arith, update_assoc metadata r.metadata s.metadata h)

after-nil : (r : Result) → IsNormal r → after [] r ≡ r
unfolding with_metadata
after-nil r n = ground (arith, update-nil r.metadata n.distinct, n.no_error, n.no_value)

module _ {ℓ} {W : Type ℓ} where
  abbrev pub as_dyn : Outcome Result × W → Outcome Dyn × W
  as_dyn (o, w) = proceed o (λ r. pure (result r)) w

  abbrev pub caught : Exn → Py W Result
  caught e w = if is_exception e then pure (failure (exn e) []) w else (raise e, w)

  -- Each `x = yield m` is `m.bind(lambda x: ...)`, the returned value is a `Success`, and what the
  -- block itself raises is a `Failure`.
  unfoldable pub bind_chain : Generator W Dyn → Outcome Result × W
  bind_chain (stop value w) = pure (success value []) w
  bind_chain (throws e w) = caught e w
  bind_chain (yields (result r) w resume) = bind r (λ v u. as_dyn (bind_chain (resume v u))) w
  bind_chain (yields _ w resume) =
      pure (failure (exn (type_error "Result do blocks must yield Result.")) []) w

  caught-IsClosed : (e : Exn) (w : W) → IsClosed (caught e w).0
  caught-IsClosed e w = elim (Bool-cases (is_exception e)) [
    | inl h ↦ rw h (failure-IsNormal (exn e) [] tt)
    | inr h ↦ rw h h
  ]

  bind_chain-IsClosed : (g : Generator W Dyn) → All IsNormalYield g → IsClosed (bind_chain g).0
  unfolding bind_chain
  bind_chain-IsClosed (stop value w) h = success-IsNormal value [] tt
  bind_chain-IsClosed (throws e w) h = caught-IsClosed e w
  bind_chain-IsClosed (yields (result r) w resume) h = bind-IsClosed r h.0 w _
  bind_chain-IsClosed (yields _ w resume) h = failure-IsNormal _ [] tt

  abbrev pub after_all : Metadata → Outcome Result × W → Outcome Dyn × W
  after_all metadata (o, w) = proceed o (λ r. pure (result (after metadata r))) w

  after_all-settle :
      (metadata : Metadata) (r : Result) (o : Outcome Result) (w : W)
      → IsDict r.metadata
      → IsClosed o
      → after_all metadata (let (d, u) = as_dyn (o, w) in settle r d u)
        ≡ after_all (update metadata r.metadata) (o, w)
  after_all-settle metadata r (return s) w h c =
      ap (λ x. (return (result x), w)) (after-after metadata r s h)
  after_all-settle metadata r (raise e) w h c = rw c refl

  pub loop-succeeded :
      (r : Result) (w : W) (resume : Object → W → Generator W Dyn) (metadata : Metadata)
      → r.is_ok ≡ true
      → loop of_result (yields (result r) w resume) metadata
        ≡ loop of_result (resume r.value w) (update metadata r.metadata)
  unfolding loop unwrap
  loop-succeeded r w resume metadata e = rw e

  pub loop-failed :
      (r : Result) (w : W) (resume : Object → W → Generator W Dyn) (metadata : Metadata)
      → r.is_ok ≡ false
      → finish of_result (loop of_result (yields (result r) w resume) metadata)
        ≡ after_all metadata (return (failure r.error r.metadata), w)
  unfolding loop unwrap with_metadata
  loop-failed r w resume metadata e = rw e

  loop-bind_chain :
      (g : Generator W Dyn) (metadata : Metadata)
      → All IsNormalYield g
      → finish of_result (loop of_result g metadata) ≡ after_all metadata (bind_chain g)
  unfolding loop bind_chain with_metadata update
  loop-bind_chain (stop value w) metadata h = refl
  loop-bind_chain (throws e w) metadata h = elim (Bool-cases (is_exception e)) [
    | inl c ↦ rw c refl
    | inr c ↦ rw c refl
  ]
  loop-bind_chain (yields (result r) w resume) metadata h = elim (Bool-cases r.is_ok) [
    | inl ok ↦
        let next = bind_chain (resume r.value w) in
        ap (finish of_result) (loop-succeeded r w resume metadata ok)
        ∙ loop-bind_chain (resume r.value w) (update metadata r.metadata) (h.1 r.value w)
        ∙ sym (
            after_all-settle metadata r next.0 next.1 h.0.distinct
              (bind_chain-IsClosed (resume r.value w) (h.1 r.value w)))
        ∙ ap (after_all metadata)
            (sym (bind-succeeded r (λ v u. as_dyn (bind_chain (resume v u))) w ok))
    | inr failed ↦
        loop-failed r w resume metadata failed
        ∙ ap (after_all metadata)
            (sym (bind-failed r w failed (λ v u. as_dyn (bind_chain (resume v u)))))
  ]
  loop-bind_chain (yields _ w resume) metadata h = refl

  after_all-nil : (o : Outcome Result) (w : W) → IsClosed o → after_all [] (o, w) ≡ as_dyn (o, w)
  after_all-nil (return r) w n = ap (λ s. (return (result s), w)) (after-nil r n)
  after_all-nil (raise e) w n = refl

  -- A `do(Result)` block over a generator that yields normal results, or what is no `Result`, has
  -- the effects, the result and the metadata of its chain of `bind`.
  pub result_block-bind_chain :
      (start : W → Generator W Dyn) (w : W)
      → All IsNormalYield (start w)
      → run_do of_result (pure (generator start)) w ≡ as_dyn (bind_chain (start w))
  unfolding run_do
  result_block-bind_chain start w h =
      loop-bind_chain (start w) [] h
      ∙ after_all-nil (bind_chain (start w)).0 (bind_chain (start w)).1
          (bind_chain-IsClosed (start w) h)
