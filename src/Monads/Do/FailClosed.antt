-- ===== src/Monads/Do/FailClosed.antt =====
-- What a `do(Result)` block may end with.
use aikernel_core.Base.{[], ◌≡◌, refl, Bool-cases, inl, inr}
use aikernel_core.Python.Object.{Exn, is_exception}
use aikernel_core.Python.Effect.{Outcome, return, raise, Py}
use aikernel_core.Python.Effect.Rules.{Ends, Passing}
use aikernel_core.Monads.Types.{Metadata, Result, Dyn, result}
use aikernel_core.Monads.Generator.{Generator, stop, throws, yields, Called, plain, generator}
use aikernel_core.Monads.Do.{loop, body, finish, unwrap, run_do}
use aikernel_core.Monads.Do.ResultBlocks.{of_result, loop-succeeded}

abbrev pub IsResultObject : Dyn → Type 0
IsResultObject d = (r : Result) × (d ≡ result r)

abbrev AnyExn : Exn → Type 0
AnyExn e = Unit

module _ {ℓ} {W : Type ℓ} where
  loop-IsResultObject :
      (g : Generator W Dyn) (metadata : Metadata)
      → Ends IsResultObject AnyExn (loop of_result g metadata).0
  unfolding loop unwrap
  loop-IsResultObject (stop v w) metadata = (_, refl)
  loop-IsResultObject (throws e w) metadata = tt
  loop-IsResultObject (yields (result r) w resume) metadata = elim (Bool-cases r.is_ok) [
    | inl ok ↦ rw (loop-succeeded r w resume metadata ok) (loop-IsResultObject (resume r.value w) _)
    | inr failed ↦ rw failed (_, refl)
  ]
  loop-IsResultObject (yields _ w resume) metadata = (_, refl)

  body-IsResultObject :
      (o : Outcome (Called W Dyn)) (metadata : Metadata) (w : W)
      → Ends IsResultObject AnyExn (body of_result o (metadata, w)).0
  unfolding body
  body-IsResultObject (return (plain v)) metadata w = (_, refl)
  body-IsResultObject (return (generator start)) metadata w = loop-IsResultObject (start w) metadata
  body-IsResultObject (raise e) metadata w = tt

  finish-IsResultObject :
      (o : Outcome Dyn) (metadata : Metadata) (w : W)
      → Ends IsResultObject AnyExn o
      → Ends IsResultObject Passing (finish of_result (o, (metadata, w))).0
  finish-IsResultObject (return d) metadata w h = h
  finish-IsResultObject (raise e) metadata w h = elim (Bool-cases (is_exception e)) [
    | inl c ↦ rw c (_, refl)
    | inr c ↦ rw c c
  ]

  -- A call of a function under `do(Result)` returns a `Result`, or raises what is no `Exception`:
  -- whatever the function yields, returns or raises, and if it is no generator function.
  pub run_do_fail_closed :
      (func : Py W (Called W Dyn)) (w : W) → Ends IsResultObject Passing (run_do of_result func w).0
  unfolding run_do
  run_do_fail_closed func w =
      let (called, w') = func w in
      let (o, (metadata, u)) = body of_result called ([], w') in
      finish-IsResultObject o metadata u (body-IsResultObject called [] w')
