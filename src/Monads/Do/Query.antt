-- ===== src/Monads/Do/Query.antt =====
-- A `do(Result)` block of two yields beside `Result.select_many` of
-- python/src/aikernel_net/monads.py, the method for the same query.
use mathlib.Core.Option.{some}
use aikernel_core.Base.{◌≡◌, refl, ap, ◌∙◌, sym, Bool-cases, inl, inr, []}
use aikernel_core.Python.Object.{Object, Exn, is_exception}
use aikernel_core.Python.Effect.{Outcome, return, raise, Py, pure, proceed}
use aikernel_core.Python.Dict.{update}
use aikernel_core.Monads.Types.{Result, Dyn, result, option, either, other, success}
use aikernel_core.Monads.Dyn
use aikernel_core.Monads.Result.{bind, map, with_metadata, then_success}
use aikernel_core.Monads.Result.SelectMany.{project, select_many}
use aikernel_core.Monads.Result.Normal.{IsNormal}
use aikernel_core.Monads.Result.Errors.{bind-failed}
use aikernel_core.Monads.Result.Laws.{settle, bind-succeeded}
use aikernel_core.Monads.Generator.{Generator, stop, throws, yields, generator, All}
use aikernel_core.Monads.Do.{run_do}
use aikernel_core.Monads.Do.ResultBlocks.{
  of_result, IsNormalYield, as_dyn, caught, bind_chain, result_block-bind_chain,
}

-- A normal result, or an exception.
abbrev pub IsNormalReply : Outcome Dyn → Type 0
IsNormalReply (return (result r)) = IsNormal r
IsNormalReply (return _) = ⊥
IsNormalReply (raise e) = Unit

module _ {ℓ} {W : Type ℓ} where
  -- The block returns what a call gives, or raises what it raises.
  abbrev pub then_stops : Outcome Object × W → Generator W Dyn
  then_stops (return v, w) = stop v w
  then_stops (raise e, w) = throws e w

  -- The block yields what a call gives, or raises what it raises.
  abbrev pub then_yields : Outcome Dyn × W → (Object → W → Generator W Dyn) → Generator W Dyn
  then_yields (return d, w) k = yields d w k
  then_yields (raise e, w) k = throws e w

  -- `value = yield self; bound = yield binder(value); return projector(value, bound)`
  abbrev pub query :
      Result → (Object → Py W Dyn) → (Object → Object → Py W Object) → W → Generator W Dyn
  query self binder projector w =
      yields (result self) w
        (λ value u. then_yields (binder value u) (λ bound t. then_stops (projector value bound t)))

  bind-settle :
      (r : Result) (f g : Object → Py W Dyn) (w : W)
      → settle r (f r.value w).0 (f r.value w).1 ≡ settle r (g r.value w).0 (g r.value w).1
      → bind r f w ≡ bind r g w
  bind-settle r f g w same = elim (Bool-cases r.is_ok) [
    | inl e ↦ bind-succeeded r f w e ∙ same ∙ sym (bind-succeeded r g w e)
    | inr e ↦ bind-failed r w e f ∙ sym (bind-failed r w e g)
  ]

  -- `bind` takes over a failure that the block has made of an exception, as it takes the exception.
  settle-caught :
      (r : Result) (e : Exn) (w : W)
      → (let (d, u) = as_dyn (caught e w) in settle r d u) ≡ settle r (raise e) w
  unfolding with_metadata update
  settle-caught r e w = elim (Bool-cases (is_exception e)) [
    | inl c ↦ rw c refl
    | inr c ↦ rw c (rw c refl)
  ]

  settle-stops :
      (r : Result) (o : Outcome Object) (w : W)
      → (let (d, u) = as_dyn (bind_chain (then_stops (o, w))) in settle r d u)
        ≡ (let (d, u) = proceed o (λ v. pure (result (success v []))) w in settle r d u)
  unfolding bind_chain
  settle-stops r (return v) w = refl
  settle-stops r (raise e) w = settle-caught r e w

  settle-yields :
      (self : Result) (o : Outcome Dyn) (projector : Object → Py W Object) (w : W)
      → IsNormalReply o
      → (let (d, u) =
            as_dyn (bind_chain (then_yields (o, w) (λ bound t. then_stops (projector bound t)))) in
          settle self d u)
        ≡ (let (d, u) = proceed o (λ d. Dyn.map d projector) w in settle self d u)
  unfolding bind_chain Dyn.map map
  settle-yields self (return (result r)) projector w h =
      ap (λ p. let (d, u) = as_dyn p in settle self d u)
        (bind-settle r (λ bound t. as_dyn (bind_chain (then_stops (projector bound t))))
          (then_success projector) w
          (settle-stops r (projector r.value w).0 (projector r.value w).1))
  settle-yields self (return (option _)) projector w h = absurd h
  settle-yields self (return (either _)) projector w h = absurd h
  settle-yields self (return (other _)) projector w h = absurd h
  settle-yields self (raise e) projector w h = settle-caught self e w

  stops-All : (p : Outcome Object × W) → All IsNormalYield (then_stops p)
  stops-All (return v, w) = tt
  stops-All (raise e, w) = tt

  yields-All :
      (o : Outcome Dyn) (w : W) (projector : Object → Py W Object)
      → IsNormalReply o
      → All IsNormalYield (then_yields (o, w) (λ bound t. then_stops (projector bound t)))
  yields-All (return (result r)) w projector h = (h, λ bound t. stops-All (projector bound t))
  yields-All (return (option _)) w projector h = absurd h
  yields-All (return (either _)) w projector h = absurd h
  yields-All (return (other _)) w projector h = absurd h
  yields-All (raise e) w projector h = tt

  -- On a normal result, and where the binder returns a normal result or raises, `select_many` with a
  -- projector has the effects, the result and the metadata of the `do(Result)` block that yields the
  -- result, yields what the binder gives, and returns what the projector gives.
  pub query-select_many :
      (self : Result) (binder : Object → Py W Dyn) (projector : Object → Object → Py W Object)
      (w : W)
      → IsNormal self
      → ((v : Object) (u : W) → IsNormalReply (binder v u).0)
      → run_do of_result (pure (generator (query self binder projector))) w
        ≡ as_dyn (select_many self binder (some projector) w)
  unfolding bind_chain select_many
  query-select_many self binder projector w n h =
      result_block-bind_chain (query self binder projector) w
        (n, λ v u. yields-All (binder v u).0 (binder v u).1 (projector v) (h v u))
      ∙ ap as_dyn (
          bind-settle self
            (λ v u.
              as_dyn (
                bind_chain
                  (then_yields (binder v u) (λ bound t. then_stops (projector v bound t)))))
            (project binder projector) w
            (settle-yields self (binder self.value w).0 (projector self.value)
              (binder self.value w).1 (h self.value w)))
