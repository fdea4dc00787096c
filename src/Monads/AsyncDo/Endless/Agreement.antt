-- ===== src/Monads/AsyncDo/Endless/Agreement.antt =====
-- The loops of `async_do` and of `do` over a generator that may yield for ever, round by round.
use aikernel_core.Base.{◌≡◌, refl, sym, ap, Bool-cases, inl, inr}
use aikernel_core.Python.Object.{Object, exn, is_exception}
use aikernel_core.Python.Effect.{Outcome, return, raise, Py, pure, proceed, recover}
use aikernel_core.Python.Dict.{update}
use aikernel_core.Python.Dict.Laws.{IsDict, update-IsDict, update-update_self}
use aikernel_core.Monads.Types.{Metadata, Result, Dyn, result, option, either, other, failure}
use aikernel_core.Monads.Result
use aikernel_core.Monads.Option
use aikernel_core.Monads.Either
use aikernel_core.Monads.Do.{
  MonadType, result_type, option_type, either_type, other_type, DoState, short_circuit, unwrap,
  finish,
}
use aikernel_core.Monads.Do.OptionBlocks
use aikernel_core.Monads.Do.EitherBlocks
use aikernel_core.Monads.Do.Endless.{
  Sent, stops, throws, yields, Config, Round, over, on, with_sent,
}
use aikernel_core.Monads.Async.{Reply, checked_result, checked_option, checked_either, resolved}
use aikernel_core.Monads.AsyncDo.Endless.{with_result, with_option, with_either, finish_async}

-- The class that the block is for.
abbrev pub IsYield : MonadType → Dyn → Type 0
IsYield result_type (result r) = Unit
IsYield option_type (option o) = Unit
IsYield either_type (either e) = Unit
IsYield _ _ = ⊥

abbrev pub of_kind : MonadType → DoState
of_kind kind = record { kind = kind }

finish-same {ℓ} :
    {W : Type ℓ} (kind : MonadType) (o : Outcome Dyn) (metadata : Metadata) (w : W)
    → finish_async kind (o, (metadata, w)) ≡ finish (of_kind kind) (o, (metadata, w))
finish-same result_type (return d) metadata w = refl
finish-same result_type (raise e) metadata w = refl
finish-same option_type o metadata w = sym (OptionBlocks.finish_lem o metadata w)
finish-same either_type o metadata w = sym (EitherBlocks.finish_lem o metadata w)
finish-same other_type (return d) metadata w = refl
finish-same other_type (raise e) metadata w = elim (Bool-cases (is_exception e)) [
  | inl c ↦ rw c refl
  | inr c ↦ rw c refl
]

-- `_resolve_result`, from what awaiting the reply left
abbrev settled {ℓ} : {W : Type ℓ} → Outcome Dyn → Metadata → Py W Result
settled o metadata =
    recover o (λ ex. pure (failure (exn ex) metadata)) (λ d. pure (checked_result d metadata))

module _ {ℓ κ} {S : Type ℓ} {W : Type κ} where
  abbrev config : S → Object → Metadata → W → Config S W
  config s v metadata w = record { generator = s; current = v; metadata = metadata; world = w }

  abbrev pub awaited_reply : Outcome Dyn → S → W → Sent S Dyn × W
  awaited_reply (return d) s w = (yields d s, w)
  awaited_reply (raise e) s w = (throws e, w)

  -- Every reply is awaited where it is yielded; an exception of the awaiting is one of the block.
  abbrev pub awaited_sent : Sent S (Reply W) × W → Sent S Dyn × W
  awaited_sent (stops value, w) = (stops value, w)
  awaited_sent (throws e, w) = (throws e, w)
  awaited_sent (yields reply s, w) = let (o, u) = resolved reply w in awaited_reply o s u

  abbrev pub IsSent : MonadType → Sent S Dyn × W → Type 0
  IsSent kind (yields d s, w) = IsYield kind d
  IsSent kind _ = Unit

  -- The rounds end with the same, or both go on from one configuration.
  pub data Agrees (kind : MonadType) (r q : Round S W) : Type (ℓ ⊔ κ) where
    both_over :
        (o p : Outcome Dyn × (Metadata × W))
        → r ≡ over o
        → q ≡ over p
        → finish_async kind o ≡ finish (of_kind kind) p
        → Agrees kind r q
    both_on : (c : Config S W) → r ≡ on c → q ≡ on c → IsDict c.metadata → Agrees kind r q

  pub same_over :
      (kind : MonadType) (o : Outcome Dyn) (metadata : Metadata) (w : W) {r q : Round S W}
      → r ≡ over (o, (metadata, w))
      → q ≡ over (o, (metadata, w))
      → Agrees kind r q
  same_over kind o metadata w p q =
      both_over (o, (metadata, w)) (o, (metadata, w)) p q (finish-same kind o metadata w)

  -- A round of `do(Result)` on what a reply resolves to, and that of `async_do(Result)`.
  pub result-Agrees :
      (o : Outcome Dyn) (s : S) (metadata : Metadata) (w : W)
      → IsDict metadata
      → IsSent result_type (awaited_reply o s w)
      → Agrees result_type
          (let (x, u) = settled o metadata w in with_result x s metadata u)
          (with_sent (of_kind result_type) (awaited_reply o s w) metadata)
  unfolding with_sent short_circuit unwrap Result.is_err Result.with_metadata Result.unwrap
  result-Agrees (return (result r)) s metadata w h y = elim (Bool-cases r.is_ok) [
    | inl e ↦
        both_on (config s r.value (update metadata r.metadata) w)
          (rw e (ap (λ m. on (config s r.value m w)) (update-update_self metadata r.metadata h)))
          (rw e refl) (update-IsDict metadata r.metadata h)
    | inr e ↦
        same_over result_type
          (return (result (Result.with_metadata r (update metadata r.metadata)))) metadata w
          (rw e refl) (rw e refl)
  ]
  result-Agrees (return (option _)) s metadata w h y = absurd y
  result-Agrees (return (either _)) s metadata w h y = absurd y
  result-Agrees (return (other _)) s metadata w h y = absurd y
  result-Agrees (raise e) s metadata w h y = elim (Bool-cases (is_exception e)) [
    | inl c ↦
        both_over (return (result (failure (exn e) metadata)), (metadata, w))
          (raise e, (metadata, w)) (rw c refl) refl (rw c refl)
    | inr c ↦ same_over result_type (raise e) metadata w (rw c refl) refl
  ]

  pub option-Agrees :
      (o : Outcome Dyn) (s : S) (metadata : Metadata) (w : W)
      → IsDict metadata
      → IsSent option_type (awaited_reply o s w)
      → Agrees option_type
          (let (x, u) = proceed o checked_option w in with_option x s metadata u)
          (with_sent (of_kind option_type) (awaited_reply o s w) metadata)
  unfolding with_sent short_circuit unwrap Option.is_none Option.unwrap
  option-Agrees (return (option o)) s metadata w h y = elim (Bool-cases o.is_some) [
    | inl e ↦ both_on (config s o.value metadata w) (rw e refl) (rw e refl) h
    | inr e ↦ same_over option_type (return (option o)) metadata w (rw e refl) (rw e refl)
  ]
  option-Agrees (return (result _)) s metadata w h y = absurd y
  option-Agrees (return (either _)) s metadata w h y = absurd y
  option-Agrees (return (other _)) s metadata w h y = absurd y
  option-Agrees (raise e) s metadata w h y = same_over option_type (raise e) metadata w refl refl

  pub either-Agrees :
      (o : Outcome Dyn) (s : S) (metadata : Metadata) (w : W)
      → IsDict metadata
      → IsSent either_type (awaited_reply o s w)
      → Agrees either_type
          (let (x, u) = proceed o checked_either w in with_either x s metadata u)
          (with_sent (of_kind either_type) (awaited_reply o s w) metadata)
  unfolding with_sent short_circuit unwrap Either.is_left Either.unwrap
  either-Agrees (return (either x)) s metadata w h y = elim (Bool-cases x.is_right) [
    | inl e ↦ both_on (config s x.right metadata w) (rw e refl) (rw e refl) h
    | inr e ↦ same_over either_type (return (either x)) metadata w (rw e refl) (rw e refl)
  ]
  either-Agrees (return (result _)) s metadata w h y = absurd y
  either-Agrees (return (option _)) s metadata w h y = absurd y
  either-Agrees (return (other _)) s metadata w h y = absurd y
  either-Agrees (raise e) s metadata w h y = same_over either_type (raise e) metadata w refl refl

  pub other-Agrees :
      (o : Outcome Dyn) (s : S) (metadata : Metadata) (w : W)
      → IsSent other_type (awaited_reply o s w)
      → Agrees other_type
          (let (x, u) = proceed o checked_option w in with_option x s metadata u)
          (with_sent (of_kind other_type) (awaited_reply o s w) metadata)
  unfolding with_sent
  other-Agrees (return d) s metadata w y = absurd y
  other-Agrees (raise e) s metadata w y = same_over other_type (raise e) metadata w refl refl
