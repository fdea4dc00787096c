-- ===== src/Monads/Do/Endless/Stops.antt =====
-- How a block of `do` over a generator that may yield for ever ends, for each of the three classes.
use mathlib.Core.Option.{some, none}
use aikernel_core.Base.{◌≡◌, refl, subst, sym, false, not, Bool-cases, inl, inr, if◌then◌else◌}
use aikernel_core.Python.Object.{Object, Exn, exn, type_error, is_exception}
use aikernel_core.Python.Effect.{Outcome, return, raise}
use aikernel_core.Monads.Types.{Result, Option, Either, Dyn, result, option, either, other, failure}
use aikernel_core.Monads.Result
use aikernel_core.Monads.Option
use aikernel_core.Monads.Either
use aikernel_core.Monads.Do.{
  MonadType, result_type, option_type, either_type, other_type, pure_monad, short_circuit, finish,
  unwrap,
}
use aikernel_core.Monads.Do.ResultBlocks.{after}
use aikernel_core.Monads.Do.Classes.{of_kind, IsMonad}
use aikernel_core.Monads.Do.Endless.{
  Sent, stops, throws, yields, Config, Round, over, on, with_short, with_sent, round,
}
use aikernel_core.Monads.Do.Endless.Ending.{stray, Fails, yields_error, yields_other, raises}

-- An exception that passes through the handler of the block.
abbrev pub Passes : MonadType → Exn → Type 0
Passes result_type e = is_exception e ≡ false
Passes option_type e = Unit
Passes either_type e = Unit
Passes other_type e = ⊥

abbrev pub no_option_error : Exn
no_option_error = type_error "Option do blocks must yield Option."

abbrev pub no_either_error : Exn
no_either_error = type_error "Either do blocks must yield Either."

module _ {ℓ κ} {S : Type ℓ} {W : Type κ} (send : S → Object → W → Sent S Dyn × W) where
  -- What ends a block of a class, with what it returns or raises and the world that is left: its
  -- generator returns, raises, or yields a monad without a value or an object of another class.
  pub data Stops (d : Config S W) : MonadType → Outcome Dyn → W → Type (ℓ ⊔ κ) where
    returned :
        (kind : MonadType) (v : Object) (u : W)
        → send d.generator d.current d.world ≡ (stops v, u)
        → Stops d kind (return (pure_monad (of_kind kind) v d.metadata)) u
    passing :
        (kind : MonadType) (e : Exn) (u : W)
        → send d.generator d.current d.world ≡ (throws e, u)
        → Passes kind e
        → Stops d kind (raise e) u
    failed : (r : Result) (u : W) → Fails send d r u → Stops d result_type (return (result r)) u
    yields_nothing :
        (o : Option) (t : S) (u : W)
        → send d.generator d.current d.world ≡ (yields (option o) t, u)
        → o.is_some ≡ false
        → Stops d option_type (return (option o)) u
    no_option :
        (monad : Dyn) (t : S) (u : W)
        → send d.generator d.current d.world ≡ (yields monad t, u)
        → ((o : Option) → monad ≡ option o → ⊥)
        → Stops d option_type (raise no_option_error) u
    yields_left :
        (e : Either) (t : S) (u : W)
        → send d.generator d.current d.world ≡ (yields (either e) t, u)
        → e.is_right ≡ false
        → Stops d either_type (return (either e)) u
    no_either :
        (monad : Dyn) (t : S) (u : W)
        → send d.generator d.current d.world ≡ (yields monad t, u)
        → ((e : Either) → monad ≡ either e → ⊥)
        → Stops d either_type (raise no_either_error) u

  -- Where the loop ends, the block ends so.
  abbrev pub AtEnd : (d : Config S W) → MonadType → Round S W → Type (ℓ ⊔ κ)
  AtEnd d kind (over p) = let (o, u) = finish (of_kind kind) p in Stops d kind o u
  AtEnd d kind (on c) = Unit

  module _ (d : Config S W) where
    thrown-AtEnd :
        (kind : MonadType) (e : Exn) (u : W)
        → IsMonad kind
        → send d.generator d.current d.world ≡ (throws e, u)
        → AtEnd d kind (over (raise e, (d.metadata, u)))
    thrown-AtEnd result_type e u m sent = elim (Bool-cases (is_exception e)) [
      | inl c ↦ rw c (failed (failure (exn e) d.metadata) u (raises e u sent c))
      | inr c ↦ rw c (passing result_type e u sent c)
    ]
    thrown-AtEnd option_type e u m sent = elim (Bool-cases (is_exception e)) [
      | inl c ↦ rw c (passing option_type e u sent tt)
      | inr c ↦ rw c (passing option_type e u sent tt)
    ]
    thrown-AtEnd either_type e u m sent = elim (Bool-cases (is_exception e)) [
      | inl c ↦ rw c (passing either_type e u sent tt)
      | inr c ↦ rw c (passing either_type e u sent tt)
    ]
    thrown-AtEnd other_type e u m sent = absurd m

    yielded-AtEnd :
        (kind : MonadType) (monad : Dyn) (t : S) (u : W)
        → IsMonad kind
        → send d.generator d.current d.world ≡ (yields monad t, u)
        → AtEnd d kind (
            with_short
              (of_kind kind)
              (short_circuit (of_kind kind) monad d.metadata)
              monad
              t
              d.metadata
              u)
    unfolding with_short short_circuit unwrap Result.is_err Result.unwrap Option.is_none
        Option.unwrap Either.is_left Either.unwrap Result.with_metadata is_exception
    yielded-AtEnd result_type (result r) t u m sent = elim (Bool-cases r.is_ok) [
      | inl c ↦ rw c tt
      | inr c ↦
          subst
            (λ b. AtEnd d result_type (
              with_short (of_kind result_type)
                (return (if not b then some (result (after d.metadata r)) else none)) (result r) t
                d.metadata u))
            (sym c) (failed (after d.metadata r) u (yields_error r t u sent c))
    ]
    yielded-AtEnd result_type (option o) t u m sent =
        failed (stray d.metadata) u (yields_other (option o) t u sent (λ r e. cc))
    yielded-AtEnd result_type (either o) t u m sent =
        failed (stray d.metadata) u (yields_other (either o) t u sent (λ r e. cc))
    yielded-AtEnd result_type (other o) t u m sent =
        failed (stray d.metadata) u (yields_other (other o) t u sent (λ r e. cc))
    yielded-AtEnd option_type (option o) t u m sent = elim (Bool-cases o.is_some) [
      | inl c ↦ rw c tt
      | inr c ↦
          subst
            (λ b. AtEnd d option_type (
              with_short (of_kind option_type) (return (if not b then some (option o) else none))
                (option o) t d.metadata u))
            (sym c) (yields_nothing o t u sent c)
    ]
    yielded-AtEnd option_type (result o) t u m sent = no_option (result o) t u sent (λ r e. cc)
    yielded-AtEnd option_type (either o) t u m sent = no_option (either o) t u sent (λ r e. cc)
    yielded-AtEnd option_type (other o) t u m sent = no_option (other o) t u sent (λ r e. cc)
    yielded-AtEnd either_type (either o) t u m sent = elim (Bool-cases o.is_right) [
      | inl c ↦ rw c tt
      | inr c ↦
          subst
            (λ b. AtEnd d either_type (
              with_short (of_kind either_type) (return (if not b then some (either o) else none))
                (either o) t d.metadata u))
            (sym c) (yields_left o t u sent c)
    ]
    yielded-AtEnd either_type (result o) t u m sent = no_either (result o) t u sent (λ r e. cc)
    yielded-AtEnd either_type (option o) t u m sent = no_either (option o) t u sent (λ r e. cc)
    yielded-AtEnd either_type (other o) t u m sent = no_either (other o) t u sent (λ r e. cc)
    yielded-AtEnd other_type monad t u m sent = absurd m

    pub round-AtEnd : (kind : MonadType) → IsMonad kind → AtEnd d kind (round send (of_kind kind) d)
    unfolding round with_sent
    round-AtEnd kind m = go (send d.generator d.current d.world) refl
      where
        go :
            (x : Sent S Dyn × W)
            → send d.generator d.current d.world ≡ x
            → AtEnd d kind (with_sent (of_kind kind) x d.metadata)
        go (stops v, u) sent = returned kind v u sent
        go (throws e, u) sent = thrown-AtEnd kind e u m sent
        go (yields monad t, u) sent = yielded-AtEnd kind monad t u m sent
