-- ===== src/Monads/Do/Classes.antt =====
-- Of which class a block of `do` in python/src/aikernel_net/monads.py is.
use mathlib.Core.Option as Maybe
use mathlib.Core.Option.{some, none}
use aikernel_core.Base.{[], Bool-cases, inl, inr, if◌then◌else◌}
use aikernel_core.Python.Object.{Object, Exn, is_exception}
use aikernel_core.Python.Effect.{Outcome, return, raise, Py}
use aikernel_core.Python.Effect.Rules.{Ends, Ends-if}
use aikernel_core.Monads.Types.{Metadata, Dyn, result, option, either, other}
use aikernel_core.Monads.Result
use aikernel_core.Monads.Option
use aikernel_core.Monads.Either
use aikernel_core.Monads.Generator.{Generator, stop, throws, yields, Called, plain, generator}
use aikernel_core.Monads.Do.{
  MonadType, result_type, option_type, either_type, other_type, DoState, pure_monad, short_circuit,
  unwrap, learn, loop, advance, send_value, body, finish, run_do,
}

-- An object of the class.
abbrev pub IsClass : MonadType → Dyn → Type 0
IsClass result_type (result r) = Unit
IsClass option_type (option o) = Unit
IsClass either_type (either e) = Unit
IsClass _ _ = ⊥

abbrev pub AnyExn : Exn → Type 0
AnyExn e = Unit

-- One of the three classes.
abbrev pub IsMonad : MonadType → Type 0
IsMonad other_type = ⊥
IsMonad _ = Unit

abbrev pub of_kind : MonadType → DoState
of_kind kind = record { kind = kind }

abbrev pub pure-IsClass :
    (kind : MonadType) (value : Object) (metadata : Metadata)
    → IsMonad kind
    → IsClass kind (pure_monad (of_kind kind) value metadata)
unfolding pure_monad
pure-IsClass result_type value metadata m = tt
pure-IsClass option_type value metadata m = tt
pure-IsClass either_type value metadata m = tt
pure-IsClass other_type value metadata m = absurd m

abbrev IsShort : MonadType → Outcome (Maybe.Option Dyn) → Type 0
IsShort kind (return (some d)) = IsClass kind d
IsShort kind _ = Unit

short_circuit-IsShort :
    (kind : MonadType) (d : Dyn) (metadata : Metadata)
    → IsMonad kind
    → IsShort kind (short_circuit (of_kind kind) d metadata)
unfolding short_circuit Result.is_err Option.is_none Either.is_left
short_circuit-IsShort result_type (result r) metadata m = elim (Bool-cases r.is_ok) [
  | inl e ↦ rw e tt
  | inr e ↦ rw e tt
]
short_circuit-IsShort result_type (option o) metadata m = tt
short_circuit-IsShort result_type (either e) metadata m = tt
short_circuit-IsShort result_type (other o) metadata m = tt
short_circuit-IsShort option_type (option o) metadata m = elim (Bool-cases o.is_some) [
  | inl e ↦ rw e tt
  | inr e ↦ rw e tt
]
short_circuit-IsShort option_type (result r) metadata m = tt
short_circuit-IsShort option_type (either e) metadata m = tt
short_circuit-IsShort option_type (other o) metadata m = tt
short_circuit-IsShort either_type (either x) metadata m = elim (Bool-cases x.is_right) [
  | inl e ↦ rw e tt
  | inr e ↦ rw e tt
]
short_circuit-IsShort either_type (result r) metadata m = tt
short_circuit-IsShort either_type (option e) metadata m = tt
short_circuit-IsShort either_type (other o) metadata m = tt
short_circuit-IsShort other_type d metadata m = absurd m

module _ {ℓ} {W : Type ℓ} where
  pub send_value-IsClass :
      (kind : MonadType) (o : Outcome Object) (metadata : Metadata) (w : W)
      (next : Object → Metadata × W → Outcome Dyn × (Metadata × W))
      → ((v : Object) (s : Metadata × W) → Ends (IsClass kind) AnyExn (next v s).0)
      → Ends (IsClass kind) AnyExn (send_value o metadata w next).0
  send_value-IsClass kind (return v) metadata w next h = h v (metadata, w)
  send_value-IsClass kind (raise e) metadata w next h = tt

  advance-IsClass :
      (kind : MonadType) (o : Outcome (Maybe.Option Dyn)) (d : Dyn) (metadata : Metadata) (w : W)
      (next : Object → Metadata × W → Outcome Dyn × (Metadata × W))
      → IsShort kind o
      → ((v : Object) (s : Metadata × W) → Ends (IsClass kind) AnyExn (next v s).0)
      → Ends (IsClass kind) AnyExn (advance (of_kind kind) o d metadata w next).0
  unfolding unwrap
  advance-IsClass kind (raise e) d metadata w next short h = tt
  advance-IsClass kind (return (some x)) d metadata w next short h = short
  advance-IsClass kind (return none) d metadata w next short h =
      send_value-IsClass kind (unwrap d) (learn kind d metadata) w next h

  loop-IsClass :
      (kind : MonadType) (g : Generator W Dyn) (metadata : Metadata)
      → IsMonad kind
      → Ends (IsClass kind) AnyExn (loop (of_kind kind) g metadata).0
  unfolding loop
  loop-IsClass kind (stop v w) metadata m = pure-IsClass kind v metadata m
  loop-IsClass kind (throws e w) metadata m = tt
  loop-IsClass kind (yields d w resume) metadata m =
      advance-IsClass kind (short_circuit (of_kind kind) d metadata) d metadata w
        (λ v s. loop (of_kind kind) (resume v s.1) s.0) (short_circuit-IsShort kind d metadata m)
        (λ v s. loop-IsClass kind (resume v s.1) s.0 m)

  body-IsClass :
      (kind : MonadType) (o : Outcome (Called W Dyn)) (metadata : Metadata) (w : W)
      → IsMonad kind
      → Ends (IsClass kind) AnyExn (body (of_kind kind) o (metadata, w)).0
  unfolding body
  body-IsClass kind (return (plain v)) metadata w m = pure-IsClass kind v metadata m
  body-IsClass kind (return (generator start)) metadata w m = loop-IsClass kind (start w) metadata m
  body-IsClass kind (raise e) metadata w m = tt

  reraised-IsClass :
      (kind : MonadType) (e : Exn) (handled : Outcome Dyn × W) (w : W)
      → Ends (IsClass kind) AnyExn handled.0
      → Ends (IsClass kind) AnyExn (if is_exception e then handled else (raise e, w)).0
  reraised-IsClass kind e handled w h =
      Ends-if (IsClass kind) AnyExn (is_exception e) handled (raise e, w) (λ _. h) (λ _. tt)

  -- `finish` raises, or makes a failure of the block for `Result`.
  finish-IsClass :
      (kind : MonadType) (o : Outcome Dyn) (metadata : Metadata) (w : W)
      → Ends (IsClass kind) AnyExn o
      → Ends (IsClass kind) AnyExn (finish (of_kind kind) (o, (metadata, w))).0
  finish-IsClass kind (return d) metadata w h = h
  finish-IsClass result_type (raise e) metadata w h = reraised-IsClass result_type e _ w tt
  finish-IsClass option_type (raise e) metadata w h =
      reraised-IsClass option_type e (raise e, w) w tt
  finish-IsClass either_type (raise e) metadata w h =
      reraised-IsClass either_type e (raise e, w) w tt
  finish-IsClass other_type (raise e) metadata w h = reraised-IsClass other_type e (raise e, w) w tt

  pub run_do-IsClass :
      (kind : MonadType) (func : Py W (Called W Dyn)) (w : W)
      → IsMonad kind
      → Ends (IsClass kind) AnyExn (run_do (of_kind kind) func w).0
  unfolding run_do
  run_do-IsClass kind func w m =
      let (called, w') = func w in
      let (o, (metadata, u)) = body (of_kind kind) called ([], w') in
      finish-IsClass kind o metadata u (body-IsClass kind called [] w' m)
