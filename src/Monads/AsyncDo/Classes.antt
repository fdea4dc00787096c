-- ===== src/Monads/AsyncDo/Classes.antt =====
-- Of which class what awaiting a block of `async_do` in python/src/aikernel_net/monads.py gives is, and
-- what a block of `do` gives.
use aikernel_core.Base.{◌≡◌, []}
use aikernel_core.Python.Object.{Object, is_exception}
use aikernel_core.Python.Effect.{Outcome, return, raise, Py, proceed}
use aikernel_core.Python.Effect.Rules.{Ends, Ends-if}
use aikernel_core.Monads.Types.{Metadata, Result, Option, Either, Dyn}
use aikernel_core.Monads.Result
use aikernel_core.Monads.Option
use aikernel_core.Monads.Either
use aikernel_core.Monads.Generator.{Generator, stop, throws, yields, Called, plain, generator}
use aikernel_core.Monads.Do.{
  MonadType, result_type, option_type, either_type, other_type, DoState, decorate, run_do,
}
use aikernel_core.Monads.Do.Classes.{
  IsClass, IsMonad, AnyExn, of_kind, pure-IsClass, send_value-IsClass, run_do-IsClass,
}
use aikernel_core.Monads.Async.{Reply, resolved, resolve_result, resolve_option, resolve_either}
use aikernel_core.Monads.AsyncDo.{
  decorate as async_decorate, advance_result, loop_result, body_result, finish_result,
  run_async_result_do, advance_option, loop_option, start_option, run_async_option_do,
  advance_either, loop_either, start_either, run_async_either_do, async_do,
}

decorate-of_kind :
    (kind : MonadType) (state : DoState)
    → decorate kind ≡ return state
    → IsMonad kind × (state ≡ of_kind kind)
unfolding decorate
decorate-of_kind result_type state e = (tt, cc)
decorate-of_kind option_type state e = (tt, cc)
decorate-of_kind either_type state e = (tt, cc)
decorate-of_kind other_type state e = cc

async_decorate-of_kind :
    (kind : MonadType) (state : DoState) → async_decorate kind ≡ return state → state ≡ of_kind kind
unfolding async_decorate
async_decorate-of_kind result_type state e = cc
async_decorate-of_kind option_type state e = cc
async_decorate-of_kind either_type state e = cc
async_decorate-of_kind other_type state e = cc

module _ {ℓ} {W : Type ℓ} where
  advance_result-IsClass :
      (o : Outcome Result) (metadata : Metadata) (w : W)
      (next : Object → Metadata × W → Outcome Dyn × (Metadata × W))
      → ((v : Object) (s : Metadata × W) → Ends (IsClass result_type) AnyExn (next v s).0)
      → Ends (IsClass result_type) AnyExn (advance_result o metadata w next).0
  unfolding advance_result
  advance_result-IsClass (raise e) metadata w next h = tt
  advance_result-IsClass (return r) metadata w next h =
      Ends-if (IsClass result_type) AnyExn (Result.is_err r) _ _ (λ _. tt)
        (λ _. send_value-IsClass result_type (Result.unwrap r) _ w next h)

  loop_result-IsClass :
      (g : Generator W (Reply W)) (metadata : Metadata)
      → Ends (IsClass result_type) AnyExn (loop_result (of_kind result_type) g metadata).0
  unfolding loop_result
  loop_result-IsClass (stop v w) metadata = pure-IsClass result_type v metadata tt
  loop_result-IsClass (throws e w) metadata = tt
  loop_result-IsClass (yields reply w resume) metadata =
      let (o, u) = resolve_result reply metadata w in
      advance_result-IsClass o metadata u
        (λ v s. loop_result (of_kind result_type) (resume v s.1) s.0)
        (λ v s. loop_result-IsClass (resume v s.1) s.0)

  body_result-IsClass :
      (o : Outcome (Called W (Reply W))) (metadata : Metadata) (w : W)
      → Ends (IsClass result_type) AnyExn (body_result (of_kind result_type) o (metadata, w)).0
  unfolding body_result
  body_result-IsClass (return (plain v)) metadata w = pure-IsClass result_type v metadata tt
  body_result-IsClass (return (generator start)) metadata w = loop_result-IsClass (start w) metadata
  body_result-IsClass (raise e) metadata w = tt

  finish_result-IsClass :
      (o : Outcome Dyn) (metadata : Metadata) (w : W)
      → Ends (IsClass result_type) AnyExn o
      → Ends (IsClass result_type) AnyExn (finish_result (o, (metadata, w))).0
  finish_result-IsClass (return d) metadata w h = h
  finish_result-IsClass (raise e) metadata w h =
      Ends-if (IsClass result_type) AnyExn (is_exception e) _ _ (λ _. tt) (λ _. tt)

  proceed-IsClass {κ} :
      {A : Type κ} (kind : MonadType) (o : Outcome A) (k : A → Py W Dyn) (w : W)
      → ((a : A) (u : W) → Ends (IsClass kind) AnyExn (k a u).0)
      → Ends (IsClass kind) AnyExn (proceed o k w).0
  proceed-IsClass kind (return a) k w h = h a w
  proceed-IsClass kind (raise e) k w h = tt

  advance_option-IsClass :
      (next : Object → Py W Dyn) (x : Option) (w : W)
      → ((v : Object) (u : W) → Ends (IsClass option_type) AnyExn (next v u).0)
      → Ends (IsClass option_type) AnyExn (advance_option next x w).0
  unfolding advance_option
  advance_option-IsClass next x w h =
      Ends-if (IsClass option_type) AnyExn (Option.is_none x) _ _ (λ _. tt)
        (λ _. proceed-IsClass option_type (Option.unwrap x) next w h)

  loop_option-IsClass :
      (g : Generator W (Reply W))
      → Ends (IsClass option_type) AnyExn (loop_option (of_kind option_type) g).0
  unfolding loop_option
  loop_option-IsClass (stop v w) = pure-IsClass option_type v [] tt
  loop_option-IsClass (throws e w) = tt
  loop_option-IsClass (yields reply w resume) =
      let (o, u) = resolve_option reply w in
      proceed-IsClass option_type o
        (advance_option (λ v t. loop_option (of_kind option_type) (resume v t))) u
        (λ x t.
          advance_option-IsClass (λ v z. loop_option (of_kind option_type) (resume v z)) x t
            (λ v z. loop_option-IsClass (resume v z)))

  start_option-IsClass :
      (c : Called W (Reply W)) (w : W)
      → Ends (IsClass option_type) AnyExn (start_option (of_kind option_type) c w).0
  unfolding start_option
  start_option-IsClass (plain v) w = pure-IsClass option_type v [] tt
  start_option-IsClass (generator start) w = loop_option-IsClass (start w)

  advance_either-IsClass :
      (next : Object → Py W Dyn) (x : Either) (w : W)
      → ((v : Object) (u : W) → Ends (IsClass either_type) AnyExn (next v u).0)
      → Ends (IsClass either_type) AnyExn (advance_either next x w).0
  unfolding advance_either
  advance_either-IsClass next x w h =
      Ends-if (IsClass either_type) AnyExn (Either.is_left x) _ _ (λ _. tt)
        (λ _. proceed-IsClass either_type (Either.unwrap x) next w h)

  loop_either-IsClass :
      (g : Generator W (Reply W))
      → Ends (IsClass either_type) AnyExn (loop_either (of_kind either_type) g).0
  unfolding loop_either
  loop_either-IsClass (stop v w) = pure-IsClass either_type v [] tt
  loop_either-IsClass (throws e w) = tt
  loop_either-IsClass (yields reply w resume) =
      let (o, u) = resolve_either reply w in
      proceed-IsClass either_type o
        (advance_either (λ v t. loop_either (of_kind either_type) (resume v t))) u
        (λ x t.
          advance_either-IsClass (λ v z. loop_either (of_kind either_type) (resume v z)) x t
            (λ v z. loop_either-IsClass (resume v z)))

  start_either-IsClass :
      (c : Called W (Reply W)) (w : W)
      → Ends (IsClass either_type) AnyExn (start_either (of_kind either_type) c w).0
  unfolding start_either
  start_either-IsClass (plain v) w = pure-IsClass either_type v [] tt
  start_either-IsClass (generator start) w = loop_either-IsClass (start w)

  -- Awaiting what a call of the decorated function gives.
  async_do-IsClass :
      (kind : MonadType) (func : Py W (Called W (Reply W))) (w : W)
      → IsMonad kind
      → Ends (IsClass kind) AnyExn (resolved (async_do (of_kind kind) func) w).0
  unfolding async_do run_async_result_do run_async_option_do run_async_either_do
  async_do-IsClass result_type func w m =
      let (called, u) = func w in
      let (o, (metadata, t)) = body_result (of_kind result_type) called ([], u) in
      finish_result-IsClass o metadata t (body_result-IsClass called [] u)
  async_do-IsClass option_type func w m =
      let (called, u) = func w in
      proceed-IsClass option_type called (start_option (of_kind option_type)) u start_option-IsClass
  async_do-IsClass either_type func w m =
      let (called, u) = func w in
      proceed-IsClass either_type called (start_either (of_kind either_type)) u start_either-IsClass
  async_do-IsClass other_type func w m = absurd m

  -- Whatever the decorated function does, a block of `do` returns an object of the class that `do` is
  -- given, or raises; and so does awaiting a block of `async_do`.
  pub blocks-IsClass :
      (kind : MonadType) (state async_state : DoState) (func : Py W (Called W Dyn))
      (async_func : Py W (Called W (Reply W))) (w : W)
      → decorate kind ≡ return state
      → async_decorate kind ≡ return async_state
      → Ends (IsClass kind) AnyExn (run_do state func w).0
        × Ends (IsClass kind) AnyExn (resolved (async_do async_state async_func) w).0
  blocks-IsClass kind state async_state func async_func w e f =
      let (m, same) = decorate-of_kind kind state e in
      rw (same, async_decorate-of_kind kind async_state f)
        (run_do-IsClass kind func w m, async_do-IsClass kind async_func w m)
