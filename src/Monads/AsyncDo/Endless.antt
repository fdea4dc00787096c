-- ===== src/Monads/AsyncDo/Endless.antt =====
-- The loops of `async_do` in python/src/aikernel_net/monads.py over a generator that may yield for
-- ever: a generator is a state, and what `send` does in it. A loop takes fuel, one unit for each
-- `send`; `none` means that the fuel has run out.
pub mod Agreement
pub mod Blocks
use mathlib.Core.Option as Maybe
use mathlib.Core.Option.{none}
use aikernel_core.Base.{ℕ, zero, suc, if◌then◌else◌}
use aikernel_core.Python.Object.{Object}
use aikernel_core.Python.Effect.{Outcome, return, raise}
use aikernel_core.Python.Dict.{update}
use aikernel_core.Monads.Types.{Metadata, Result, Option, Either, Dyn, result, option, either}
use aikernel_core.Monads.Result
use aikernel_core.Monads.Option
use aikernel_core.Monads.Either
use aikernel_core.Monads.Do.{MonadType, result_type, either_type, DoState, pure_monad}
use aikernel_core.Monads.Do.Endless.{
  Sent, stops, throws, yields, Config, Round, over, with_value, by_round, initial,
}
use aikernel_core.Monads.Async.{Reply, resolve_result, resolve_option, resolve_either}
use aikernel_core.Monads.AsyncDo.{finish_result}

-- What becomes of an exception: only the loop for `Result` has a handler.
abbrev pub finish_async {ℓ} :
    {W : Type ℓ} → MonadType → Outcome Dyn × (Metadata × W) → Outcome Dyn × W
finish_async result_type p = finish_result p
finish_async _ (o, (metadata, w)) = (o, w)

module _ {ℓ κ} {S : Type ℓ} {W : Type κ} where
  -- A round of each loop after its resolver.
  abbrev pub with_result : Outcome Result → S → Metadata → W → Round S W
  unfolding Result.is_err Result.unwrap
  with_result (raise e) s metadata w = over (raise e, (metadata, w))
  with_result (return r) s metadata w =
      if Result.is_err r
      then over (return (result r), (metadata, w))
      else with_value (Result.unwrap r) s (update metadata r.metadata) w

  -- The loops for `Option` and `Either` have no variable `metadata`, which stays as it is here.
  abbrev pub with_option : Outcome Option → S → Metadata → W → Round S W
  unfolding Option.is_none Option.unwrap
  with_option (raise e) s metadata w = over (raise e, (metadata, w))
  with_option (return o) s metadata w =
      if Option.is_none o
      then over (return (option o), (metadata, w))
      else with_value (Option.unwrap o) s metadata w

  abbrev pub with_either : Outcome Either → S → Metadata → W → Round S W
  unfolding Either.is_left Either.unwrap
  with_either (raise e) s metadata w = over (raise e, (metadata, w))
  with_either (return e) s metadata w =
      if Either.is_left e
      then over (return (either e), (metadata, w))
      else with_value (Either.unwrap e) s metadata w

  -- A round after `send` has yielded, by `state.kind`.
  unfoldable pub with_reply : MonadType → Reply W → S → Metadata → W → Round S W
  unfolding resolve_result resolve_option resolve_either with_result with_option with_either
  with_reply result_type reply s metadata w =
      let (o, u) = resolve_result reply metadata w in with_result o s metadata u
  with_reply either_type reply s metadata w =
      let (o, u) = resolve_either reply w in with_either o s metadata u
  with_reply _ reply s metadata w =
      let (o, u) = resolve_option reply w in with_option o s metadata u

  unfoldable pub with_yielded : DoState → Sent S (Reply W) × W → Metadata → Round S W
  unfolding pure_monad with_reply
  with_yielded state (stops value, w) metadata =
      over (return (pure_monad state value metadata), (metadata, w))
  with_yielded state (throws e, w) metadata = over (raise e, (metadata, w))
  with_yielded state (yields reply s, w) metadata = with_reply state.kind reply s metadata w

  module _ (send : S → Object → W → Sent S (Reply W) × W) where
    -- One round of the loop.
    unfoldable pub async_round : DoState → Config S W → Round S W
    unfolding with_yielded
    async_round state c = with_yielded state (send c.generator c.current c.world) c.metadata

    -- The loop.
    unfoldable pub async_rounds :
        ℕ → DoState → Config S W → Maybe.Option (Outcome Dyn × (Metadata × W))
    unfolding async_round
    async_rounds zero state c = none
    async_rounds (suc fuel) state c = by_round (async_rounds fuel state) (async_round state c)

    -- `_run_async_result_do`, `_run_async_option_do` or `_run_async_either_do`, on a function that
    -- has returned a generator.
    unfoldable pub run_async_block : ℕ → DoState → S → W → Maybe.Option (Outcome Dyn × W)
    unfolding async_rounds
    run_async_block fuel state s w =
        Maybe.map (finish_async state.kind) (async_rounds fuel state (initial s w))
