-- ===== src/Monads/AsyncDo/Endless/Blocks.antt =====
-- The blocks of `async_do` and of `do` in python/src/aikernel_net/monads.py over a generator that may
-- yield for ever.
use mathlib.Core.Option as Maybe
use mathlib.Core.Option.{some}
use aikernel_core.Base.{ℕ, zero, suc, ◌≡◌, refl, ap}
use aikernel_core.Python.Object.{Object}
use aikernel_core.Python.Effect.{Outcome, return, raise}
use aikernel_core.Python.Dict.Laws.{IsDict}
use aikernel_core.Monads.Types.{Metadata, Dyn}
use aikernel_core.Monads.Do.{
  MonadType, result_type, option_type, either_type, other_type, pure_monad, finish,
}
use aikernel_core.Monads.Do.Endless.{
  Sent, stops, throws, yields, Config, Round, with_sent, by_round, round, rounds, initial,
  run_block,
}
use aikernel_core.Monads.Async.{Reply, resolved, resolve_result, resolve_option, resolve_either}
use aikernel_core.Monads.AsyncDo.Endless.{
  with_reply, with_yielded, finish_async, async_round, async_rounds, run_async_block,
}
use aikernel_core.Monads.AsyncDo.Endless.Agreement.{
  of_kind, IsSent, awaited_sent, Agrees, both_over, both_on, same_over, result-Agrees,
  option-Agrees, either-Agrees, other-Agrees,
}

module _ {ℓ κ} {S : Type ℓ} {W : Type κ} where
  reply-Agrees :
      (kind : MonadType) (reply : Reply W) (s : S) (metadata : Metadata) (w : W)
      → IsDict metadata
      → IsSent kind (awaited_sent (yields reply s, w))
      → Agrees kind
          (with_reply kind reply s metadata w)
          (with_sent (of_kind kind) (awaited_sent (yields reply s, w)) metadata)
  unfolding with_reply resolve_result resolve_option resolve_either
  reply-Agrees result_type reply s metadata w h y =
      let (o, u) = resolved reply w in result-Agrees o s metadata u h y
  reply-Agrees option_type reply s metadata w h y =
      let (o, u) = resolved reply w in option-Agrees o s metadata u h y
  reply-Agrees either_type reply s metadata w h y =
      let (o, u) = resolved reply w in either-Agrees o s metadata u h y
  reply-Agrees other_type reply s metadata w h y =
      let (o, u) = resolved reply w in other-Agrees o s metadata u y

  sent-Agrees :
      (kind : MonadType) (sent : Sent S (Reply W) × W) (metadata : Metadata)
      → IsDict metadata
      → IsSent kind (awaited_sent sent)
      → Agrees kind
          (with_yielded (of_kind kind) sent metadata)
          (with_sent (of_kind kind) (awaited_sent sent) metadata)
  unfolding with_sent with_yielded
  sent-Agrees kind (stops value, w) metadata h y =
      same_over kind (return (pure_monad (of_kind kind) value metadata)) metadata w refl refl
  sent-Agrees kind (throws e, w) metadata h y = same_over kind (raise e) metadata w refl refl
  sent-Agrees kind (yields reply s, w) metadata h y = reply-Agrees kind reply s metadata w h y

  by_round-Agrees :
      (kind : MonadType) {r q : Round S W}
      (next next' : Config S W → Maybe.Option (Outcome Dyn × (Metadata × W)))
      → Agrees kind r q
      → ((c : Config S W)
          → IsDict c.metadata
          → Maybe.map (finish_async kind) (next c) ≡ Maybe.map (finish (of_kind kind)) (next' c))
      → Maybe.map (finish_async kind) (by_round next r)
        ≡ Maybe.map (finish (of_kind kind)) (by_round next' q)
  by_round-Agrees kind next next' (both_over o p e f same) h = rw (e, f) (ap some same)
  by_round-Agrees kind next next' (both_on c e f d) h = rw (e, f) (h c d)

  module _ (send : S → Object → W → Sent S (Reply W) × W) where
    -- The generator of what the replies resolve to.
    abbrev pub awaited_send : S → Object → W → Sent S Dyn × W
    awaited_send s v w = awaited_sent (send s v w)

    rounds-Agree :
        (kind : MonadType)
        → ((t : S) (v : Object) (u : W) → IsSent kind (awaited_send t v u))
        → (fuel : ℕ) (c : Config S W) → IsDict c.metadata
        → Maybe.map (finish_async kind) (async_rounds send fuel (of_kind kind) c)
          ≡ Maybe.map (finish (of_kind kind)) (rounds awaited_send fuel (of_kind kind) c)
    unfolding async_rounds rounds async_round round
    rounds-Agree kind sent zero c d = refl
    rounds-Agree kind sent (suc fuel) c d =
        by_round-Agrees kind (async_rounds send fuel (of_kind kind))
          (rounds awaited_send fuel (of_kind kind))
          (sent-Agrees kind (send c.generator c.current c.world) c.metadata d
            (sent c.generator c.current c.world))
          (rounds-Agree kind sent fuel)

    -- Where every reply that is awaited resolves to an object of the class of the block, or raises, a
    -- block of `async_do` has for each number of sends the outcome and the effects of the block of
    -- `do` that yields what the replies resolve to and raises what awaiting them raises: both end
    -- alike, or neither has ended.
    pub run_async_block-run_block :
        (kind : MonadType) (fuel : ℕ) (s : S) (w : W)
        → ((t : S) (v : Object) (u : W) → IsSent kind (awaited_send t v u))
        → run_async_block send fuel (of_kind kind) s w
          ≡ run_block awaited_send fuel (of_kind kind) s w
    unfolding run_async_block run_block
    run_async_block-run_block kind fuel s w sent = rounds-Agree kind sent fuel (initial s w) tt
