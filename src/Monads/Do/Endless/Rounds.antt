-- ===== src/Monads/Do/Endless/Rounds.antt =====
-- The loop of `do` and its rounds: with enough fuel it ends just where the rounds end, and where the
-- generator ends on every path it does what the loop over the tree of the generator does.
use mathlib.Core.Option as Maybe
use mathlib.Core.Option.{some, none}
use aikernel_core.Base.{ℕ, zero, suc, ◌<◌, ◌≡◌, refl, ap, ◌∙◌, ◌⊎◌, inl, inr, arith}
use aikernel_core.Python.Object.{Object, Exn}
use aikernel_core.Python.Effect.{Outcome, return, raise}
use aikernel_core.Monads.Types.{Metadata, Dyn}
use aikernel_core.Monads.Generator as Trees
use aikernel_core.Monads.Generator.{Generator}
use aikernel_core.Monads.Do.{DoState, short_circuit, unwrap, learn, loop, advance, send_value}
use aikernel_core.Monads.Do.Endless.{
  Sent, stops, throws, yields, Config, Round, over, on, with_value, with_short, by_round, round,
  rounds,
}

module _ {ℓ κ} {S : Type ℓ} {W : Type κ} (send : S → Object → W → Sent S Dyn × W)
    (state : DoState) where
  -- The loop gets from one configuration to another in `n` rounds.
  pub data Reach : ℕ → Config S W → Config S W → Type (ℓ ⊔ κ) where
    here : (c : Config S W) → Reach zero c c
    more :
        {n : ℕ} {c b d : Config S W} → round send state c ≡ on b → Reach n b d → Reach (suc n) c d

  Round-cases :
      (r : Round S W)
      → ((o : Outcome Dyn × (Metadata × W)) × (r ≡ over o)) ⊎ ((c : Config S W) × (r ≡ on c))
  Round-cases (over o) = inl (o, refl)
  Round-cases (on c) = inr (c, refl)

  -- With more fuel than it has rounds to go, the loop ends as its last round ends.
  pub rounds-Reach :
      (fuel : ℕ) {n : ℕ} {c d : Config S W} {o : Outcome Dyn × (Metadata × W)}
      → Reach n c d
      → round send state d ≡ over o
      → n < fuel
      → rounds send fuel state c ≡ some o
  unfolding rounds
  rounds-Reach zero r e lt = elim lt [ ]
  rounds-Reach (suc fuel) (here c) e lt = rw e refl
  rounds-Reach (suc fuel) (more step r) e lt = rw step (rounds-Reach fuel r e (omega arith))

  -- What a loop that has ended did.
  abbrev pub Ended : ℕ → Config S W → Outcome Dyn × (Metadata × W) → Type (ℓ ⊔ κ)
  Ended fuel c o =
      (n : ℕ) × (d : Config S W) × Reach n c d × (round send state d ≡ over o) × (n < fuel)

  -- Where the loop has ended with some fuel, it has gone through rounds to a last one that ends so.
  pub rounds-Ended :
      (fuel : ℕ) (c : Config S W) (o : Outcome Dyn × (Metadata × W))
      → rounds send fuel state c ≡ some o
      → Ended fuel c o
  unfolding rounds
  rounds-Ended zero c o e = cc
  rounds-Ended (suc fuel) c o e = elim (Round-cases (round send state c)) [
    | inl (p, over_p) ↦
        let same : p ≡ o = cc (rw over_p at e) in
        (zero, c, here c, over_p ∙ ap over same, omega arith)
    | inr (b, on_b) ↦
        let (n, d, r, last, lt) = rounds-Ended fuel b o (rw on_b at e) in
        (suc n, d, more on_b r, last, omega arith)
  ]

  -- A generator that ends on every path, with the tree of what it does.
  pub data Unfolds : S → Object → W → Generator W Dyn → Type (ℓ ⊔ κ) where
    stopped :
        {s : S} {v : Object} {w : W} (x : Object) (u : W)
        → send s v w ≡ (stops x, u)
        → Unfolds s v w (Trees.stop x u)
    thrown :
        {s : S} {v : Object} {w : W} (e : Exn) (u : W)
        → send s v w ≡ (throws e, u)
        → Unfolds s v w (Trees.throws e u)
    yielded :
        {s : S} {v : Object} {w : W} (monad : Dyn) (t : S) (u : W)
        (k : Object → W → Generator W Dyn)
        → send s v w ≡ (yields monad t, u)
        → ((v' : Object) (u' : W) → Unfolds t v' u' (k v' u'))
        → Unfolds s v w (Trees.yields monad u k)

  abbrev pub config : S → Object → Metadata → W → Config S W
  config s v metadata w = record { generator = s; current = v; metadata = metadata; world = w }

  value-loop :
      (o : Outcome Object) (t : S) (metadata : Metadata) (u : W)
      (next : Object → Metadata × W → Outcome Dyn × (Metadata × W))
      → ((v : Object) (m : Metadata)
          → (fuel : ℕ) × (rounds send fuel state (config t v m u) ≡ some (next v (m, u))))
      → (fuel : ℕ) × (by_round (rounds send fuel state) (with_value o t metadata u)
          ≡ some (send_value o metadata u next))
  value-loop (return v) t metadata u next go_on = go_on v metadata
  value-loop (raise e) t metadata u next go_on = (0, refl)

  short-loop :
      (o : Outcome (Maybe.Option Dyn)) (monad : Dyn) (t : S) (metadata : Metadata) (u : W)
      (next : Object → Metadata × W → Outcome Dyn × (Metadata × W))
      → ((v : Object) (m : Metadata)
          → (fuel : ℕ) × (rounds send fuel state (config t v m u) ≡ some (next v (m, u))))
      → (fuel : ℕ) × (by_round (rounds send fuel state) (with_short state o monad t metadata u)
          ≡ some (advance state o monad metadata u next))
  unfolding unwrap with_short
  short-loop (raise e) monad t metadata u next go_on = (0, refl)
  short-loop (return (some short)) monad t metadata u next go_on = (0, refl)
  short-loop (return none) monad t metadata u next go_on =
      value-loop (unwrap monad) t (learn state.kind monad metadata) u next go_on

  -- Over a generator that ends on every path, the loop ends with enough fuel, and with what the loop
  -- over the tree of the generator ends with.
  pub rounds-loop :
      {s : S} {v : Object} {w : W} {g : Generator W Dyn} (metadata : Metadata)
      → Unfolds s v w g
      → (fuel : ℕ) × (rounds send fuel state (config s v metadata w) ≡ some (loop state g metadata))
  unfolding rounds round loop
  rounds-loop metadata (stopped x u e) = (1, rw e refl)
  rounds-loop metadata (thrown x u e) = (1, rw e refl)
  rounds-loop metadata (yielded monad t u k e next) =
      let (fuel, found) =
        short-loop (short_circuit state monad metadata) monad t metadata u
          (λ v p. loop state (k v p.1) p.0) (λ v m. rounds-loop m (next v u)) in
      (suc fuel, rw e found)
