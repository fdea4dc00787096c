-- ===== src/Monads/Option/Laws.antt =====
-- The laws of `bind`, `map` and `where` of an `Option`.
use aikernel_core.Base.{◌≡◌, refl, sym, ◌∙◌, true, false, Bool-cases, inl, inr, if◌then◌else◌}
use aikernel_core.Python.Object.{Object, truthy}
use aikernel_core.Python.Effect.{Outcome, return, raise, Py, pure, ◌>>=◌, proceed}
use aikernel_core.Monads.Types.{Option, Dyn, result, option, either, other, some, nothing}
use aikernel_core.Monads.Option.{accept, then_some, bind, map, filtered, filter_where}

-- An `Option`, or an exception.
abbrev pub IsOption : Outcome Dyn → Type 0
IsOption (return (option _)) = Unit
IsOption (return _) = ⊥
IsOption (raise e) = Unit

module _ {ℓ} {W : Type ℓ} where
  -- `monad.bind(func)`, where `monad` is an `Option`
  abbrev pub bind_reply : Dyn → (Object → Py W Dyn) → Py W Dyn
  bind_reply (option x) func = bind x func >>= λ y. pure (option y)
  bind_reply reply func = pure reply

  pub bind-present :
      (self : Option) (func : Object → Py W Dyn) (w : W)
      → self.is_some ≡ true
      → bind self func w ≡ (func self.value >>= accept) w
  unfolding bind
  bind-present self func w e = rw e

  pub bind-absent :
      (self : Option) (func : Object → Py W Dyn) (w : W)
      → self.is_some ≡ false
      → bind self func w ≡ (return nothing, w)
  unfolding bind
  bind-absent self func w e = rw e

  pub accept_reply :
      (o : Outcome Option) (w : W)
      → (let (o', w') = proceed o (λ y. pure (option y)) w in proceed o' accept w') ≡ (o, w)
  accept_reply (return y) w = refl
  accept_reply (raise e) w = refl

  bind_after :
      (o : Outcome Dyn) (g : Object → Py W Dyn) (w : W)
      → IsOption o
      → (let (x, w') = proceed o accept w in proceed x (λ x. bind x g) w')
        ≡ (let (o', w') = proceed o (λ d. bind_reply d g) w in proceed o' accept w')
  bind_after (return (option x)) g w h = sym (accept_reply (bind x g w).0 (bind x g w).1)
  bind_after (return (result _)) g w h = absurd h
  bind_after (return (either _)) g w h = absurd h
  bind_after (return (other _)) g w h = absurd h
  bind_after (raise e) g w h = refl

  -- `bind` is associative where the first callback returns an `Option` or raises. The second
  -- callback may return or raise anything.
  pub option_bind_assoc :
      (self : Option) (f g : Object → Py W Dyn) (w : W)
      → ((v : Object) (u : W) → IsOption (f v u).0)
      → (bind self f >>= λ x. bind x g) w ≡ bind self (λ v. f v >>= λ d. bind_reply d g) w
  option_bind_assoc self f g w h = elim (Bool-cases self.is_some) [
    | inl e ↦
        rw (bind-present self f w e, bind-present self (λ v. f v >>= λ d. bind_reply d g) w e)
          (bind_after (f self.value w).0 g (f self.value w).1 (h self.value w))
    | inr e ↦
        rw (bind-absent self f w e, bind-absent self (λ v. f v >>= λ d. bind_reply d g) w e)
          (bind-absent nothing g w refl)
  ]

  accept-then_some :
      (o : Outcome Object) (w : W)
      → (let (d, w') = proceed o (λ v. pure (option (some v))) w in proceed d accept w')
        ≡ proceed o (λ v. pure (some v)) w
  accept-then_some (return v) w = refl
  accept-then_some (raise e) w = refl

  map-present :
      (self : Option) (func : Object → Py W Object) (w : W)
      → self.is_some ≡ true
      → map self func w ≡ (func self.value >>= λ v. pure (some v)) w
  unfolding map
  map-present self func w e =
      bind-present self (then_some func) w e
      ∙ accept-then_some (func self.value w).0 (func self.value w).1

  map-absent :
      (self : Option) (func : Object → Py W Object) (w : W)
      → self.is_some ≡ false
      → map self func w ≡ (return nothing, w)
  unfolding map
  map-absent self func w e = bind-absent self (then_some func) w e

  map_after :
      (o : Outcome Object) (g : Object → Py W Object) (w : W)
      → (let (x, w') = proceed o (λ v. pure (some v)) w in proceed x (λ x. map x g) w')
        ≡ (let (o', w') = proceed o g w in proceed o' (λ v. pure (some v)) w')
  map_after (return v) g w = map-present (some v) g w refl
  map_after (raise e) g w = refl

  -- Two maps are one map of the composed function, also where one of the functions raises.
  pub option_map-map :
      (self : Option) (f g : Object → Py W Object) (w : W)
      → (map self f >>= λ x. map x g) w ≡ map self (λ v. f v >>= g) w
  option_map-map self f g w = elim (Bool-cases self.is_some) [
    | inl e ↦
        rw (map-present self f w e, map-present self (λ v. f v >>= g) w e)
          (map_after (f self.value w).0 g (f self.value w).1)
    | inr e ↦
        rw (map-absent self f w e, map-absent self (λ v. f v >>= g) w e)
          (map-absent nothing g w refl)
  ]

  -- `lambda value: p(value) and q(value)`
  abbrev pub both : (p q : Object → Py W Object) → Object → Py W Object
  both p q v = p v >>= λ b w. if truthy b then q v w else pure b w

  where-present :
      (self : Option) (p : Object → Py W Object) (w : W)
      → self.is_some ≡ true
      → filter_where self p w ≡ (p self.value >>= filtered self) w
  unfolding filter_where
  where-present self p w e = rw e

  where-absent :
      (self : Option) (p : Object → Py W Object) (w : W)
      → self.is_some ≡ false
      → filter_where self p w ≡ (return self, w)
  unfolding filter_where
  where-absent self p w e = rw e

  where_after :
      (self : Option) (o : Outcome Object) (q : Object → Py W Object) (w : W)
      → self.is_some ≡ true
      → (let (x, w') = proceed o (filtered self) w in proceed x (λ x. filter_where x q) w') ≡ (
          let (b, w') = proceed o (λ b w. if truthy b then q self.value w else pure b w) w in
          proceed b (filtered self) w')
  unfolding filtered
  where_after self (return b) q w e = elim (Bool-cases (truthy b)) [
    | inl h ↦ rw h (where-present self q w e)
    | inr h ↦ rw h (rw h (where-absent nothing q w refl))
  ]
  where_after self (raise x) q w e = refl

  -- Two filters are one, by the conjunction that does not run its second test where the
  -- first one fails.
  pub option_where-where :
      (self : Option) (p q : Object → Py W Object) (w : W)
      → (filter_where self p >>= λ x. filter_where x q) w ≡ filter_where self (both p q) w
  option_where-where self p q w = elim (Bool-cases self.is_some) [
    | inl e ↦
        rw (where-present self p w e, where-present self (both p q) w e)
          (where_after self (p self.value w).0 q (p self.value w).1 e)
    | inr e ↦
        rw (where-absent self p w e, where-absent self (both p q) w e) (where-absent self q w e)
  ]

  -- `bind` is associative where the first callback returns an `Option` or raises; two maps are one
  -- map of the composed function; and two filters are one, by the conjunction that does not run its
  -- second test where the first one fails. Callbacks may raise.
  pub option_laws :
      (self : Option) (f g : Object → Py W Dyn) (p q : Object → Py W Object) (w : W)
      → ((v : Object) (u : W) → IsOption (f v u).0)
      → ((bind self f >>= λ x. bind x g) w ≡ bind self (λ v. f v >>= λ d. bind_reply d g) w)
        × ((map self p >>= λ x. map x q) w ≡ map self (λ v. p v >>= q) w)
        × ((filter_where self p >>= λ x. filter_where x q) w ≡ filter_where self (both p q) w)
  option_laws self f g p q w h =
      (option_bind_assoc self f g w h, option_map-map self p q w, option_where-where self p q w)
