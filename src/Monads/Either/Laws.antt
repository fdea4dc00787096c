-- ===== src/Monads/Either/Laws.antt =====
-- The laws of `bind`, `map` and `where` of an `Either`.
use aikernel_core.Base.{◌≡◌, refl, sym, ◌∙◌, true, false, Bool-cases, inl, inr, if◌then◌else◌}
use aikernel_core.Python.Object.{Object, truthy}
use aikernel_core.Python.Effect.{Outcome, return, raise, Py, pure, ◌>>=◌, proceed}
use aikernel_core.Monads.Types.{Either, Dyn, result, option, either, other, right, left}
use aikernel_core.Monads.Either.{accept, then_right, bind, map, filtered, filter_where}

-- An `Either`, or an exception.
abbrev pub IsEither : Outcome Dyn → Type 0
IsEither (return (either _)) = Unit
IsEither (return _) = ⊥
IsEither (raise e) = Unit

module _ {ℓ} {W : Type ℓ} where
  -- `monad.bind(func)`, where `monad` is an `Either`
  abbrev pub bind_reply : Dyn → (Object → Py W Dyn) → Py W Dyn
  bind_reply (either x) func = bind x func >>= λ y. pure (either y)
  bind_reply reply func = pure reply

  pub bind-present :
      (self : Either) (func : Object → Py W Dyn) (w : W)
      → self.is_right ≡ true
      → bind self func w ≡ (func self.right >>= accept) w
  unfolding bind
  bind-present self func w e = rw e

  pub bind-absent :
      (self : Either) (func : Object → Py W Dyn) (w : W)
      → self.is_right ≡ false
      → bind self func w ≡ (return (left self.left), w)
  unfolding bind
  bind-absent self func w e = rw e

  pub accept_reply :
      (o : Outcome Either) (w : W)
      → (let (o', w') = proceed o (λ y. pure (either y)) w in proceed o' accept w') ≡ (o, w)
  accept_reply (return y) w = refl
  accept_reply (raise e) w = refl

  bind_after :
      (o : Outcome Dyn) (g : Object → Py W Dyn) (w : W)
      → IsEither o
      → (let (x, w') = proceed o accept w in proceed x (λ x. bind x g) w')
        ≡ (let (o', w') = proceed o (λ d. bind_reply d g) w in proceed o' accept w')
  bind_after (return (either x)) g w h = sym (accept_reply (bind x g w).0 (bind x g w).1)
  bind_after (return (result _)) g w h = absurd h
  bind_after (return (option _)) g w h = absurd h
  bind_after (return (other _)) g w h = absurd h
  bind_after (raise e) g w h = refl

  -- `bind` is associative where the first callback returns an `Either` or raises. The second
  -- callback may return or raise anything.
  pub either_bind_assoc :
      (self : Either) (f g : Object → Py W Dyn) (w : W)
      → ((v : Object) (u : W) → IsEither (f v u).0)
      → (bind self f >>= λ x. bind x g) w ≡ bind self (λ v. f v >>= λ d. bind_reply d g) w
  either_bind_assoc self f g w h = elim (Bool-cases self.is_right) [
    | inl e ↦
        rw (bind-present self f w e, bind-present self (λ v. f v >>= λ d. bind_reply d g) w e)
          (bind_after (f self.right w).0 g (f self.right w).1 (h self.right w))
    | inr e ↦
        rw (bind-absent self f w e, bind-absent self (λ v. f v >>= λ d. bind_reply d g) w e)
          (bind-absent (left self.left) g w refl)
  ]

  accept-then_right :
      (o : Outcome Object) (w : W)
      → (let (d, w') = proceed o (λ v. pure (either (right v))) w in proceed d accept w')
        ≡ proceed o (λ v. pure (right v)) w
  accept-then_right (return v) w = refl
  accept-then_right (raise e) w = refl

  map-present :
      (self : Either) (func : Object → Py W Object) (w : W)
      → self.is_right ≡ true
      → map self func w ≡ (func self.right >>= λ v. pure (right v)) w
  unfolding map
  map-present self func w e =
      bind-present self (then_right func) w e
      ∙ accept-then_right (func self.right w).0 (func self.right w).1

  map-absent :
      (self : Either) (func : Object → Py W Object) (w : W)
      → self.is_right ≡ false
      → map self func w ≡ (return (left self.left), w)
  unfolding map
  map-absent self func w e = bind-absent self (then_right func) w e

  map_after :
      (o : Outcome Object) (g : Object → Py W Object) (w : W)
      → (let (x, w') = proceed o (λ v. pure (right v)) w in proceed x (λ x. map x g) w')
        ≡ (let (o', w') = proceed o g w in proceed o' (λ v. pure (right v)) w')
  map_after (return v) g w = map-present (right v) g w refl
  map_after (raise e) g w = refl

  -- Two maps are one map of the composed function, also where one of the functions raises.
  pub either_map-map :
      (self : Either) (f g : Object → Py W Object) (w : W)
      → (map self f >>= λ x. map x g) w ≡ map self (λ v. f v >>= g) w
  either_map-map self f g w = elim (Bool-cases self.is_right) [
    | inl e ↦
        rw (map-present self f w e, map-present self (λ v. f v >>= g) w e)
          (map_after (f self.right w).0 g (f self.right w).1)
    | inr e ↦
        rw (map-absent self f w e, map-absent self (λ v. f v >>= g) w e)
          (map-absent (left self.left) g w refl)
  ]

  -- `lambda value: p(value) and q(value)`
  abbrev pub both : (p q : Object → Py W Object) → Object → Py W Object
  both p q v = p v >>= λ b w. if truthy b then q v w else pure b w

  where-present :
      (self : Either) (p : Object → Py W Object) (left_factory : Py W Object) (w : W)
      → self.is_right ≡ true
      → filter_where self p left_factory w ≡ (p self.right >>= filtered self left_factory) w
  unfolding filter_where
  where-present self p left_factory w e = rw e

  where-absent :
      (self : Either) (p : Object → Py W Object) (left_factory : Py W Object) (w : W)
      → self.is_right ≡ false
      → filter_where self p left_factory w ≡ (return self, w)
  unfolding filter_where
  where-absent self p left_factory w e = rw e

  where-left :
      (o : Outcome Object) (q : Object → Py W Object) (left_factory : Py W Object) (w : W)
      → (let (x, w') = proceed o (λ l. pure (left l)) w in
          proceed x (λ x. filter_where x q left_factory) w')
        ≡ proceed o (λ l. pure (left l)) w
  where-left (return l) q left_factory w = where-absent (left l) q left_factory w refl
  where-left (raise e) q left_factory w = refl

  where_after :
      (self : Either) (o : Outcome Object) (q : Object → Py W Object) (left_factory : Py W Object)
      (w : W)
      → self.is_right ≡ true
      → (let (x, w') = proceed o (filtered self left_factory) w in
          proceed x (λ x. filter_where x q left_factory) w')
        ≡ (let (b, w') = proceed o (λ b w. if truthy b then q self.right w else pure b w) w in
            proceed b (filtered self left_factory) w')
  unfolding filtered
  where_after self (return b) q left_factory w e = elim (Bool-cases (truthy b)) [
    | inl h ↦ rw h (where-present self q left_factory w e)
    | inr h ↦ rw h (rw h (where-left (left_factory w).0 q left_factory (left_factory w).1))
  ]
  where_after self (raise x) q left_factory w e = refl

  -- Two filters with one factory of left values are one, by the conjunction that does not run its
  -- second test where the first one fails.
  pub either_where-where :
      (self : Either) (p q : Object → Py W Object) (left_factory : Py W Object) (w : W)
      → (filter_where self p left_factory >>= λ x. filter_where x q left_factory) w
        ≡ filter_where self (both p q) left_factory w
  either_where-where self p q left_factory w = elim (Bool-cases self.is_right) [
    | inl e ↦
        rw (where-present self p left_factory w e, where-present self (both p q) left_factory w e)
          (where_after self (p self.right w).0 q left_factory (p self.right w).1 e)
    | inr e ↦
        rw (where-absent self p left_factory w e, where-absent self (both p q) left_factory w e)
          (where-absent self q left_factory w e)
  ]

  -- `bind` is associative where the first callback returns an `Either` or raises; two maps are one
  -- map of the composed function; and two filters with one factory of left values are one, by the
  -- conjunction that does not run its second test where the first one fails. Callbacks may raise.
  pub either_laws :
      (self : Either) (f g : Object → Py W Dyn) (p q : Object → Py W Object)
      (left_factory : Py W Object) (w : W)
      → ((v : Object) (u : W) → IsEither (f v u).0)
      → ((bind self f >>= λ x. bind x g) w ≡ bind self (λ v. f v >>= λ d. bind_reply d g) w)
        × ((map self p >>= λ x. map x q) w ≡ map self (λ v. p v >>= q) w)
        × ((filter_where self p left_factory >>= λ x. filter_where x q left_factory) w
            ≡ filter_where self (both p q) left_factory w)
  either_laws self f g p q left_factory w h = (
    either_bind_assoc self f g w h,
    either_map-map self p q w,
    either_where-where self p q left_factory w,
  )
