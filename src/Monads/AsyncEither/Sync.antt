-- ===== src/Monads/AsyncEither/Sync.antt =====
-- `AsyncEither` agrees with `Either` once its awaitable has returned.
use aikernel_core.Base.{◌≡◌, refl, ◌∙◌, ap, sym, true, Bool-cases, inl, inr}
use aikernel_core.Python.Object.{Object, truthy}
use aikernel_core.Python.Effect.{Outcome, return, raise, Py, pure, proceed, ◌>>=◌}
use aikernel_core.Monads.Types.{Either, Dyn, result, option, either, other, left}
use aikernel_core.Monads.Async.{
  AsyncEither, Reply, Observed, observe, resolved, checked_either, resolve_either,
}
use aikernel_core.Monads.Dyn
use aikernel_core.Monads.Either
use aikernel_core.Monads.Either.Laws.{IsEither, bind-present, bind-absent}
use aikernel_core.Monads.AsyncEither.{
  map, bind, bind_run, tap_run, tap, filtered, where_run, filter_where,
}

module _ {ℓ} {W : Type ℓ} where
  -- An `Either` of a computation, as an object.
  abbrev pub as_dyn : Py W Either → Py W Dyn
  as_dyn m = m >>= λ x. pure (either x)

  proceed-as_dyn :
      {A : Type 0} (o : Outcome A) (k : A → Py W Either) (k' : A → Py W Dyn) (w : W)
      → ((a : A) → k' a w ≡ as_dyn (k a) w)
      → proceed o k' w ≡ as_dyn (proceed o k) w
  proceed-as_dyn (return a) k k' w same = same a
  proceed-as_dyn (raise e) k k' w same = refl

  tap_run-sync :
      (action : Object → Py W (Observed W)) (x : Either) (w : W)
      → tap_run action x w ≡ as_dyn (Either.tap x (λ v. action v >>= observe)) w
  unfolding tap_run Either.unwrap Either.tap
  tap_run-sync action x w = elim (Bool-cases x.is_right) [
    | inl e ↦
        let (o, u) = (action x.right >>= observe) w in
        simp e (proceed-as_dyn o (λ _. pure x) (λ _. pure (either x)) u (λ a. refl))
    | inr e ↦ simp e refl
  ]

  filtered-sync :
      (x : Either) (left_factory : Py W Object) (passed : Object) (w : W)
      → filtered x left_factory passed w ≡ as_dyn (Either.filtered x left_factory passed) w
  unfolding filtered truthy
  filtered-sync x left_factory passed w = elim (Bool-cases (truthy passed)) [
    | inl e ↦ rw e refl
    | inr e ↦ rw e (
        proceed-as_dyn (left_factory w).0 (λ l. pure (left l)) (λ l. pure (either (left l)))
          (left_factory w).1 (λ a. refl))
  ]

  where_run-sync :
      (predicate : Object → Py W (Observed W)) (left_factory : Py W Object) (x : Either) (w : W)
      → where_run predicate left_factory x w
        ≡ as_dyn (Either.filter_where x (λ v. predicate v >>= observe) left_factory) w
  unfolding where_run Either.is_left Either.unwrap Either.filter_where
  where_run-sync predicate left_factory x w = elim (Bool-cases x.is_right) [
    | inl e ↦
        let (o, u) = (predicate x.right >>= observe) w in
        simp e (
          proceed-as_dyn o (Either.filtered x left_factory) (filtered x left_factory) u
            (λ a. filtered-sync x left_factory a u))
    | inr e ↦ simp e refl
  ]

  accept-checked :
      (o : Outcome Dyn) (w : W)
      → IsEither o
      → proceed o checked_either w ≡ proceed o Either.accept w
  accept-checked (return (either x)) w h = refl
  accept-checked (return (result _)) w h = absurd h
  accept-checked (return (option _)) w h = absurd h
  accept-checked (return (other _)) w h = absurd h
  accept-checked (raise e) w h = refl

  resolve-accept :
      (o : Outcome (Reply W)) (w : W)
      → IsEither (proceed o resolved w).0
      → proceed o resolve_either w
        ≡ (let (d, u) = proceed o resolved w in proceed d Either.accept u)
  unfolding resolve_either
  resolve-accept (return reply) w h = let (d, u) = resolved reply w in accept-checked d u h
  resolve-accept (raise e) w h = refl

  bind_run-succeeded :
      (func : Object → Py W (Reply W)) (x : Either) (w : W)
      → x.is_right ≡ true
      → bind_run func x w ≡ (func x.right >>= resolve_either >>= λ y. pure (either y)) w
  unfolding bind_run Either.is_left Either.unwrap resolve_either
  bind_run-succeeded func x w e = rw e

  bind_run-sync :
      (func : Object → Py W (Reply W)) (x : Either) (w : W)
      → IsEither ((func x.right >>= resolved) w).0
      → bind_run func x w ≡ as_dyn (Either.bind x (λ v. func v >>= resolved)) w
  unfolding bind_run Either.is_left
  bind_run-sync func x w h = elim (Bool-cases x.is_right) [
    | inl e ↦
        bind_run-succeeded func x w e
        ∙ ap (λ (y : Outcome Either × W). proceed y.0 (λ s. pure (either s)) y.1)
            (resolve-accept (func x.right w).0 (func x.right w).1 h
              ∙ sym (bind-present x (λ v. func v >>= resolved) w e))
    | inr e ↦ rw (bind-absent x (λ v. func v >>= resolved) w e) (simp e refl)
  ]

  -- Where the awaitable has returned an `Either`, `map`, `bind`, `tap` and `where` are those of
  -- `Either`, with what a callback returns awaited where it can be. For `bind` the reply is or
  -- resolves to an `Either`, or raises.
  pub async_either-sync :
      (self : AsyncEither W) (x : Either) (w w' : W) (func : Object → Py W Object)
      (binder : Object → Py W (Reply W)) (action predicate : Object → Py W (Observed W))
      (left_factory : Py W Object)
      → self.awaitable w ≡ (return (either x), w')
      → IsEither ((binder x.right >>= resolved) w').0
      → ((map self func).awaitable w ≡ as_dyn (Either.map x func) w')
        × ((bind self binder).awaitable w ≡ as_dyn (Either.bind x (λ v. binder v >>= resolved)) w')
        × ((tap self action).awaitable w ≡ as_dyn (Either.tap x (λ v. action v >>= observe)) w')
        × ((filter_where self predicate left_factory).awaitable w
            ≡ as_dyn (Either.filter_where x (λ v. predicate v >>= observe) left_factory) w')
  unfolding map Dyn.map bind tap filter_where
  async_either-sync self x w w' func binder action predicate left_factory awaited h = (
    rw awaited refl,
    rw awaited (bind_run-sync binder x w' h),
    rw awaited (tap_run-sync action x w'),
    rw awaited (where_run-sync predicate left_factory x w'),
  )
