-- ===== src/Monads/AsyncOption/Sync.antt =====
-- `AsyncOption` agrees with `Option` once its awaitable has returned.
use aikernel_core.Base.{◌≡◌, refl, ◌∙◌, ap, sym, true, Bool-cases, inl, inr}
use aikernel_core.Python.Object.{Object, truthy}
use aikernel_core.Python.Effect.{Outcome, return, raise, Py, pure, proceed, ◌>>=◌}
use aikernel_core.Monads.Types.{Option, Dyn, result, option, either, other}
use aikernel_core.Monads.Async.{
  AsyncOption, Reply, Observed, observe, resolved, checked_option, resolve_option,
}
use aikernel_core.Monads.Dyn
use aikernel_core.Monads.Option
use aikernel_core.Monads.Option.Laws.{IsOption, bind-present, bind-absent}
use aikernel_core.Monads.AsyncOption.{
  map, bind, bind_run, tap_run, tap, filtered, where_run, filter_where,
}

module _ {ℓ} {W : Type ℓ} where
  -- An `Option` of a computation, as an object.
  abbrev pub as_dyn : Py W Option → Py W Dyn
  as_dyn m = m >>= λ x. pure (option x)

  proceed-as_dyn :
      {A : Type 0} (o : Outcome A) (k : A → Py W Option) (k' : A → Py W Dyn) (w : W)
      → ((a : A) → k' a w ≡ as_dyn (k a) w)
      → proceed o k' w ≡ as_dyn (proceed o k) w
  proceed-as_dyn (return a) k k' w same = same a
  proceed-as_dyn (raise e) k k' w same = refl

  tap_run-sync :
      (action : Object → Py W (Observed W)) (x : Option) (w : W)
      → tap_run action x w ≡ as_dyn (Option.tap x (λ v. action v >>= observe)) w
  unfolding tap_run Option.unwrap Option.tap
  tap_run-sync action x w = elim (Bool-cases x.is_some) [
    | inl e ↦
        let (o, u) = (action x.value >>= observe) w in
        simp e (proceed-as_dyn o (λ _. pure x) (λ _. pure (option x)) u (λ a. refl))
    | inr e ↦ simp e refl
  ]

  filtered-sync :
      (x : Option) (passed : Object) (w : W)
      → filtered x passed w ≡ as_dyn (Option.filtered x passed) w
  unfolding filtered truthy
  filtered-sync x passed w = elim (Bool-cases (truthy passed)) [
    | inl e ↦ rw e refl
    | inr e ↦ rw e refl
  ]

  where_run-sync :
      (predicate : Object → Py W (Observed W)) (x : Option) (w : W)
      → where_run predicate x w ≡ as_dyn (Option.filter_where x (λ v. predicate v >>= observe)) w
  unfolding where_run Option.is_none Option.unwrap Option.filter_where
  where_run-sync predicate x w = elim (Bool-cases x.is_some) [
    | inl e ↦
        let (o, u) = (predicate x.value >>= observe) w in
        simp e (proceed-as_dyn o (Option.filtered x) (filtered x) u (λ a. filtered-sync x a u))
    | inr e ↦ simp e refl
  ]

  accept-checked :
      (o : Outcome Dyn) (w : W)
      → IsOption o
      → proceed o checked_option w ≡ proceed o Option.accept w
  accept-checked (return (option x)) w h = refl
  accept-checked (return (result _)) w h = absurd h
  accept-checked (return (either _)) w h = absurd h
  accept-checked (return (other _)) w h = absurd h
  accept-checked (raise e) w h = refl

  resolve-accept :
      (o : Outcome (Reply W)) (w : W)
      → IsOption (proceed o resolved w).0
      → proceed o resolve_option w
        ≡ (let (d, u) = proceed o resolved w in proceed d Option.accept u)
  unfolding resolve_option
  resolve-accept (return reply) w h = let (d, u) = resolved reply w in accept-checked d u h
  resolve-accept (raise e) w h = refl

  bind_run-succeeded :
      (func : Object → Py W (Reply W)) (x : Option) (w : W)
      → x.is_some ≡ true
      → bind_run func x w ≡ (func x.value >>= resolve_option >>= λ y. pure (option y)) w
  unfolding bind_run Option.is_none Option.unwrap resolve_option
  bind_run-succeeded func x w e = rw e

  bind_run-sync :
      (func : Object → Py W (Reply W)) (x : Option) (w : W)
      → IsOption ((func x.value >>= resolved) w).0
      → bind_run func x w ≡ as_dyn (Option.bind x (λ v. func v >>= resolved)) w
  unfolding bind_run Option.is_none
  bind_run-sync func x w h = elim (Bool-cases x.is_some) [
    | inl e ↦
        bind_run-succeeded func x w e
        ∙ ap (λ (y : Outcome Option × W). proceed y.0 (λ s. pure (option s)) y.1)
            (resolve-accept (func x.value w).0 (func x.value w).1 h
              ∙ sym (bind-present x (λ v. func v >>= resolved) w e))
    | inr e ↦ rw (bind-absent x (λ v. func v >>= resolved) w e) (simp e refl)
  ]

  -- Where the awaitable has returned an `Option`, `map`, `bind`, `tap` and `where` are those of
  -- `Option`, with what a callback returns awaited where it can be. For `bind` the reply is or
  -- resolves to an `Option`, or raises.
  pub async_option-sync :
      (self : AsyncOption W) (x : Option) (w w' : W) (func : Object → Py W Object)
      (binder : Object → Py W (Reply W)) (action predicate : Object → Py W (Observed W))
      → self.awaitable w ≡ (return (option x), w')
      → IsOption ((binder x.value >>= resolved) w').0
      → ((map self func).awaitable w ≡ as_dyn (Option.map x func) w')
        × ((bind self binder).awaitable w ≡ as_dyn (Option.bind x (λ v. binder v >>= resolved)) w')
        × ((tap self action).awaitable w ≡ as_dyn (Option.tap x (λ v. action v >>= observe)) w')
        × ((filter_where self predicate).awaitable w
            ≡ as_dyn (Option.filter_where x (λ v. predicate v >>= observe)) w')
  unfolding map Dyn.map bind tap filter_where
  async_option-sync self x w w' func binder action predicate awaited h = (
    rw awaited refl,
    rw awaited (bind_run-sync binder x w' h),
    rw awaited (tap_run-sync action x w'),
    rw awaited (where_run-sync predicate x w'),
  )
