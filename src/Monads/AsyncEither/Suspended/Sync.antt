-- ===== src/Monads/AsyncEither/Suspended/Sync.antt =====
-- The methods of `AsyncEither` among other tasks, beside the methods of `Either`.
use aikernel_core.Base.{ℕ, ◌≡◌, sym, ap, subst, ◌∙◌}
use aikernel_core.Python.Object.{Object}
use aikernel_core.Python.Effect.{return, Py, pure}
use aikernel_core.Python.Tasks.{Wake, Task, beside, interleaved}
use aikernel_core.Monads.Types.{Either, Dyn, either}
use aikernel_core.Monads.Either
use aikernel_core.Monads.Coroutines.{TaskReply}
use aikernel_core.Monads.Coroutines.EitherMethods.{map_task, bind_task, tap_task, where_task}
use aikernel_core.Monads.Coroutines.Calls.{lifted}
use aikernel_core.Monads.Coroutines.Replies.{
  replying, observing, calling, replying-resolved, observing-observe,
}
use aikernel_core.Monads.Either.Laws.{IsEither}
use aikernel_core.Monads.AsyncEither.Sync.{as_dyn, async_either-sync}
use aikernel_core.Monads.AsyncEither.Suspended.{
  awaited, map-interleaved, bind-interleaved, tap-interleaved, where-interleaved,
}

module _ {ℓ} {W : Type ℓ} (others : ℕ → W → Wake × W) where
  -- The methods, run among other tasks from `s`, do what those of `Either` do on `y` from `s'`.
  abbrev pub RunAs :
      Task W Dyn
      → Either
      → (Object → Py W Object)
      → (Object → Py W (TaskReply W Dyn))
      → (action predicate : Object → Py W (TaskReply W Object)) → Py W Object
      → (s s' : ℕ × W) → Type ℓ
  RunAs self y func binder action predicate left_factory s s' =
      (interleaved others (map_task self func) s ≡ as_dyn (Either.map y (lifted func)) s')
      × (interleaved others (bind_task self binder) s
          ≡ as_dyn (Either.bind y (calling others binder)) s')
      × (interleaved others (tap_task self action) s
          ≡ as_dyn (Either.tap y (calling others action)) s')
      × (interleaved others (where_task self predicate left_factory) s
          ≡ as_dyn (Either.filter_where y (calling others predicate) (beside left_factory)) s')

  pub methods-RunAs :
      (self : Task W Dyn) (y : Either) (func : Object → Py W Object)
      (binder : Object → Py W (TaskReply W Dyn))
      (action predicate : Object → Py W (TaskReply W Object)) (left_factory : Py W Object)
      (s s' : ℕ × W)
      → interleaved others self s ≡ (return (either y), s')
      → IsEither (calling others binder y.right s').0
      → RunAs self y func binder action predicate left_factory s s'
  methods-RunAs self y func binder action predicate left_factory s s' ended_self h =
      let same = replying-resolved others binder in
      let reply = subst (λ (k : Object → Py (ℕ × W) Dyn). IsEither (k y.right s').0) (sym same) h in
      let (mapped, bound, tapped, filtered) =
        async_either-sync (awaited others self) y s s' (lifted func) (replying others binder)
          (observing others action) (observing others predicate) (beside left_factory) ended_self
          reply in
      (
        map-interleaved others self func s ∙ mapped,
        bind-interleaved others self binder s
            ∙ bound
            ∙ ap (λ (k : Object → Py (ℕ × W) Dyn). as_dyn (Either.bind y k) s') same,
        tap-interleaved others self action s
            ∙ tapped
            ∙ ap (λ (k : Object → Py (ℕ × W) Object). as_dyn (Either.tap y k) s')
                (observing-observe others action),
        where-interleaved others self predicate left_factory s
            ∙ filtered
            ∙ ap
                (λ (k : Object → Py (ℕ × W) Object).
                  as_dyn (Either.filter_where y k (beside left_factory)) s')
                (observing-observe others predicate),
      )

  pub bind-RunAs :
      (self : Task W Dyn) (y : Either) (binder : Object → Py W (TaskReply W Dyn)) (s s' : ℕ × W)
      → interleaved others self s ≡ (return (either y), s')
      → IsEither (calling others binder y.right s').0
      → interleaved others (bind_task self binder) s
        ≡ as_dyn (Either.bind y (calling others binder)) s'
  bind-RunAs self y binder s s' ended_self h =
      let idle = λ (v : Object). pure (TaskReply.plain v) in
      (methods-RunAs self y (λ v. pure v) binder idle idle (pure Object.none) s s' ended_self h).1
