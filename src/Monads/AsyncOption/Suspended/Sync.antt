-- ===== src/Monads/AsyncOption/Suspended/Sync.antt =====
-- The methods of `AsyncOption` among other tasks, beside the methods of `Option`.
use aikernel_core.Base.{ℕ, ◌≡◌, sym, ap, subst, ◌∙◌}
use aikernel_core.Python.Object.{Object}
use aikernel_core.Python.Effect.{return, Py, pure}
use aikernel_core.Python.Tasks.{Wake, Task, interleaved}
use aikernel_core.Monads.Types.{Option, Dyn, option}
use aikernel_core.Monads.Option
use aikernel_core.Monads.Coroutines.{TaskReply}
use aikernel_core.Monads.Coroutines.OptionMethods.{map_task, bind_task, tap_task, where_task}
use aikernel_core.Monads.Coroutines.Calls.{lifted}
use aikernel_core.Monads.Coroutines.Replies.{
  replying, observing, calling, replying-resolved, observing-observe,
}
use aikernel_core.Monads.Option.Laws.{IsOption}
use aikernel_core.Monads.AsyncOption.Sync.{as_dyn, async_option-sync}
use aikernel_core.Monads.AsyncOption.Suspended.{
  awaited, map-interleaved, bind-interleaved, tap-interleaved, where-interleaved,
}

module _ {ℓ} {W : Type ℓ} (others : ℕ → W → Wake × W) where
  -- The methods, run among other tasks from `s`, do what those of `Option` do on `x` from `s'`.
  abbrev pub RunAs :
      Task W Dyn
      → Option
      → (Object → Py W Object)
      → (Object → Py W (TaskReply W Dyn))
      → (action predicate : Object → Py W (TaskReply W Object)) → (s s' : ℕ × W) → Type ℓ
  RunAs self x func binder action predicate s s' =
      (interleaved others (map_task self func) s ≡ as_dyn (Option.map x (lifted func)) s')
      × (interleaved others (bind_task self binder) s
          ≡ as_dyn (Option.bind x (calling others binder)) s')
      × (interleaved others (tap_task self action) s
          ≡ as_dyn (Option.tap x (calling others action)) s')
      × (interleaved others (where_task self predicate) s
          ≡ as_dyn (Option.filter_where x (calling others predicate)) s')

  pub methods-RunAs :
      (self : Task W Dyn) (x : Option) (func : Object → Py W Object)
      (binder : Object → Py W (TaskReply W Dyn))
      (action predicate : Object → Py W (TaskReply W Object)) (s s' : ℕ × W)
      → interleaved others self s ≡ (return (option x), s')
      → IsOption (calling others binder x.value s').0
      → RunAs self x func binder action predicate s s'
  methods-RunAs self x func binder action predicate s s' ended_self h =
      let same = replying-resolved others binder in
      let reply = subst (λ (k : Object → Py (ℕ × W) Dyn). IsOption (k x.value s').0) (sym same) h in
      let (mapped, bound, tapped, filtered) =
        async_option-sync (awaited others self) x s s' (lifted func) (replying others binder)
          (observing others action) (observing others predicate) ended_self reply in
      (
        map-interleaved others self func s ∙ mapped,
        bind-interleaved others self binder s
            ∙ bound
            ∙ ap (λ (k : Object → Py (ℕ × W) Dyn). as_dyn (Option.bind x k) s') same,
        tap-interleaved others self action s
            ∙ tapped
            ∙ ap (λ (k : Object → Py (ℕ × W) Object). as_dyn (Option.tap x k) s')
                (observing-observe others action),
        where-interleaved others self predicate s
            ∙ filtered
            ∙ ap (λ (k : Object → Py (ℕ × W) Object). as_dyn (Option.filter_where x k) s')
                (observing-observe others predicate),
      )

  pub bind-RunAs :
      (self : Task W Dyn) (x : Option) (binder : Object → Py W (TaskReply W Dyn)) (s s' : ℕ × W)
      → interleaved others self s ≡ (return (option x), s')
      → IsOption (calling others binder x.value s').0
      → interleaved others (bind_task self binder) s
        ≡ as_dyn (Option.bind x (calling others binder)) s'
  bind-RunAs self x binder s s' ended_self h =
      let idle = λ (v : Object). pure (TaskReply.plain v) in
      (methods-RunAs self x (λ v. pure v) binder idle idle s s' ended_self h).1
