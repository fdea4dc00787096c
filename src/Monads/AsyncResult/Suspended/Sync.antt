-- ===== src/Monads/AsyncResult/Suspended/Sync.antt =====
-- The methods of `AsyncResult` among other tasks, beside the methods of `Result`.
use aikernel_core.Base.{ℕ, ◌≡◌, sym, ap, subst, ◌∙◌}
use aikernel_core.Python.Object.{Object}
use aikernel_core.Python.Effect.{Outcome, return, raise, Py, pure, proceed}
use aikernel_core.Python.Tasks.{Wake, Task, interleaved}
use aikernel_core.Monads.Types.{Result, Dyn, result}
use aikernel_core.Monads.Result
use aikernel_core.Monads.Coroutines.{TaskReply}
use aikernel_core.Monads.Coroutines.ResultMethods.{map_task, bind_task, tap_task, where_task}
use aikernel_core.Monads.Coroutines.Calls.{lifted}
use aikernel_core.Monads.Coroutines.Replies.{
  as_reply, replying, observing, calling, replying-resolved, observing-observe,
}
use aikernel_core.Python.Effect.Rules.{RaisesNoException}
use aikernel_core.Monads.Result.Normal.{IsNormal}
use aikernel_core.Monads.AsyncResult.Sync.{as_dyn}
use aikernel_core.Monads.AsyncResult.BindSync.{IsResultReply, methods-sync}
use aikernel_core.Monads.AsyncResult.Suspended.{
  awaited, map-interleaved, bind-interleaved, tap-interleaved, where-interleaved,
}

module _ {ℓ} {W : Type ℓ} (others : ℕ → W → Wake × W) where
  -- The methods, run among other tasks from `s`, do what those of `Result` do on `r` from `s'`.
  abbrev pub RunAs :
      Task W Dyn
      → Result
      → (Object → Py W Object)
      → (Object → Py W (TaskReply W Dyn))
      → (action predicate : Object → Py W (TaskReply W Object)) → (s s' : ℕ × W) → Type ℓ
  RunAs self r func binder action predicate s s' =
      (interleaved others (map_task self func) s ≡ as_dyn (Result.map r (lifted func)) s')
      × (interleaved others (bind_task self binder) s
          ≡ as_dyn (Result.bind r (calling others binder)) s')
      × (interleaved others (tap_task self action) s
          ≡ as_dyn (Result.tap r (calling others action)) s')
      × (interleaved others (where_task self predicate) s
          ≡ as_dyn (Result.filter_where r (calling others predicate)) s')

  replying-passing :
      (func : Object → Py W (TaskReply W Dyn)) (v : Object) (s : ℕ × W)
      → RaisesNoException (func v s.1).0
      → RaisesNoException (replying others func v s).0
  replying-passing func v s h = go (func v s.1).0 (func v s.1).1 h
    where
      go :
          (o : Outcome (TaskReply W Dyn)) (u : W)
          → RaisesNoException o
          → RaisesNoException (proceed {W = ℕ × W} o (λ r. pure (as_reply others r)) (s.0, u)).0
      go (return r) u h = tt
      go (raise e) u h = h

  pub methods-RunAs :
      (self : Task W Dyn) (r : Result) (func : Object → Py W Object)
      (binder : Object → Py W (TaskReply W Dyn))
      (action predicate : Object → Py W (TaskReply W Object)) (s s' : ℕ × W)
      → IsNormal r
      → interleaved others self s ≡ (return (result r), s')
      → RaisesNoException (binder r.value s'.1).0
      → IsResultReply (calling others binder r.value s').0
      → RunAs self r func binder action predicate s s'
  methods-RunAs self r func binder action predicate s s' n ended_self passing h =
      let same = replying-resolved others binder in
      let reply =
        subst (λ (k : Object → Py (ℕ × W) Dyn). IsResultReply (k r.value s').0) (sym same) h in
      let (mapped, bound, tapped, filtered) =
        methods-sync (awaited others self) r s s' (lifted func) (replying others binder)
          (observing others action) (observing others predicate) n ended_self
          (replying-passing binder r.value s' passing) reply in
      (
        map-interleaved others self func s ∙ mapped,
        bind-interleaved others self binder s
            ∙ bound
            ∙ ap (λ (k : Object → Py (ℕ × W) Dyn). as_dyn (Result.bind r k) s') same,
        tap-interleaved others self action s
            ∙ tapped
            ∙ ap (λ (k : Object → Py (ℕ × W) Object). as_dyn (Result.tap r k) s')
                (observing-observe others action),
        where-interleaved others self predicate s
            ∙ filtered
            ∙ ap (λ (k : Object → Py (ℕ × W) Object). as_dyn (Result.filter_where r k) s')
                (observing-observe others predicate),
      )
