-- ===== src/Monads/AsyncResult/Raised.antt =====
-- The methods of `AsyncResult` where awaiting the wrapped awaitable raises, be it an `Exception` or
-- what is none, as the CancelledError of a cancelled task.
use mathlib.Core.Option as Maybe
use mathlib.Core.Option.{none, some}
use aikernel_core.Base.{ℕ, ◌≡◌, refl, ◌∙◌, [], Bool-cases, inl, inr, if◌then◌else◌}
use aikernel_core.Python.Object.{Object, Exn, exn, is_exception}
use aikernel_core.Python.Effect.{Outcome, return, raise, Py, pure, ◌>>=◌, try_except}
use aikernel_core.Python.Tasks.{Wake, Task, interleaved}
use aikernel_core.Monads.Types.{Dyn, result, failure}
use aikernel_core.Monads.Async.{AsyncResult, Reply, Observed, as_result}
use aikernel_core.Monads.AsyncResult.{map, bind, bind_run, project, select_many, tap, filter_where}
use aikernel_core.Monads.Dyn
use aikernel_core.Monads.Coroutines.{TaskReply}
use aikernel_core.Monads.Coroutines.ResultMethods.{
  map_task, bind_task, select_many_task, tap_task, where_task,
}
use aikernel_core.Monads.Coroutines.Replies.{replying, observing}
use aikernel_core.Monads.Coroutines.Calls.{lifted}
use aikernel_core.Monads.AsyncResult.Suspended.{awaited}
use aikernel_core.Monads.AsyncResult.Suspended.Agreement.{methods-agree, projecting}

-- A failure, for an `Exception`; what is none passes through.
abbrev pub as_failure : Exn → Outcome Dyn
as_failure e = if is_exception e then return (result (failure (exn e) [])) else raise e

module _ {ℓ} {W : Type ℓ} where
  guarded :
      (m : Py W Dyn) (w w' : W) (e : Exn)
      → m w ≡ (raise e, w')
      → try_except m (λ ex. pure (result (failure (exn ex) []))) w ≡ (as_failure e, w')
  guarded m w w' e raised = elim (Bool-cases (is_exception e)) [
    | inl c ↦ rw raised (rw c refl)
    | inr c ↦ rw raised (rw c refl)
  ]

  bind-raised :
      (self : AsyncResult W) (w w' : W) (e : Exn) (binder : Object → Py W (Reply W))
      → self.awaitable w ≡ (raise e, w')
      → (bind self binder).awaitable w ≡ (as_failure e, w')
  unfolding bind
  bind-raised self w w' e binder raised =
      guarded (self.awaitable >>= as_result >>= bind_run binder) w w' e (rw raised refl)

  guarded-raised :
      (self : AsyncResult W) (w w' : W) (e : Exn) (func : Object → Py W Object)
      (binder : Object → Py W (Reply W)) (projector : Maybe.Option (Object → Object → Py W Object))
      → self.awaitable w ≡ (raise e, w')
      → ((map self func).awaitable w ≡ (as_failure e, w'))
        × ((bind self binder).awaitable w ≡ (as_failure e, w'))
        × ((select_many self binder projector).awaitable w ≡ (as_failure e, w'))
  unfolding map select_many
  guarded-raised self w w' e func binder none raised =
      let bound = bind-raised self w w' e binder raised in
      (guarded (self.awaitable >>= λ d. Dyn.map d func) w w' e (rw raised refl), bound, bound)
  guarded-raised self w w' e func binder (some projector) raised = (
    guarded (self.awaitable >>= λ d. Dyn.map d func) w w' e (rw raised refl),
    bind-raised self w w' e binder raised,
    bind-raised self w w' e (project binder projector) raised,
  )

  passing-raised :
      (self : AsyncResult W) (w w' : W) (e : Exn) (action predicate : Object → Py W (Observed W))
      → self.awaitable w ≡ (raise e, w')
      → ((tap self action).awaitable w ≡ (raise e, w'))
        × ((filter_where self predicate).awaitable w ≡ (raise e, w'))
  unfolding tap filter_where
  passing-raised self w w' e action predicate raised = (rw raised refl, rw raised refl)

module _ {ℓ} {W : Type ℓ} (others : ℕ → W → Wake × W) where
  -- What awaiting the wrapped awaitable raises, whatever the other tasks do and whatever is thrown in
  -- at a suspension, `tap` and `where` raise again; `map`, `bind` and `select_many` return a failure with no metadata
  -- that holds it if it is an `Exception`, and raise it again, as a cancellation, if it is none. The
  -- world is left as the awaiting left it.
  pub methods_raised :
      (self : Task W Dyn) (func : Object → Py W Object) (binder : Object → Py W (TaskReply W Dyn))
      (projector : Maybe.Option (Object → Object → Py W Object))
      (action predicate : Object → Py W (TaskReply W Object)) (e : Exn) (s s' : ℕ × W)
      → interleaved others self s ≡ (raise e, s')
      → (interleaved others (map_task self func) s ≡ (as_failure e, s'))
        × (interleaved others (bind_task self binder) s ≡ (as_failure e, s'))
        × (interleaved others (select_many_task self binder projector) s ≡ (as_failure e, s'))
        × (interleaved others (tap_task self action) s ≡ (raise e, s'))
        × (interleaved others (where_task self predicate) s ≡ (raise e, s'))
  methods_raised self func binder projector action predicate e s s' raised =
      let (mapped, bound, queried, tapped, filtered) =
        methods-agree others self func binder projector action predicate s in
      let (map_raised, bind_raised, query_raised) =
        guarded-raised (awaited others self) s s' e (lifted func) (replying others binder)
          (Maybe.map (projecting others) projector) raised in
      let (tap_raised, where_raised) =
        passing-raised (awaited others self) s s' e (observing others action)
          (observing others predicate) raised in
      (
        mapped ∙ map_raised,
        bound ∙ bind_raised,
        queried ∙ query_raised,
        tapped ∙ tap_raised,
        filtered ∙ where_raised,
      )
