-- ===== src/Monads/AsyncResult/Suspended/Agreement.antt =====
-- The methods of `AsyncResult` with their suspensions, `select_many` included, beside the methods on what
-- awaiting does.
use mathlib.Core.Option as Maybe
use mathlib.Core.Option.{none, some}
use mathlib.Core.Path.{fun_ext}
use aikernel_core.Base.{ap, ℕ, ◌≡◌, refl, ◌∙◌}
use aikernel_core.Python.Object.{Object}
use aikernel_core.Python.Effect.{Outcome, return, raise, proceed, Py, pure, ◌>>=◌}
use aikernel_core.Python.Tasks.{Wake, Task, beside, interleaved}
use aikernel_core.Monads.Types.{Dyn}
use aikernel_core.Monads.Async.{of_result, async_result}
use aikernel_core.Monads.AsyncResult
use aikernel_core.Monads.AsyncResult.{project, bind_run, tap_run, where_run, filtered}
use aikernel_core.Monads.Coroutines.{of_result as of_result_task, async_result_task, TaskReply}
use aikernel_core.Monads.Coroutines.ResultMethods.{
  project_task, select_many_task, map_task, bind_task, tap_task, where_task,
}
use aikernel_core.Monads.Coroutines.Calls.{lifted}
use aikernel_core.Monads.Coroutines.Replies.{as_reply, replying, observing}
use aikernel_core.Monads.Coroutines.Wrapped.{async_result-interleaved}
use aikernel_core.Monads.Coroutines.ResultMethods.{where_task}
use aikernel_core.Monads.AsyncResult.Suspended.{
  awaited, map-interleaved, bind-interleaved, tap-interleaved, where-interleaved,
}

module _ {ℓ} {W : Type ℓ} (others : ℕ → W → Wake × W) where
  -- A projector beside the clock.
  abbrev pub projecting : (Object → Object → Py W Object) → Object → Object → Py (ℕ × W) Object
  projecting projector v = lifted (projector v)

  project-interleaved :
      (binder : Object → Py W (TaskReply W Dyn)) (projector : Object → Object → Py W Object)
      (v : Object) (s : ℕ × W)
      → replying others (project_task binder projector) v s
        ≡ project (replying others binder) (projecting projector) v s
  unfolding project_task project
  project-interleaved binder projector v s = let (o, u) = binder v s.1 in go o u
    where
      same :
          (reply : TaskReply W Dyn) (x : ℕ × W)
          → interleaved others (map_task (async_result_task reply) (projector v)) x
            ≡ (AsyncResult.map
                  (async_result (as_reply others reply))
                  (lifted (projector v))).awaitable
                x
      same reply x =
          map-interleaved others (async_result_task reply) (projector v) x
          ∙ ap
              (λ (m : Py (ℕ × W) Dyn).
                (AsyncResult.map (record { awaitable = m }) (lifted (projector v))).awaitable x)
              (fun_ext (async_result-interleaved others reply))

      go :
          (o : Outcome (TaskReply W Dyn)) (u : W)
          → (beside (λ w.
                  proceed o
                    (λ reply.
                      pure (of_result_task (map_task (async_result_task reply) (projector v))))
                    u)
                >>= λ r. pure (as_reply others r))
              s
            ≡ (beside (λ w. (o, u)) >>= (λ r. pure (as_reply others r)) >>= λ reply.
                  pure (of_result (AsyncResult.map (async_result reply) (lifted (projector v)))))
                s
      go (return reply) u =
          ap (λ (m : Py (ℕ × W) Dyn). (return (of_result (record { awaitable = m })), (s.0, u)))
            (fun_ext (same reply))
      go (raise e) u = refl

  select_many-interleaved :
      (self : Task W Dyn) (binder : Object → Py W (TaskReply W Dyn))
      (projector : Maybe.Option (Object → Object → Py W Object)) (s : ℕ × W)
      → interleaved others (select_many_task self binder projector) s
        ≡ (AsyncResult.select_many
              (awaited others self)
              (replying others binder)
              (Maybe.map projecting projector)).awaitable
            s
  unfolding select_many_task AsyncResult.select_many
  select_many-interleaved self binder none s = bind-interleaved others self binder s
  select_many-interleaved self binder (some projector) s =
      bind-interleaved others self (project_task binder projector) s
      ∙ ap (λ f. (AsyncResult.bind (awaited others self) f).awaitable s)
          (fun_ext (λ v. fun_ext (project-interleaved binder projector v)))

  -- Each method, run with its suspensions, does what the method on what awaiting does does.
  abbrev pub MethodsAgree :
      Task W Dyn
      → (Object → Py W Object)
      → (Object → Py W (TaskReply W Dyn))
      → Maybe.Option (Object → Object → Py W Object)
      → (action predicate : Object → Py W (TaskReply W Object)) → ℕ × W
      → Type ℓ
  MethodsAgree self func binder projector action predicate s =
      (interleaved others (map_task self func) s
        ≡ (AsyncResult.map (awaited others self) (lifted func)).awaitable s)
      × (interleaved others (bind_task self binder) s
          ≡ (AsyncResult.bind (awaited others self) (replying others binder)).awaitable s)
      × (interleaved others (select_many_task self binder projector) s
          ≡ (AsyncResult.select_many (awaited others self) (replying others binder)
                (Maybe.map projecting projector)).awaitable
              s)
      × (interleaved others (tap_task self action) s
          ≡ (AsyncResult.tap (awaited others self) (observing others action)).awaitable s)
      × (interleaved others (where_task self predicate) s
          ≡ (AsyncResult.filter_where (awaited others self) (observing others predicate)).awaitable
              s)

  pub methods-agree :
      (self : Task W Dyn) (func : Object → Py W Object) (binder : Object → Py W (TaskReply W Dyn))
      (projector : Maybe.Option (Object → Object → Py W Object))
      (action predicate : Object → Py W (TaskReply W Object)) (s : ℕ × W)
      → MethodsAgree self func binder projector action predicate s
  methods-agree self func binder projector action predicate s = (
    map-interleaved others self func s,
    bind-interleaved others self binder s,
    select_many-interleaved self binder projector s,
    tap-interleaved others self action s,
    where-interleaved others self predicate s,
  )
