-- ===== src/Monads/AsyncEither/Suspended/SelectMany.antt =====
-- `select_many` of `AsyncEither` among other tasks, beside that of `Either`.
use mathlib.Core.Option as Maybe
use mathlib.Core.Option.{none, some}
use aikernel_core.Base.{ℕ, ◌≡◌, refl, sym, ap, subst, ◌∙◌}
use aikernel_core.Python.Object.{Object}
use aikernel_core.Python.Effect.{Outcome, return, raise, Py, pure, proceed, ◌>>=◌}
use aikernel_core.Python.Tasks.{Wake, Task, beside, interleaved}
use aikernel_core.Monads.Types.{Either, Dyn, result, either, option, other}
use aikernel_core.Monads.Dyn
use aikernel_core.Monads.Either
use aikernel_core.Monads.Either.SelectMany.{project, select_many}
use aikernel_core.Monads.Either.Laws.{IsEither}
use aikernel_core.Monads.Async.{checked_either}
use aikernel_core.Monads.AsyncEither
use aikernel_core.Monads.AsyncEither.Sync.{as_dyn}
use aikernel_core.Monads.AsyncEither.Suspended.{map-interleaved}
use aikernel_core.Monads.AsyncEither.Suspended.Sync.{bind-RunAs}
use aikernel_core.Monads.Coroutines.{of_either, TaskReply, resolved_task, async_either_task}
use aikernel_core.Monads.Coroutines.EitherMethods.{map_task, project_task, select_many_task}
use aikernel_core.Monads.Coroutines.Calls.{lifted}
use aikernel_core.Monads.Coroutines.Replies.{calling}
use aikernel_core.Monads.Coroutines.Wrapped.{async_either-interleaved}
use aikernel_core.Monads.Async.{async_either, resolve_either}

module _ {ℓ} {W : Type ℓ} (others : ℕ → W → Wake × W) where
  -- A projector beside the clock.
  abbrev projecting : (Object → Object → Py W Object) → Object → Object → Py (ℕ × W) Object
  projecting projector v = lifted (projector v)

  -- `select_many`, run among other tasks from `s`, does what that of `Either` does on `x` from `s'`.
  abbrev pub SelectsAs :
      Task W Dyn
      → Either
      → (Object → Py W (TaskReply W Dyn))
      → Maybe.Option (Object → Object → Py W Object)
      → (s s' : ℕ × W) → Type ℓ
  SelectsAs self x binder projector s s' =
      interleaved others (select_many_task self binder projector) s
      ≡ as_dyn (select_many x (calling others binder) (Maybe.map projecting projector)) s'

  checked :
      (o : Outcome Dyn) (s : ℕ × W)
      → IsEither o
      → as_dyn (λ u. proceed o checked_either u) s ≡ (o, s)
  checked (return (either x)) s h = refl
  checked (return (result _)) s h = absurd h
  checked (return (option _)) s h = absurd h
  checked (return (other _)) s h = absurd h
  checked (raise e) s h = refl

  -- `async_either` changes nothing of a reply that resolves to an `Either`.
  wrapped :
      (reply : TaskReply W Dyn) (s : ℕ × W)
      → IsEither (interleaved others (resolved_task reply) s).0
      → interleaved others (async_either_task reply) s ≡ interleaved others (resolved_task reply) s
  unfolding async_either resolve_either interleaved
  wrapped (TaskReply.of_either t) s h = async_either-interleaved others (TaskReply.of_either t) s
  wrapped (TaskReply.plain d) s h =
      async_either-interleaved others (TaskReply.plain d) s ∙ checked (return d) s h
  wrapped (TaskReply.awaitable t) s h =
      let (o, u) = interleaved others t s in
      async_either-interleaved others (TaskReply.awaitable t) s ∙ checked o u h
  wrapped (TaskReply.of_result t) s h =
      let (o, u) = interleaved others t s in
      async_either-interleaved others (TaskReply.of_result t) s ∙ checked o u h
  wrapped (TaskReply.of_option t) s h =
      let (o, u) = interleaved others t s in
      async_either-interleaved others (TaskReply.of_option t) s ∙ checked o u h

  project-calling :
      (binder : Object → Py W (TaskReply W Dyn)) (projector : Object → Object → Py W Object)
      (v : Object) (s : ℕ × W)
      → IsEither (calling others binder v s).0
      → calling others (project_task binder projector) v s
        ≡ project (calling others binder) (projecting projector) v s
  unfolding project_task Dyn.map AsyncEither.map
  project-calling binder projector v s h = let (o, u) = binder v s.1 in go o u h
    where
      go :
          (o : Outcome (TaskReply W Dyn)) (u : W)
          → IsEither (proceed {W = ℕ × W} o (λ r. interleaved others (resolved_task r)) (s.0, u)).0
          → (beside (λ w.
                  proceed o
                    (λ reply. pure (of_either (map_task (async_either_task reply) (projector v))))
                    u)
                >>= λ r. interleaved others (resolved_task r))
              s
            ≡ (let (d, x) =
                  proceed {W = ℕ × W} o (λ r. interleaved others (resolved_task r)) (s.0, u) in
                proceed d (λ found. Dyn.map found (lifted (projector v))) x)
      go (return reply) u h =
          map-interleaved others (async_either_task reply) (projector v) (s.0, u)
          ∙ ap
              (λ (z : Outcome Dyn × (ℕ × W)).
                proceed z.0 (λ found. Dyn.map found (lifted (projector v))) z.1)
              (wrapped reply (s.0, u) h)
      go (raise e) u h = refl

  projected-IsEither :
      (o : Outcome Dyn) (f : Object → Py (ℕ × W) Object) (s : ℕ × W)
      → IsEither o
      → IsEither (proceed o (λ found. Dyn.map found f) s).0
  unfolding Dyn.map
  projected-IsEither (return (either x)) f s h = let (p, u) = Either.map x f s in go p u
    where
      go : (p : Outcome Either) (u : ℕ × W) → IsEither (proceed p (λ y. pure (either y)) u).0
      go (return y) u = tt
      go (raise e) u = tt
  projected-IsEither (return (result _)) f s h = absurd h
  projected-IsEither (return (option _)) f s h = absurd h
  projected-IsEither (return (other _)) f s h = absurd h
  projected-IsEither (raise e) f s h = tt

  -- `bind` calls its callback at most once, on the value of the either.
  bind-same :
      (x : Either) (f g : Object → Py (ℕ × W) Dyn) (s : ℕ × W)
      → f x.right s ≡ g x.right s
      → as_dyn (Either.bind x f) s ≡ as_dyn (Either.bind x g) s
  unfolding Either.bind
  bind-same x f g s e = rw e refl

  pub select_many-SelectsAs :
      (self : Task W Dyn) (x : Either) (binder : Object → Py W (TaskReply W Dyn))
      (projector : Maybe.Option (Object → Object → Py W Object)) (s s' : ℕ × W)
      → interleaved others self s ≡ (return (either x), s')
      → IsEither (calling others binder x.right s').0
      → SelectsAs self x binder projector s s'
  unfolding select_many_task select_many
  select_many-SelectsAs self x binder none s s' ended_self h =
      bind-RunAs others self x binder s s' ended_self h
  select_many-SelectsAs self x binder (some projector) s s' ended_self h =
      let same = project-calling binder projector x.right s' h in
      let (o, u) = calling others binder x.right s' in
      bind-RunAs others self x (project_task binder projector) s s' ended_self (
        subst (λ (z : Outcome Dyn × (ℕ × W)). IsEither z.0) (sym same)
          (projected-IsEither o (lifted (projector x.right)) u h))
      ∙ bind-same x (calling others (project_task binder projector))
          (project (calling others binder) (projecting projector)) s' same
