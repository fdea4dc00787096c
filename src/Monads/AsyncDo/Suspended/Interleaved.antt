-- ===== src/Monads/AsyncDo/Suspended/Interleaved.antt =====
-- A block of `async_do`, whatever its class, with its suspensions.
use mathlib.Core.Path.{fun_ext}
use aikernel_core.Base.{ℕ, ◌≡◌, refl, ap, subst, sym, ◌∙◌}
use aikernel_core.Python.Effect.{Py, pure}
use aikernel_core.Python.Tasks.{Wake, interleaved}
use aikernel_core.Monads.Types.{Dyn}
use aikernel_core.Monads.Generator.{Generator, stop, throws, yields, generator, All}
use aikernel_core.Monads.Do.{MonadType, result_type, option_type, either_type, other_type, run_do}
use aikernel_core.Monads.Do.Classes.{IsMonad, of_kind}
use aikernel_core.Monads.Async.{Reply}
use aikernel_core.Monads.AsyncDo.Awaited.{awaited, yield_awaited}
use aikernel_core.Monads.AsyncDo.ResultLaws.{IsResultYield, run_async_result_do-run_do}
use aikernel_core.Monads.AsyncDo.OptionLaws.{IsOptionYield, run_async_option_do-run_do}
use aikernel_core.Monads.AsyncDo.EitherLaws.{IsEitherYield, run_async_either_do-run_do}
use aikernel_core.Monads.AsyncDo.Suspended.{suspended, suspended_call, suspended_block}
use aikernel_core.Monads.AsyncDo.Suspended.ResultBlocks.{result_do-interleaved}
use aikernel_core.Monads.AsyncDo.Suspended.OptionBlocks.{option_do-interleaved}
use aikernel_core.Monads.AsyncDo.Suspended.EitherBlocks.{either_do-interleaved}
use aikernel_core.Monads.Coroutines.{TaskReply, resolved_task}
use aikernel_core.Monads.Coroutines.Replies.{interleaved-resolved}
use aikernel_core.Monads.Coroutines.Blocks.{wrapper_task, do_task}

-- An object of the class of the block.
abbrev pub IsYield : MonadType → Dyn → Type 0
IsYield result_type = IsResultYield
IsYield option_type = IsOptionYield
IsYield either_type = IsEitherYield
IsYield other_type = λ _. ⊥

module _ {ℓ} {W : Type ℓ} (others : ℕ → W → Wake × W) where
  -- The generator that yields what the awaitables of a generator give, among other tasks, and raises
  -- what awaiting them raises.
  unfoldable pub driven : Generator W (TaskReply W Dyn) → ℕ → Generator (ℕ × W) Dyn
  driven (stop value w) n = stop value (n, w)
  driven (throws e w) n = throws e (n, w)
  driven (yields reply w resume) n =
      let (o, s) = interleaved others (resolved_task reply) (n, w) in
      yield_awaited o s (λ v u. driven (resume v u.1) u.0)

  awaited-suspended :
      (g : Generator W (TaskReply W Dyn)) (n : ℕ) → awaited (suspended others g n) ≡ driven g n
  unfolding awaited suspended driven
  awaited-suspended (stop value w) n = refl
  awaited-suspended (throws e w) n = refl
  awaited-suspended (yields reply w resume) n =
      rw (interleaved-resolved others reply (n, w)) (
        ap (yield_awaited _ _) (fun_ext (λ v. fun_ext (λ u. awaited-suspended (resume v u.1) u.0))))

  abbrev suspended_from :
      (W → Generator W (TaskReply W Dyn)) → ℕ × W → Generator (ℕ × W) (Reply (ℕ × W))
  suspended_from start u = suspended others (start u.1) u.0

  -- The block of `do` over that generator.
  abbrev pub driven_do : MonadType → (W → Generator W (TaskReply W Dyn)) → Py (ℕ × W) Dyn
  driven_do kind start = run_do (of_kind kind) (pure (generator (λ u. driven (start u.1) u.0)))

  abbrev awaited_do : MonadType → (W → Generator W (TaskReply W Dyn)) → Py (ℕ × W) Dyn
  awaited_do kind start =
      run_do (of_kind kind) (pure (generator (λ u. awaited (suspended_from start u))))

  awaited_do-driven_do :
      (kind : MonadType) (start : W → Generator W (TaskReply W Dyn)) (s : ℕ × W)
      → awaited_do kind start s ≡ driven_do kind start s
  awaited_do-driven_do kind start s =
      ap (λ (g : ℕ × W → Generator (ℕ × W) Dyn). run_do (of_kind kind) (pure (generator g)) s)
        (fun_ext (λ u. awaited-suspended (start u.1) u.0))

  yields-awaited :
      (P : Dyn → Type 0) (start : W → Generator W (TaskReply W Dyn)) (s : ℕ × W)
      → All P (driven (start s.1) s.0)
      → All P (awaited (suspended_from start s))
  yields-awaited P start s a = subst (All P) (sym (awaited-suspended (start s.1) s.0)) a

  -- Among other tasks, which at each suspension act on the world and have the event loop resume the
  -- coroutine or throw an exception in, a block of `async_do` for any of the three classes, whose
  -- function starts a generator, has the effects and the result of the block of `do` over the
  -- generator that yields what awaiting its replies gives, suspensions included, and raises what
  -- awaiting them raises; where on every path each reply is or resolves to an object of the class of
  -- the block, or the awaiting raises.
  pub async_do-interleaved :
      (kind : MonadType) (start : W → Generator W (TaskReply W Dyn)) (s : ℕ × W)
      → IsMonad kind
      → All (IsYield kind) (driven (start s.1) s.0)
      → interleaved others (do_task (of_kind kind) (pure (generator start))) s
        ≡ driven_do kind start s
  unfolding do_task wrapper_task suspended_block suspended_call
  async_do-interleaved result_type start s m a =
      result_do-interleaved others (of_kind result_type) (pure (generator start)) s
      ∙ run_async_result_do-run_do (suspended_from start) s (yields-awaited IsResultYield start s a)
      ∙ awaited_do-driven_do result_type start s
  async_do-interleaved option_type start s m a =
      option_do-interleaved others (of_kind option_type) (pure (generator start)) s
      ∙ run_async_option_do-run_do (suspended_from start) s (yields-awaited IsOptionYield start s a)
      ∙ awaited_do-driven_do option_type start s
  async_do-interleaved either_type start s m a =
      either_do-interleaved others (of_kind either_type) (pure (generator start)) s
      ∙ run_async_either_do-run_do (suspended_from start) s (yields-awaited IsEitherYield start s a)
      ∙ awaited_do-driven_do either_type start s
  async_do-interleaved other_type start s m a = absurd m
