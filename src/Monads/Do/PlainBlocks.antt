-- ===== src/Monads/Do/PlainBlocks.antt =====
-- The blocks of `do` over `Option` and `Either`, the two classes without metadata.
use aikernel_core.Base.{◌≡◌}
use aikernel_core.Python.Effect.{pure}
use aikernel_core.Monads.Types.{Dyn}
use aikernel_core.Monads.Generator.{Generator, generator, All}
use aikernel_core.Monads.Do.{run_do}
use aikernel_core.Monads.Do.OptionBlocks
use aikernel_core.Monads.Do.OptionBlocks.{of_option, option_block-bind_chain}
use aikernel_core.Monads.Do.EitherBlocks
use aikernel_core.Monads.Do.EitherBlocks.{of_either, either_block-bind_chain}

-- A block of `do(Option)` over a generator that yields normal values of `Option`, or other objects,
-- has the effects and the result of its chain of `bind`; and so has a block of `do(Either)` over a
-- generator that yields normal values of `Either`, or other objects.
pub plain_blocks-bind_chain {ℓ} :
    {W : Type ℓ} (options eithers : W → Generator W Dyn) (w : W)
    → All OptionBlocks.IsNormalYield (options w)
    → All EitherBlocks.IsNormalYield (eithers w)
    → (run_do of_option (pure (generator options)) w
        ≡ OptionBlocks.as_dyn (OptionBlocks.bind_chain (options w)))
      × (run_do of_either (pure (generator eithers)) w
          ≡ EitherBlocks.as_dyn (EitherBlocks.bind_chain (eithers w)))
plain_blocks-bind_chain options eithers w h k =
    (option_block-bind_chain options w h, either_block-bind_chain eithers w k)
