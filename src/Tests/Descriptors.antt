-- ===== src/Tests/Descriptors.antt =====
-- The provider descriptors on small inputs.
use mathlib.Core.List.{Memᴰ}
use aikernel_core.Base.{String, ◌≡◌, ◌≢◌, refl, ◌||◌, [], ◌∷◌, ◌==◌}
use aikernel_core.Python.Object.{key_error}
use aikernel_core.Python.Effect.{return, raise}
use aikernel_core.Python.Effect.Rules.{Ends}
use aikernel_core.Providers.{managed_types_for_provider, contains}
use aikernel_core.Providers.Table.{
  standard_providers, standard_provider, standard_capability, skill_provider, vfs_provider,
  vfs_capability,
}
use aikernel_core.Providers.Resolve.{All, capabilities_of, standard_lookups-exact}
use aikernel_core.Providers.ManagedTypes.{
  IsUnique, is_invoker, names_of, managed_types_for_provider-exact,
}

standard_provider_unknown :
    standard_provider "nope" ≡ raise (key_error "Unknown AIKernel standard provider: nope")
unfolding standard_provider
standard_provider_unknown = refl

standard_capability_alias : standard_capability "aikernel.vfs.read" ≡ return vfs_capability
unfolding standard_capability
standard_capability_alias = refl

-- The provider type is also the invoker type, and stands once.
managed_types_skill :
    managed_types_for_provider skill_provider
    ≡ "AIKernel.Core.Providers.SkillProvider.SkillProvider" ∷ []
unfolding managed_types_for_provider
managed_types_skill = refl

managed_types_for_provider-exact_example :
    IsUnique (managed_types_for_provider skill_provider)
    × ((v : String)
        → contains v (managed_types_for_provider skill_provider) ≡ (
            skill_provider.managed_provider_type == v
            || is_invoker v skill_provider.managed_invoker_type
            || names_of v skill_provider.capabilities))
managed_types_for_provider-exact_example = managed_types_for_provider-exact skill_provider

standard_lookups-exact_example :
    Ends
      (λ p. Memᴰ p standard_providers × (p.provider_id ≡ "aikernel.vfs.read"))
      (λ e. All (λ p. p.provider_id ≢ "aikernel.vfs.read") standard_providers)
      (standard_provider "aikernel.vfs.read")
    × Ends
        (λ c. Memᴰ c (capabilities_of standard_providers) × (c.capability_id ≡ "aikernel.vfs"))
        (λ e. All (λ c. c.capability_id ≢ "aikernel.vfs") (capabilities_of standard_providers))
        (standard_capability "aikernel.vfs.read")
    × (standard_provider "aikernel.vfs" ≡ return vfs_provider)
    × (standard_capability "aikernel.vfs" ≡ return vfs_capability)
standard_lookups-exact_example =
    standard_lookups-exact "aikernel.vfs.read" vfs_provider vfs_capability
      (Memᴰ.tail (Memᴰ.tail (Memᴰ.head refl))) (Memᴰ.tail (Memᴰ.tail (Memᴰ.head refl)))
