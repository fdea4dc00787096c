-- ===== src/Providers.antt =====
-- The descriptors of python/src/aikernel_net/standard_providers.py and their lookup.
pub mod Table
pub mod Resolve
pub mod ManagedTypes
use mathlib.Core.Option as Maybe
use Prim.Native.String.{◌++◌ as ◌<>◌}
use aikernel_core.Base.{String, Bool, true, false, List, [], ◌∷◌, ◌++◌, ◌==◌, ◌||◌, if◌then◌else◌}
use aikernel_core.Python.Object.{key_error, attribute_error}
use aikernel_core.Python.Effect.{Outcome, return, raise}

pub record CapabilityContract : Type 0 where
  pub capability_id : String
  pub provider_id : String
  pub name : String
  pub version : String
  pub operations : List String
  pub kind : String
  pub invocation_mode : String
  pub tags : List String
  pub managed_contract_type : String
  pub managed_invoker_type : String

pub record StandardProviderContract : Type 0 where
  pub provider_id : String
  pub name : String
  pub version : String
  pub managed_provider_type : String
  pub managed_invoker_type : Maybe.Option String
  pub capabilities : List CapabilityContract

-- The property `capability`.
unfoldable pub capability : StandardProviderContract → Outcome CapabilityContract
capability self = elim self.capabilities [
  | c ∷ rest ↦ elim rest [
    | [] ↦ return c
    | _ ∷ _ ↦ raise (attribute_error (self.provider_id <> " does not expose one static capability"))
  ]
  | [] ↦ raise (attribute_error (self.provider_id <> " does not expose one static capability"))
]

-- The loop of `standard_provider` over the providers.
unfoldable pub find_provider :
    List StandardProviderContract → String → Outcome StandardProviderContract
find_provider [] provider_id =
    raise (key_error ("Unknown AIKernel standard provider: " <> provider_id))
find_provider (provider ∷ rest) provider_id =
    if provider.provider_id == provider_id then return provider else find_provider rest provider_id

-- The inner loop of `standard_capability`, and what follows it.
unfoldable pub find_in :
    List CapabilityContract → String → Outcome CapabilityContract → Outcome CapabilityContract
find_in [] canonical_id next = next
find_in (c ∷ rest) canonical_id next =
    if c.capability_id == canonical_id then return c else find_in rest canonical_id next

-- The outer loop of `standard_capability`.
unfoldable pub find_capability :
    List StandardProviderContract
    → (canonical_id capability_id : String) → Outcome CapabilityContract
unfolding find_in
find_capability [] canonical_id capability_id =
    raise (key_error ("Unknown AIKernel standard capability: " <> capability_id))
find_capability (provider ∷ rest) canonical_id capability_id =
    let next = find_capability rest canonical_id capability_id in
    find_in provider.capabilities canonical_id next

-- `_canonical_capability_id`
unfoldable pub canonical_capability_id : String → String
canonical_capability_id capability_id =
    if capability_id == "aikernel.vfs.read" then "aikernel.vfs" else capability_id

-- `value in values`
unfoldable pub contains : String → List String → Bool
contains value [] = false
contains value (v ∷ values) = v == value || contains value values

-- `_append_unique`
unfoldable pub append_unique : List String → String → List String
unfolding contains
append_unique values value = if contains value values then values else values ++ value ∷ []

abbrev pub append_invoker : List String → Maybe.Option String → List String
unfolding append_unique
append_invoker types Maybe.none = types
append_invoker types (Maybe.some invoker) = append_unique types invoker

-- The loop of `_managed_types_for_provider` over the capabilities.
unfoldable pub append_capabilities : List String → List CapabilityContract → List String
unfolding append_unique
append_capabilities types [] = types
append_capabilities types (c ∷ rest) =
    append_capabilities
      (append_unique (append_unique types c.managed_invoker_type) c.managed_contract_type) rest

-- `_managed_types_for_provider`
unfoldable pub managed_types_for_provider : StandardProviderContract → List String
unfolding append_unique append_invoker append_capabilities
managed_types_for_provider provider =
    append_capabilities
      (append_invoker (append_unique [] provider.managed_provider_type)
        provider.managed_invoker_type)
      provider.capabilities

-- `standard_provider_managed_types`, over the given providers
unfoldable pub managed_types : List StandardProviderContract → List String
unfolding managed_types_for_provider
managed_types [] = []
managed_types (provider ∷ rest) = managed_types_for_provider provider ++ managed_types rest
