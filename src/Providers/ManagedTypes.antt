-- ===== src/Providers/ManagedTypes.antt =====
-- The managed types of a provider: each once.
use mathlib.Core.Option as Maybe
use aikernel_core.Base.{
  String, ◌≡◌, refl, Bool, false, ◌||◌, List, [], ◌∷◌, ◌++◌, ◌==◌, arith, eq_iff,
}
use aikernel_core.Providers.{
  CapabilityContract, StandardProviderContract, contains, append_unique, append_invoker,
  append_capabilities, managed_types_for_provider,
}

-- No value stands twice.
abbrev pub IsUnique : List String → Type 0
IsUnique [] = Unit
IsUnique (v ∷ values) = (contains v values ≡ false) × IsUnique values

contains-snoc :
    (v w : String) (values : List String)
    → contains v (values ++ w ∷ []) ≡ (contains v values || w == v)
unfolding contains
contains-snoc v w [] = ground arith
contains-snoc v w (x ∷ values) = ground (arith, contains-snoc v w values)

snoc-IsUnique :
    (w : String) (values : List String)
    → contains w values ≡ false
    → IsUnique values
    → IsUnique (values ++ w ∷ [])
unfolding contains
snoc-IsUnique w [] h u = (refl, tt)
snoc-IsUnique w (x ∷ values) h u =
    ground (arith, contains-snoc x w values, snoc-IsUnique w values, eq_iff x w, eq_iff w x)

append_unique-IsUnique :
    (values : List String) (v : String) → IsUnique values → IsUnique (append_unique values v)
unfolding append_unique
append_unique-IsUnique values v u = ground (arith, snoc-IsUnique v values)

contains-append_unique :
    (v w : String) (values : List String)
    → contains v (append_unique values w) ≡ (contains v values || w == v)
unfolding append_unique
contains-append_unique v w values = ground (arith, contains-snoc v w values, eq_iff w v)

-- The value is the managed invoker type or the managed contract type of a capability.
abbrev pub names_of : String → List CapabilityContract → Bool
names_of v [] = false
names_of v (c ∷ rest) =
    c.managed_invoker_type == v || c.managed_contract_type == v || names_of v rest

abbrev pub is_invoker : String → Maybe.Option String → Bool
is_invoker v Maybe.none = false
is_invoker v (Maybe.some invoker) = invoker == v

append_capabilities-IsUnique :
    (types : List String) (cs : List CapabilityContract)
    → IsUnique types
    → IsUnique (append_capabilities types cs)
unfolding append_capabilities
append_capabilities-IsUnique types [] u = u
append_capabilities-IsUnique types (c ∷ rest) u =
    append_capabilities-IsUnique
      (append_unique (append_unique types c.managed_invoker_type) c.managed_contract_type) rest
      (append_unique-IsUnique (append_unique types c.managed_invoker_type) c.managed_contract_type
        (append_unique-IsUnique types c.managed_invoker_type u))

contains-append_capabilities :
    (v : String) (types : List String) (cs : List CapabilityContract)
    → contains v (append_capabilities types cs) ≡ (contains v types || names_of v cs)
unfolding append_capabilities
contains-append_capabilities v types [] = ground arith
contains-append_capabilities v types (c ∷ rest) =
    let once = append_unique types c.managed_invoker_type in
    let twice = append_unique once c.managed_contract_type in
    ground (
      arith,
      contains-append_capabilities v twice rest,
      contains-append_unique v c.managed_contract_type once,
      contains-append_unique v c.managed_invoker_type types,
    )

append_invoker-IsUnique :
    (types : List String) (o : Maybe.Option String)
    → IsUnique types
    → IsUnique (append_invoker types o)
unfolding append_invoker
append_invoker-IsUnique types Maybe.none u = u
append_invoker-IsUnique types (Maybe.some i) u = append_unique-IsUnique types i u

contains-append_invoker :
    (v : String) (types : List String) (o : Maybe.Option String)
    → contains v (append_invoker types o) ≡ (contains v types || is_invoker v o)
unfolding append_invoker
contains-append_invoker v types Maybe.none = ground arith
contains-append_invoker v types (Maybe.some i) = contains-append_unique v i types

-- The managed types of a provider, standard or not, are its provider type, its invoker type if it
-- has one, and the invoker and contract types of its capabilities: those and no other, each once.
pub managed_types_for_provider-exact :
    (provider : StandardProviderContract)
    → IsUnique (managed_types_for_provider provider)
      × ((v : String)
          → contains v (managed_types_for_provider provider) ≡ (
              provider.managed_provider_type == v
              || is_invoker v provider.managed_invoker_type
              || names_of v provider.capabilities))
unfolding managed_types_for_provider contains
managed_types_for_provider-exact p =
    let first = append_unique [] p.managed_provider_type in
    let second = append_invoker first p.managed_invoker_type in
    (
      append_capabilities-IsUnique second p.capabilities (
          append_invoker-IsUnique first p.managed_invoker_type
            (append_unique-IsUnique [] p.managed_provider_type tt)),
      λ v. ground (
        arith,
        contains-append_capabilities v second p.capabilities,
        contains-append_invoker v first p.managed_invoker_type,
        contains-append_unique v p.managed_provider_type [],
      ),
    )
