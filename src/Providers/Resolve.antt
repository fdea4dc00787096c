-- ===== src/Providers/Resolve.antt =====
-- What the lookups of providers and capabilities find.
use mathlib.Core.List.{Memᴰ}
use aikernel_core.Base.{
  String, ◌≡◌, ◌≢◌, refl, subst, sym, List, [], ◌∷◌, ◌++◌, ◌==◌, if◌then◌else◌, eq_iff, Bool-cases,
  inl, inr,
}
use aikernel_core.Python.Effect.{Outcome, return, raise}
use aikernel_core.Python.Effect.Rules.{Ends}
use aikernel_core.Providers.{
  CapabilityContract, StandardProviderContract, find_provider, find_in, find_capability,
  canonical_capability_id,
}
use aikernel_core.Providers.Table.{standard_providers, standard_provider, standard_capability}

abbrev pub All {ℓ κ} : {A : Type ℓ} → (A → Type κ) → List A → Type κ
All P [] = Unit
All P (x ∷ xs) = P x × All P xs

abbrev Found : List StandardProviderContract → String → Outcome StandardProviderContract → Type 0
Found providers id =
    Ends (λ p. Memᴰ p providers × (p.provider_id ≡ id))
      (λ e. All (λ p. p.provider_id ≢ id) providers)

Found-cons :
    (p : StandardProviderContract) (rest : List StandardProviderContract) (id : String)
    (o : Outcome StandardProviderContract)
    → p.provider_id ≢ id
    → Found rest id o
    → Found (p ∷ rest) id o
Found-cons p rest id (return q) ne h = (Memᴰ.tail h.0, h.1)
Found-cons p rest id (raise e) ne h = (ne, h)

find_provider-Found :
    (providers : List StandardProviderContract) (id : String)
    → Found providers id (find_provider providers id)
unfolding find_provider
find_provider-Found [] id = tt
find_provider-Found (p ∷ rest) id = elim (Bool-cases (p.provider_id == id)) [
  | inl same ↦ rw same (Memᴰ.head refl, (eq_iff p.provider_id id).0 same)
  | inr other ↦ rw other (
      Found-cons p rest id (find_provider rest id) (λ e. cc (other, (eq_iff p.provider_id id).1 e))
        (find_provider-Found rest id))
]

-- `standard_provider` returns a built-in provider with the given identifier, or raises, and then no
-- built-in provider has it.
standard_provider-Found :
    (id : String)
    → Ends
        (λ p. Memᴰ p standard_providers × (p.provider_id ≡ id))
        (λ e. All (λ p. p.provider_id ≢ id) standard_providers)
        (standard_provider id)
unfolding standard_provider
standard_provider-Found id = find_provider-Found standard_providers id

-- The capabilities of all providers, in order.
abbrev pub capabilities_of : List StandardProviderContract → List CapabilityContract
capabilities_of [] = []
capabilities_of (p ∷ rest) = p.capabilities ++ capabilities_of rest

abbrev FoundCapability : List CapabilityContract → String → Outcome CapabilityContract → Type 0
FoundCapability cs id =
    Ends (λ c. Memᴰ c cs × (c.capability_id ≡ id)) (λ e. All (λ c. c.capability_id ≢ id) cs)

FoundCapability-cons :
    (c : CapabilityContract) (cs : List CapabilityContract) (id : String)
    (o : Outcome CapabilityContract)
    → c.capability_id ≢ id
    → FoundCapability cs id o
    → FoundCapability (c ∷ cs) id o
FoundCapability-cons c cs id (return d) ne h = (Memᴰ.tail h.0, h.1)
FoundCapability-cons c cs id (raise e) ne h = (ne, h)

find_in-Found :
    (cs more : List CapabilityContract) (id : String) (next : Outcome CapabilityContract)
    → FoundCapability more id next
    → FoundCapability (cs ++ more) id (find_in cs id next)
unfolding find_in
find_in-Found [] more id next h = h
find_in-Found (c ∷ cs) more id next h = elim (Bool-cases (c.capability_id == id)) [
  | inl same ↦ rw same (Memᴰ.head refl, (eq_iff c.capability_id id).0 same)
  | inr other ↦ rw other (
      FoundCapability-cons c (cs ++ more) id (find_in cs id next)
        (λ e. cc (other, (eq_iff c.capability_id id).1 e)) (find_in-Found cs more id next h))
]

find_capability-Found :
    (providers : List StandardProviderContract) (canonical id : String)
    → FoundCapability (capabilities_of providers) canonical (find_capability providers canonical id)
unfolding find_capability
find_capability-Found [] canonical id = tt
find_capability-Found (p ∷ rest) canonical id =
    find_in-Found p.capabilities (capabilities_of rest) canonical
      (find_capability rest canonical id) (find_capability-Found rest canonical id)

-- `standard_capability` returns a capability of a built-in provider whose identifier is the given
-- one, or `aikernel.vfs` for the alias `aikernel.vfs.read`; or it raises, and then no capability of
-- a built-in provider has that identifier.
standard_capability-Found :
    (id : String)
    → Ends
        (λ c.
          Memᴰ c (capabilities_of standard_providers)
          × (c.capability_id ≡ (if id == "aikernel.vfs.read" then "aikernel.vfs" else id)))
        (λ e.
          All
            (λ c. c.capability_id ≢ (if id == "aikernel.vfs.read" then "aikernel.vfs" else id))
            (capabilities_of standard_providers))
        (standard_capability id)
unfolding standard_capability canonical_capability_id
standard_capability-Found id =
    find_capability-Found standard_providers (canonical_capability_id id) id

-- `standard_provider` returns a built-in provider with the given identifier, or raises, and then no
-- built-in provider has it. `standard_capability` returns a capability of a built-in provider whose
-- identifier is the given one, or `aikernel.vfs` for the alias `aikernel.vfs.read`; or it raises, and
-- then no capability of a built-in provider has that identifier.
standard_lookups-Found :
    (id : String)
    → Ends
        (λ p. Memᴰ p standard_providers × (p.provider_id ≡ id))
        (λ e. All (λ p. p.provider_id ≢ id) standard_providers)
        (standard_provider id)
      × Ends
          (λ c.
            Memᴰ c (capabilities_of standard_providers)
            × (c.capability_id ≡ (if id == "aikernel.vfs.read" then "aikernel.vfs" else id)))
          (λ e.
            All
              (λ c. c.capability_id ≢ (if id == "aikernel.vfs.read" then "aikernel.vfs" else id))
              (capabilities_of standard_providers))
          (standard_capability id)
standard_lookups-Found id = (standard_provider-Found id, standard_capability-Found id)

All-Memᴰ {ℓ κ} : {A : Type ℓ} (P : A → Type κ) {a : A} (xs : List A) → All P xs → Memᴰ a xs → P a
All-Memᴰ P [] h m = elim m [ ]
All-Memᴰ P (x ∷ xs) h (Memᴰ.head e) = subst P (sym e) h.0
All-Memᴰ P (x ∷ xs) h (Memᴰ.tail m) = All-Memᴰ P xs h.1 m

each_found : All (λ p. standard_provider p.provider_id ≡ return p) standard_providers
unfolding standard_provider
each_found = (refl, (refl, (refl, (refl, (refl, tt)))))

each_capability_found :
    All (λ c. standard_capability c.capability_id ≡ return c) (capabilities_of standard_providers)
unfolding standard_capability
each_capability_found = (refl, (refl, (refl, (refl, tt))))

-- Every built-in provider and every capability of one is found by its identifier.
standard_providers-round_trip :
    (p : StandardProviderContract) (c : CapabilityContract)
    → Memᴰ p standard_providers
    → Memᴰ c (capabilities_of standard_providers)
    → (standard_provider p.provider_id ≡ return p)
      × (standard_capability c.capability_id ≡ return c)
standard_providers-round_trip p c m n = (
  All-Memᴰ (λ q. standard_provider q.provider_id ≡ return q) standard_providers each_found m,
  All-Memᴰ (λ d. standard_capability d.capability_id ≡ return d)
      (capabilities_of standard_providers) each_capability_found n,
)

-- `standard_provider` returns a built-in provider with the given identifier, or raises, and then no
-- built-in provider has it. `standard_capability` returns a capability of a built-in provider whose
-- identifier is the given one, or `aikernel.vfs` for the alias `aikernel.vfs.read`; or it raises, and
-- then no capability of a built-in provider has that identifier. Every built-in provider and every
-- capability of one is found by its own identifier.
pub standard_lookups-exact :
    (id : String) (p : StandardProviderContract) (c : CapabilityContract)
    → Memᴰ p standard_providers
    → Memᴰ c (capabilities_of standard_providers)
    → Ends
        (λ q. Memᴰ q standard_providers × (q.provider_id ≡ id))
        (λ e. All (λ q. q.provider_id ≢ id) standard_providers)
        (standard_provider id)
      × Ends
          (λ d.
            Memᴰ d (capabilities_of standard_providers)
            × (d.capability_id ≡ (if id == "aikernel.vfs.read" then "aikernel.vfs" else id)))
          (λ e.
            All
              (λ d. d.capability_id ≢ (if id == "aikernel.vfs.read" then "aikernel.vfs" else id))
              (capabilities_of standard_providers))
          (standard_capability id)
      × (standard_provider p.provider_id ≡ return p)
      × (standard_capability c.capability_id ≡ return c)
standard_lookups-exact id p c m n =
    let (provider, capability) = standard_providers-round_trip p c m n in
    (standard_provider-Found id, standard_capability-Found id, provider, capability)
