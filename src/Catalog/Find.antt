-- ===== src/Catalog/Find.antt =====
-- What `find_managed_type` of python/src/aikernel_net/api_catalog.py finds.
use mathlib.Core.List.{Memᴰ}
use mathlib.Core.Option as Maybe
use mathlib.Core.Option.{none, some}
use aikernel_core.Base.{
  String, ◌≡◌, refl, sym, ap, subst, List, [], ◌∷◌, ◌++◌, ◌==◌, eq_iff, Bool-cases, inl, inr, arith,
}
use aikernel_core.Catalog.{
  ManagedTypeDescriptor, Catalog, full_name, managed_type_names, find_managed_type,
}

-- No name stands twice in a list.
abbrev pub AreDistinct : List String → Type 0
AreDistinct [] = Unit
AreDistinct (name ∷ names) = (Memᴰ name names → ⊥) × AreDistinct names

-- The first type of the catalog that has the name: none before it has.
pub record IsFirst (catalog : Catalog) (name : String) (item : ManagedTypeDescriptor) : Type 0 where
  pub before : Catalog
  pub after : Catalog
  pub parts : catalog ≡ before ++ item ∷ after
  pub named : full_name item ≡ name
  pub unnamed : Memᴰ name (managed_type_names before) → ⊥

-- What is found is the first type of the name; where nothing is found no type has the name.
abbrev pub IsFound : Catalog → String → Maybe.Option ManagedTypeDescriptor → Type 0
IsFound catalog name none = Memᴰ name (managed_type_names catalog) → ⊥
IsFound catalog name (some item) = IsFirst catalog name item

unnamed-cons :
    (item : ManagedTypeDescriptor) (catalog : Catalog) (name : String)
    → (full_name item ≡ name → ⊥)
    → (Memᴰ name (managed_type_names catalog) → ⊥)
    → Memᴰ name (managed_type_names (item ∷ catalog))
    → ⊥
unfolding managed_type_names
unnamed-cons item catalog name ne h (Memᴰ.head e) = ne (sym e)
unnamed-cons item catalog name ne h (Memᴰ.tail m) = h m

IsFound-cons :
    (item : ManagedTypeDescriptor) (catalog : Catalog) (name : String)
    (found : Maybe.Option ManagedTypeDescriptor)
    → (full_name item ≡ name → ⊥)
    → IsFound catalog name found
    → IsFound (item ∷ catalog) name found
IsFound-cons item catalog name (some other) ne h = record {
  before = item ∷ h.before;
  after = h.after;
  parts = ap (λ l. item ∷ l) h.parts;
  named = h.named;
  unnamed = unnamed-cons item h.before name ne h.unnamed;
}
IsFound-cons item catalog name none ne h = unnamed-cons item catalog name ne h

none_named : (name : String) → Memᴰ name (managed_type_names []) → ⊥
unfolding managed_type_names
none_named name m = elim m [ ]

member_named :
    (item : ManagedTypeDescriptor) (catalog : Catalog)
    → Memᴰ item catalog
    → Memᴰ (full_name item) (managed_type_names catalog)
unfolding managed_type_names
member_named item [] m = elim m [ ]
member_named item (other ∷ catalog) (Memᴰ.head e) = Memᴰ.head (ap full_name e)
member_named item (other ∷ catalog) (Memᴰ.tail m) = Memᴰ.tail (member_named item catalog m)

-- Where no two types of the catalog have one name, each of them is found by its name.
find_managed_type-full_name :
    (catalog : Catalog) (item : ManagedTypeDescriptor)
    → AreDistinct (managed_type_names catalog)
    → Memᴰ item catalog
    → find_managed_type catalog (full_name item) ≡ some item
unfolding find_managed_type managed_type_names
find_managed_type-full_name [] item distinct m = elim m [ ]
find_managed_type-full_name (other ∷ catalog) item distinct (Memᴰ.head e) =
    rw (e, (eq_iff (full_name other) (full_name other)).1 refl) refl
find_managed_type-full_name (other ∷ catalog) item distinct (Memᴰ.tail m) =
    elim (Bool-cases (full_name other == full_name item)) [
      | inl e ↦ absurd (
          distinct.0 (
            subst (λ name. Memᴰ name (managed_type_names catalog))
              (sym ((eq_iff (full_name other) (full_name item)).0 e))
              (member_named item catalog m)))
      | inr e ↦ rw e (find_managed_type-full_name catalog item distinct.1 m)
    ]

-- For any catalog, also one in which a name stands twice: a name finds the first type of the catalog that
-- has it, so that no type before it does, or nothing, and then no type of the catalog has it.
pub find_managed_type-exact :
    (catalog : Catalog) (name : String) → IsFound catalog name (find_managed_type catalog name)
unfolding find_managed_type
find_managed_type-exact [] name = none_named name
find_managed_type-exact (item ∷ catalog) name = elim (Bool-cases (full_name item == name)) [
  | inl e ↦ rw e (record {
    before = [];
    after = catalog;
    parts = refl;
    named = (eq_iff (full_name item) name).0 e;
    unnamed = none_named name;
  })
  | inr e ↦ rw e (
      IsFound-cons item catalog name (find_managed_type catalog name)
        (λ same. ground (arith, eq_iff (full_name item) name))
        (find_managed_type-exact catalog name))
]
