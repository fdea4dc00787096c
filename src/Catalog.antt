-- ===== src/Catalog.antt =====
-- The managed API catalog: the types and functions of python/src/aikernel_net/api_catalog.py. The
-- table itself is generated from the C# sources, and is the argument `catalog` of the functions.
pub mod Find
pub mod Summary
use mathlib.Core.Option as Maybe
use mathlib.Core.Option.{none, some}
use Prim.Native.String.{◌++◌}
use aikernel_core.Base.{ℕ, ◌+◌, String, List, [], ◌∷◌, map, ◌==◌, if◌then◌else◌}
use aikernel_core.Python.Dict.{get, put}
use aikernel_core.Python.Sorting.{sorted_items}

pub record ManagedMemberDescriptor : Type 0 where
  pub kind : String
  pub name : String
  pub signature : String

pub record ManagedTypeDescriptor : Type 0 where
  pub namespace : String
  pub name : String
  pub kind : String
  pub assembly : String
  pub source : String
  pub members : List ManagedMemberDescriptor

unfoldable pub full_name : ManagedTypeDescriptor → String
full_name self = if self.namespace == "" then self.name else self.namespace ++ "." ++ self.name

abbrev pub Catalog : Type 0
Catalog = List ManagedTypeDescriptor

unfoldable pub managed_api_catalog : Catalog → Catalog
managed_api_catalog catalog = catalog

unfoldable pub managed_type_names : Catalog → List String
unfolding full_name
managed_type_names catalog = map full_name catalog

unfoldable pub find_managed_type : Catalog → String → Maybe.Option ManagedTypeDescriptor
unfolding full_name
find_managed_type [] name = none
find_managed_type (item ∷ catalog) name =
    if full_name item == name then some item else find_managed_type catalog name

-- `d.get(key, 0)`
abbrev pub or_zero : Maybe.Option ℕ → ℕ
or_zero none = 0
or_zero (some n) = n

-- The body of the loop of `managed_api_summary`.
unfoldable pub count_item : ManagedTypeDescriptor → List (String × ℕ) → List (String × ℕ)
unfolding get put
count_item item summary = put item.assembly (or_zero (get item.assembly summary) + 1) summary

unfoldable pub count_items : Catalog → List (String × ℕ) → List (String × ℕ)
unfolding count_item
count_items [] summary = summary
count_items (item ∷ catalog) summary = count_items catalog (count_item item summary)

unfoldable pub managed_api_summary : Catalog → List (String × ℕ)
unfolding count_items sorted_items
managed_api_summary catalog = sorted_items (count_items catalog [])
