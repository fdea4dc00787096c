-- ===== src/Catalog/Summary.antt =====
-- What `managed_api_summary` of python/src/aikernel_net/api_catalog.py counts.
use mathlib.Core.List.{Permᴰ}
use mathlib.Core.Option as Maybe
use mathlib.Core.Option.{none, some}
use aikernel_core.Base.{
  ℕ, zero, suc, ◌+◌, String, ◌≡◌, refl, sym, ap, ◌∙◌, Bool-cases, inl, inr, List, [], ◌∷◌, ◌==◌,
  eq_iff, arith, if◌then◌else◌,
}
use aikernel_core.Python.Dict.{get, put}
use aikernel_core.Python.Dict.Laws.{IsDict, get-put, put-IsDict}
use aikernel_core.Python.Sorting.{insert, sort, sorted_items}
use aikernel_core.Python.Sorting.Laws.{get-sorted_items, sorted_items-IsDict}
use aikernel_core.Python.Sorting.Order.{sort-IsSorted}
use aikernel_core.Python.Sorting.Canonical.{InOrder, dict_ext}
use aikernel_core.Catalog.{
  ManagedTypeDescriptor, Catalog, or_zero, count_item, count_items, managed_api_summary,
}

-- How many types an assembly has.
abbrev pub types_of : String → Catalog → ℕ
types_of assembly [] = 0
types_of assembly (item ∷ catalog) =
    (if item.assembly == assembly then 1 else 0) + types_of assembly catalog

abbrev pub length {ℓ} : {A : Type ℓ} → List A → ℕ
length [] = 0
length (x ∷ xs) = suc (length xs)

abbrev pub total : List (String × ℕ) → ℕ
total [] = 0
total ((k, n) ∷ d) = n + total d

-- An entry after `n` more types of its assembly.
abbrev added : Maybe.Option ℕ → ℕ → Maybe.Option ℕ
added none zero = none
added none (suc n) = some (suc n)
added (some m) n = some (m + n)

-- An entry for `n` types.
abbrev pub entry : ℕ → Maybe.Option ℕ
entry zero = none
entry (suc n) = some (suc n)

added-none : (n : ℕ) → added none n ≡ entry n
added-none zero = refl
added-none (suc n) = refl

added-zero : (o : Maybe.Option ℕ) → o ≡ added o 0
added-zero none = refl
added-zero (some m) = ground arith

added-one : (o : Maybe.Option ℕ) (n : ℕ) → added (some (or_zero o + 1)) n ≡ added o (1 + n)
added-one none n = ground arith
added-one (some m) n = ground arith

get-count_item :
    (item : ManagedTypeDescriptor) (assembly : String) (summary : List (String × ℕ))
    → get assembly (count_item item summary) ≡ (
        if item.assembly == assembly
        then some (or_zero (get item.assembly summary) + 1)
        else get assembly summary)
unfolding count_item
get-count_item item assembly summary = get-put item.assembly assembly _ summary

zero_left : (n : ℕ) → n ≡ 0 + n
zero_left n = omega arith

get-count_items :
    (assembly : String) (catalog : Catalog) (summary : List (String × ℕ))
    → get assembly (count_items catalog summary)
      ≡ added (get assembly summary) (types_of assembly catalog)
unfolding count_items
get-count_items assembly [] summary = added-zero (get assembly summary)
get-count_items assembly (item ∷ catalog) summary =
    get-count_items assembly catalog (count_item item summary)
    ∙ elim (Bool-cases (item.assembly == assembly)) [
      | inl e ↦
          ap (λ o. added o (types_of assembly catalog)) (get-count_item item assembly summary)
          ∙ rw (e, (eq_iff item.assembly assembly).0 e)
              (added-one (get assembly summary) (types_of assembly catalog))
      | inr e ↦
          ap (λ o. added o (types_of assembly catalog)) (get-count_item item assembly summary)
          ∙ simp e (ap (added (get assembly summary)) (zero_left (types_of assembly catalog)))
    ]

count_items-IsDict :
    (catalog : Catalog) (summary : List (String × ℕ))
    → IsDict summary
    → IsDict (count_items catalog summary)
unfolding count_items count_item
count_items-IsDict [] summary h = h
count_items-IsDict (item ∷ catalog) summary h =
    count_items-IsDict catalog (count_item item summary) (put-IsDict item.assembly _ summary h)

get-managed_api_summary :
    (catalog : Catalog) (assembly : String)
    → get assembly (managed_api_summary catalog) ≡ entry (types_of assembly catalog)
unfolding managed_api_summary get
get-managed_api_summary catalog assembly =
    get-sorted_items assembly (count_items catalog []) (count_items-IsDict catalog [] tt)
    ∙ get-count_items assembly catalog []
    ∙ added-none (types_of assembly catalog)

managed_api_summary-IsDict : (catalog : Catalog) → IsDict (managed_api_summary catalog)
unfolding managed_api_summary
managed_api_summary-IsDict catalog =
    sorted_items-IsDict (count_items catalog []) (count_items-IsDict catalog [] tt)

managed_api_summary-InOrder : (catalog : Catalog) → InOrder (managed_api_summary catalog)
unfolding managed_api_summary sorted_items
managed_api_summary-InOrder catalog = sort-IsSorted (λ e. e.0) (count_items catalog [])

total-put :
    (k : String) (d : List (String × ℕ)) → total (put k (or_zero (get k d) + 1) d) ≡ total d + 1
unfolding get put
total-put k [] = omega arith
total-put k ((j, n) ∷ d) = ground (arith, total-put k d)

total-count_items :
    (catalog : Catalog) (summary : List (String × ℕ))
    → total (count_items catalog summary) ≡ total summary + length catalog
unfolding count_items count_item
total-count_items [] summary = omega arith
total-count_items (item ∷ catalog) summary =
    omega
      (arith, total-count_items catalog (count_item item summary), total-put item.assembly summary)

total-insert :
    (k : String) (n : ℕ) (d : List (String × ℕ)) → total (insert (λ e. e.0) (k, n) d) ≡ n + total d
unfolding insert
total-insert k n [] = refl
total-insert k n ((j, m) ∷ d) = ground (arith, total-insert k n d)

total-sorted_items : (d : List (String × ℕ)) → total (sorted_items d) ≡ total d
unfolding sorted_items sort
total-sorted_items [] = refl
total-sorted_items ((k, n) ∷ d) =
    omega (arith, total-insert k n (sort (λ e. e.0) d), total-sorted_items d)

-- The summary has an entry for each assembly that has a type in the catalog, with the number of its
-- types, and no other; each assembly stands there once, in the order of their names, and the numbers
-- add up to the number of types.
managed_api_summary-exact :
    (catalog : Catalog) (assembly : String)
    → (get assembly (managed_api_summary catalog) ≡ entry (types_of assembly catalog))
      × IsDict (managed_api_summary catalog)
      × InOrder (managed_api_summary catalog)
      × (total (managed_api_summary catalog) ≡ length catalog)
unfolding managed_api_summary
managed_api_summary-exact catalog assembly = (
  get-managed_api_summary catalog assembly,
  managed_api_summary-IsDict catalog,
  managed_api_summary-InOrder catalog,
  omega (arith, total-sorted_items (count_items catalog []), total-count_items catalog []),
)

types_of-perm :
    (assembly : String) {c d : Catalog} → Permᴰ c d → types_of assembly c ≡ types_of assembly d
types_of-perm assembly Permᴰ.nil = refl
types_of-perm assembly (Permᴰ.cons e p) = rw (e, types_of-perm assembly p) refl
types_of-perm assembly (Permᴰ.swap {a = a} {b = b} {l = l} e f) = rw (← e, ← f) (omega arith)
types_of-perm assembly (Permᴰ.trans p q) = types_of-perm assembly p ∙ types_of-perm assembly q

-- The order of the catalog does not matter to the summary.
managed_api_summary-perm :
    {c d : Catalog} → Permᴰ c d → managed_api_summary c ≡ managed_api_summary d
managed_api_summary-perm {c} {d} p =
    dict_ext (managed_api_summary c) (managed_api_summary d) (managed_api_summary-InOrder c)
      (managed_api_summary-InOrder d) (managed_api_summary-IsDict c) (managed_api_summary-IsDict d)
      λ k.
        get-managed_api_summary c k
        ∙ ap entry (types_of-perm k p)
        ∙ sym (get-managed_api_summary d k)

-- The summary has an entry for each assembly that has a type in the catalog, with the number of its
-- types, and no other; each assembly stands there once, in the order of their names; the numbers add
-- up to the number of types; and a catalog in another order has the same summary.
pub managed_api_summary-counts :
    (catalog other : Catalog) (assembly : String)
    → Permᴰ catalog other
    → (get assembly (managed_api_summary catalog) ≡ entry (types_of assembly catalog))
      × IsDict (managed_api_summary catalog)
      × InOrder (managed_api_summary catalog)
      × (total (managed_api_summary catalog) ≡ length catalog)
      × (managed_api_summary catalog ≡ managed_api_summary other)
managed_api_summary-counts catalog other assembly p =
    let (counted, once, ordered, added_up) = managed_api_summary-exact catalog assembly in
    (counted, once, ordered, added_up, managed_api_summary-perm p)
