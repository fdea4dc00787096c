-- ===== src/Manifest/Capability.antt =====
-- `to_capability_metadata`: which entries it has.
use mathlib.Core.Option as Maybe
use mathlib.Core.Option.{none, some}
use Prim.Native.String.{◌++◌}
use text.Mathlib.Text.{starts_with}
use text.Mathlib.TextEquality.{starts_with_iff}
use text.Mathlib.TextLemmas.{prefix-append, append_assoc}
use aikernel_core.Base.{
  String, ◌≡◌, refl, sym, ◌∙◌, subst, inl, inr, true, false, List, [], ◌∷◌, ◌==◌, eq_iff,
  Bool-cases,
}
use aikernel_core.Python.Dict.{get, put}
use aikernel_core.Python.Dict.Laws.{IsDict, get-put, put-IsDict}
use aikernel_core.Python.Sorting.{sorted, sorted_items}
use aikernel_core.Python.Sorting.Laws.{get-sorted_items, sorted_items-IsDict}
use aikernel_core.Manifest.{
  ProviderManifest, ProviderCliManifest, put_text, put_texts, add_cli, to_capability_metadata,
}

-- A text under `cli.` is not a text that does not begin so.
prefixed-other :
    (k q s : String) → starts_with k "cli." ≡ false → ((("cli." ++ q) ++ s) == k) ≡ false
prefixed-other k q s h = elim (Bool-cases ((("cli." ++ q) ++ s) == k)) [
  | inl e ↦
      let begins : starts_with k "cli." ≡ true =
        subst (λ t. starts_with t "cli." ≡ true)
          (sym (append_assoc "cli." q s) ∙ (eq_iff (("cli." ++ q) ++ s) k).0 e)
          ((starts_with_iff ("cli." ++ (q ++ s)) "cli.").1 (prefix-append "cli." (q ++ s))) in
      cc
  | inr e ↦ e
]

get-put_other :
    (k j v : String) (d : List (String × String)) → (j == k) ≡ false → get k (put j v d) ≡ get k d
get-put_other k j v d h = rw (get-put j k v d, h) refl

pub get-put_texts :
    (k prefix : String) (l : List String) (d : List (String × String))
    → ((s : String) → ((prefix ++ s) == k) ≡ false)
    → get k (put_texts prefix l d) ≡ get k d
unfolding put_texts
get-put_texts k prefix [] d h = refl
get-put_texts k prefix (s ∷ l) d h =
    get-put_texts k prefix l (put (prefix ++ s) s d) h ∙ get-put_other k (prefix ++ s) s d (h s)

pub get-put_text :
    (k j v : String) (d : List (String × String))
    → (j == k) ≡ false
    → get k (put_text j v d) ≡ get k d
unfolding put_text
get-put_text k j v d h = elim (Bool-cases (v == "")) [
  | inl e ↦ rw e refl
  | inr e ↦ rw e (get-put_other k j v d h)
]

put_texts-IsDict :
    (prefix : String) (l : List String) (d : List (String × String))
    → IsDict d
    → IsDict (put_texts prefix l d)
unfolding put_texts
put_texts-IsDict prefix [] d h = h
put_texts-IsDict prefix (s ∷ l) d h =
    put_texts-IsDict prefix l (put (prefix ++ s) s d) (put-IsDict (prefix ++ s) s d h)

put_text-IsDict : (j v : String) (d : List (String × String)) → IsDict d → IsDict (put_text j v d)
unfolding put_text
put_text-IsDict j v d h = elim (Bool-cases (v == "")) [
  | inl e ↦ rw e h
  | inr e ↦ rw e (put-IsDict j v d h)
]

get-add_cli :
    (k : String) (cli : Maybe.Option ProviderCliManifest) (d : List (String × String))
    → starts_with k "cli." ≡ false
    → get k (add_cli cli d) ≡ get k d
unfolding add_cli
get-add_cli k none d h = refl
get-add_cli k (some cli) d h =
    let one = put_text "cli.command" cli.command d in
    let two = put_text "cli.default_operation" cli.default_operation one in
    let three = put_texts "cli.config." (sorted cli.config_keys) two in
    get-put_texts k "cli.env." (sorted cli.required_environment) three
      (λ s. prefixed-other k "env." s h)
    ∙ get-put_texts k "cli.config." (sorted cli.config_keys) two
        (λ s. prefixed-other k "config." s h)
    ∙ get-put_text k "cli.default_operation" cli.default_operation one
        (prefixed-other k "default_" "operation" h)
    ∙ get-put_text k "cli.command" cli.command d (prefixed-other k "com" "mand" h)

add_cli-IsDict :
    (cli : Maybe.Option ProviderCliManifest) (d : List (String × String))
    → IsDict d
    → IsDict (add_cli cli d)
unfolding add_cli
add_cli-IsDict none d h = h
add_cli-IsDict (some cli) d h =
    let one = put_text "cli.command" cli.command d in
    let two = put_text "cli.default_operation" cli.default_operation one in
    let three = put_texts "cli.config." (sorted cli.config_keys) two in
    put_texts-IsDict "cli.env." (sorted cli.required_environment) three (
      put_texts-IsDict "cli.config." (sorted cli.config_keys) two (
        put_text-IsDict "cli.default_operation" cli.default_operation one
          (put_text-IsDict "cli.command" cli.command d h)))

-- The capability metadata of a manifest has each key once, and where a key does not begin with
-- `cli.` its entry is that of the manifest's metadata.
pub get-to_capability_metadata :
    (m : ProviderManifest) (k : String)
    → IsDict m.metadata
    → starts_with k "cli." ≡ false
    → IsDict (to_capability_metadata m) × (get k (to_capability_metadata m) ≡ get k m.metadata)
unfolding to_capability_metadata
get-to_capability_metadata m k h other = (
  add_cli-IsDict m.cli (sorted_items m.metadata) (sorted_items-IsDict m.metadata h),
  get-add_cli k m.cli (sorted_items m.metadata) other ∙ get-sorted_items k m.metadata h,
)
