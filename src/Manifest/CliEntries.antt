-- ===== src/Manifest/CliEntries.antt =====
-- `to_capability_metadata`: the entries of the cli settings.
use mathlib.Core.List.{Memᴰ}
use mathlib.Core.Option.{some}
use Prim.Native.String.{◌++◌}
use text.Mathlib.Text.{starts_with}
use text.Mathlib.TextEquality.{starts_with_iff}
use text.Mathlib.TextLemmas.{prefix-append, append_assoc, append_cancel_left}
use text.Mathlib.TextPositions.{slice-append_left}
use Prim.Native.String.{slice}
use aikernel_core.Base.{
  String, ◌≡◌, refl, sym, ap, ◌∙◌, subst, inl, inr, true, false, List, [], ◌∷◌, ◌==◌, eq_iff,
  eq_refl, Bool-cases, if◌then◌else◌,
}
use aikernel_core.Python.Dict.{get, put}
use aikernel_core.Python.Dict.Laws.{IsDict, get-put}
use aikernel_core.Python.Sorting.{le, insert, sort, sorted, sorted_items}
use aikernel_core.Python.Sorting.Laws.{get-sorted_items}
use aikernel_core.Manifest.{
  ProviderManifest, ProviderCliManifest, put_text, put_texts, add_cli, to_capability_metadata,
}
use aikernel_core.Manifest.Capability.{get-put_texts, get-put_text, get-to_capability_metadata}

prefixed-other : (k prefix s : String) → starts_with k prefix ≡ false → ((prefix ++ s) == k) ≡ false
prefixed-other k prefix s h = elim (Bool-cases ((prefix ++ s) == k)) [
  | inl e ↦
      let begins : starts_with k prefix ≡ true =
        subst (λ t. starts_with t prefix ≡ true) ((eq_iff (prefix ++ s) k).0 e)
          ((starts_with_iff (prefix ++ s) prefix).1 (prefix-append prefix s)) in
      cc
  | inr e ↦ e
]

get-put_text_self :
    (j v : String) (d : List (String × String))
    → get j (put_text j v d) ≡ (if v == "" then get j d else some v)
unfolding put_text
get-put_text_self j v d = elim (Bool-cases (v == "")) [
  | inl e ↦ rw e refl
  | inr e ↦ rw (e, get-put j j v d, eq_refl j) refl
]

-- A later key is the same only where it is of the same text, and then its entry is the same.
get-put_texts_kept :
    (prefix s : String) (l : List String) (d : List (String × String))
    → get (prefix ++ s) d ≡ some s
    → get (prefix ++ s) (put_texts prefix l d) ≡ some s
unfolding put_texts
get-put_texts_kept prefix s [] d h = h
get-put_texts_kept prefix s (t ∷ l) d h = get-put_texts_kept prefix s l (put (prefix ++ t) t d) (
    get-put (prefix ++ t) (prefix ++ s) t d ∙ elim (Bool-cases ((prefix ++ t) == (prefix ++ s))) [
      | inl e ↦
          let same : t ≡ s =
            append_cancel_left prefix t s ((eq_iff (prefix ++ t) (prefix ++ s)).0 e) in
          rw (e, same) refl
      | inr e ↦ rw (e, h) refl
    ])

get-put_texts_member :
    (prefix s : String) (l : List String) (d : List (String × String))
    → Memᴰ s l
    → get (prefix ++ s) (put_texts prefix l d) ≡ some s
unfolding put_texts
get-put_texts_member prefix s [] d m = elim m [ ]
get-put_texts_member prefix s (t ∷ l) d (Memᴰ.head e) =
    get-put_texts_kept prefix s l (put (prefix ++ t) t d)
      (rw (get-put (prefix ++ t) (prefix ++ s) t d, e, eq_refl (prefix ++ t)) refl)
get-put_texts_member prefix s (t ∷ l) d (Memᴰ.tail m) =
    get-put_texts_member prefix s l (put (prefix ++ t) t d) m

false_ne_true : false ≡ true → ⊥
false_ne_true e = cc

env_not_config : (s t : String) → "cli.env." ++ s ≡ "cli.config." ++ t → ⊥
env_not_config s t e =
    let split : "cli.e" ++ ("nv." ++ s) ≡ "cli.c" ++ ("onfig." ++ t) =
      sym (append_assoc "cli.e" "nv." s) ∙ e ∙ append_assoc "cli.c" "onfig." t in
    let same : "cli.e" ≡ "cli.c" =
      sym (slice-append_left "cli.e" ("nv." ++ s))
      ∙ ap (λ v. slice v 0 5) split
      ∙ slice-append_left "cli.c" ("onfig." ++ t) in
    false_ne_true (ap (λ v. v == "cli.c") same)

env-other : (s t : String) → (("cli.env." ++ s) == ("cli.config." ++ t)) ≡ false
env-other s t = elim (Bool-cases (("cli.env." ++ s) == ("cli.config." ++ t))) [
  | inl e ↦ absurd (env_not_config s t ((eq_iff ("cli.env." ++ s) ("cli.config." ++ t)).0 e))
  | inr e ↦ e
]

module _ {ℓ} {A : Type ℓ} (key : A → String) where
  insert-here : (a : A) (l : List A) → Memᴰ a (insert key a l)
  unfolding insert
  insert-here a [] = Memᴰ.head refl
  insert-here a (b ∷ l) = elim (Bool-cases (le (key a) (key b))) [
    | inl e ↦ rw e (Memᴰ.head refl)
    | inr e ↦ rw e (Memᴰ.tail (insert-here a l))
  ]

  insert-there : (c a : A) (l : List A) → Memᴰ c l → Memᴰ c (insert key a l)
  unfolding insert
  insert-there c a [] m = elim m [ ]
  insert-there c a (b ∷ l) (Memᴰ.head p) = elim (Bool-cases (le (key a) (key b))) [
    | inl e ↦ rw e (Memᴰ.tail (Memᴰ.head p))
    | inr e ↦ rw e (Memᴰ.head p)
  ]
  insert-there c a (b ∷ l) (Memᴰ.tail m) = elim (Bool-cases (le (key a) (key b))) [
    | inl e ↦ rw e (Memᴰ.tail (Memᴰ.tail m))
    | inr e ↦ rw e (Memᴰ.tail (insert-there c a l m))
  ]

  sort-member : (c : A) (l : List A) → Memᴰ c l → Memᴰ c (sort key l)
  unfolding sort
  sort-member c [] m = elim m [ ]
  sort-member c (a ∷ l) (Memᴰ.head e) =
      subst (λ x. Memᴰ x (insert key a (sort key l))) (sym e) (insert-here a (sort key l))
  sort-member c (a ∷ l) (Memᴰ.tail m) = insert-there c a (sort key l) (sort-member c l m)

-- The keys of the lists are not among the keys of the single settings.
past_lists :
    (k : String) (cli : ProviderCliManifest) (d : List (String × String))
    → starts_with k "cli.env." ≡ false
    → starts_with k "cli.config." ≡ false
    → get k (
        put_texts "cli.env."
          (sorted cli.required_environment)
          (put_texts "cli.config." (sorted cli.config_keys) d))
      ≡ get k d
past_lists k cli d p q =
    get-put_texts k "cli.env." (sorted cli.required_environment)
      (put_texts "cli.config." (sorted cli.config_keys) d) (λ s. prefixed-other k "cli.env." s p)
    ∙ get-put_texts k "cli.config." (sorted cli.config_keys) d
        (λ s. prefixed-other k "cli.config." s q)

-- Where a manifest has cli settings, its capability metadata has the command and the default
-- operation under `cli.command` and `cli.default_operation`, if they are not empty, and else what
-- the manifest's metadata has there; and under `cli.config.` and a configuration key it has
-- that key, and under `cli.env.` and a required environment variable that variable.
pub to_capability_metadata-cli :
    (m : ProviderManifest) (cli : ProviderCliManifest)
    → IsDict m.metadata
    → m.cli ≡ some cli
    → (get "cli.command" (to_capability_metadata m)
        ≡ (if cli.command == "" then get "cli.command" m.metadata else some cli.command))
      × (get "cli.default_operation" (to_capability_metadata m) ≡ (
          if cli.default_operation == ""
          then get "cli.default_operation" m.metadata
          else some cli.default_operation))
      × ((key : String)
          → Memᴰ key cli.config_keys
          → get ("cli.config." ++ key) (to_capability_metadata m) ≡ some key)
      × ((variable : String)
          → Memᴰ variable cli.required_environment
          → get ("cli.env." ++ variable) (to_capability_metadata m) ≡ some variable)
unfolding to_capability_metadata add_cli sorted
to_capability_metadata-cli m cli h e =
    let items = sorted_items m.metadata in
    let one = put_text "cli.command" cli.command items in
    let two = put_text "cli.default_operation" cli.default_operation one in
    let three = put_texts "cli.config." (sorted cli.config_keys) two in
    rw e (
      past_lists "cli.command" cli two refl refl
          ∙ get-put_text "cli.command" "cli.default_operation" cli.default_operation one refl
          ∙ get-put_text_self "cli.command" cli.command items
          ∙ rw (get-sorted_items "cli.command" m.metadata h) refl,
      past_lists "cli.default_operation" cli two refl refl
          ∙ get-put_text_self "cli.default_operation" cli.default_operation one
          ∙ rw
              (
                get-put_text "cli.default_operation" "cli.command" cli.command items refl,
                get-sorted_items "cli.default_operation" m.metadata h,
              )
              refl,
      λ key mem.
          get-put_texts ("cli.config." ++ key) "cli.env." (sorted cli.required_environment) three
            (λ s. env-other s key)
          ∙ get-put_texts_member "cli.config." key (sorted cli.config_keys) two
              (sort-member (λ s. s) key cli.config_keys mem),
      λ variable mem.
          get-put_texts_member "cli.env." variable (sorted cli.required_environment) three
            (sort-member (λ s. s) variable cli.required_environment mem),
    )

-- Where a manifest has cli settings, and metadata that has no key twice, its capability metadata has
-- each key once, and the entries of the manifest's metadata whose keys do not begin with `cli.`; it has
-- the command and the default operation under `cli.command` and `cli.default_operation`, if they are
-- not empty, and else what the manifest's metadata has there; and under `cli.config.` and a configuration
-- key it has that key, and under `cli.env.` and a required environment variable that variable.
pub to_capability_metadata-entries :
    (m : ProviderManifest) (cli : ProviderCliManifest) (k : String)
    → IsDict m.metadata
    → m.cli ≡ some cli
    → starts_with k "cli." ≡ false
    → IsDict (to_capability_metadata m)
      × (get k (to_capability_metadata m) ≡ get k m.metadata)
      × (get "cli.command" (to_capability_metadata m)
          ≡ (if cli.command == "" then get "cli.command" m.metadata else some cli.command))
      × (get "cli.default_operation" (to_capability_metadata m) ≡ (
          if cli.default_operation == ""
          then get "cli.default_operation" m.metadata
          else some cli.default_operation))
      × ((key : String)
          → Memᴰ key cli.config_keys
          → get ("cli.config." ++ key) (to_capability_metadata m) ≡ some key)
      × ((variable : String)
          → Memᴰ variable cli.required_environment
          → get ("cli.env." ++ variable) (to_capability_metadata m) ≡ some variable)
to_capability_metadata-entries m cli k h e other =
    let (each_once, kept) = get-to_capability_metadata m k h other in
    let (command, operation, keys, variables) = to_capability_metadata-cli m cli h e in
    (each_once, kept, command, operation, keys, variables)
