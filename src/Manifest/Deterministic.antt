-- ===== src/Manifest/Deterministic.antt =====
-- `to_capability_metadata` does not depend on the order in which a manifest lists its settings.
use mathlib.Core.List.{Permᴰ}
use mathlib.Core.Option as Maybe
use mathlib.Core.Option.{none, some}
use aikernel_core.Base.{String, ◌≡◌, refl, List}
use aikernel_core.Python.Dict.Laws.{IsDict}
use aikernel_core.Python.Sorting.{sorted_items}
use aikernel_core.Python.Sorting.Permutation.{sorted-perm, sorted_items-perm}
use aikernel_core.Manifest.{ProviderManifest, ProviderCliManifest, add_cli, to_capability_metadata}

-- The same cli settings, with their lists in any order.
abbrev pub SameCli : Maybe.Option ProviderCliManifest → Maybe.Option ProviderCliManifest → Type 0
SameCli none none = Unit
SameCli (some c) (some d) =
    (c.command ≡ d.command)
    × (c.default_operation ≡ d.default_operation)
    × Permᴰ c.config_keys d.config_keys
    × Permᴰ c.required_environment d.required_environment
SameCli _ _ = ⊥

add_cli-same :
    (c d : Maybe.Option ProviderCliManifest) (items : List (String × String))
    → SameCli c d
    → add_cli c items ≡ add_cli d items
unfolding add_cli
add_cli-same none none items h = refl
add_cli-same (some c) (some d) items h = rw (h.0, h.1, sorted-perm h.2, sorted-perm h.3) refl
add_cli-same none (some d) items h = absurd h
add_cli-same (some c) none items h = absurd h

-- Manifests whose metadata, which has no key twice, configuration keys and environment variables are the
-- same up to their order, and whose commands and default operations are equal, have one capability
-- metadata, with its entries in one order.
pub to_capability_metadata-perm :
    (m n : ProviderManifest)
    → IsDict m.metadata
    → Permᴰ m.metadata n.metadata
    → SameCli m.cli n.cli
    → to_capability_metadata m ≡ to_capability_metadata n
unfolding to_capability_metadata
to_capability_metadata-perm m n h p same =
    rw (sorted_items-perm p h) (add_cli-same m.cli n.cli (sorted_items n.metadata) same)
