-- ===== src/Python/Text/Affix.antt =====
-- `replace`, `rstrip`, `endswith` and slices of `str`, as the package calls them.
use Prim.Native.Char.{Char, code}
use Prim.Native.Nat.{compare}
use Prim.Native.String.count as Count
use Prim.Native.String.append as Append
use Prim.Native.String.{[], ◌∷◌, ◌++◌, count}
use text.Mathlib.Text.{is_eq}
use aikernel_core.Base.{ℕ, zero, suc, String, Bool, ◌≡◌, refl, ◌==◌, ◌||◌, if◌then◌else◌}

abbrev is_char : Char → Char → Bool
is_char c d = is_eq (compare (code c) (code d))

-- `text.replace(old, new)` for single characters
unfoldable pub replace : Char → Char → String → String
replace old new [] = []
replace old new (c ∷ s) = (if is_char c old then new else c) ∷ replace old new s

abbrev pub rstrip_char_cons : Char → Char → String → String
rstrip_char_cons d c [] = if is_char c d then [] else c ∷ []
rstrip_char_cons d c (e ∷ t) = c ∷ (e ∷ t)

-- `text.rstrip(d)` for a single character
unfoldable pub rstrip_char : Char → String → String
rstrip_char d [] = []
rstrip_char d (c ∷ s) = rstrip_char_cons d c (rstrip_char d s)

-- `text.endswith(suffix)`
unfoldable pub ends_with : String → String → Bool
ends_with [] suffix = [] == suffix
ends_with (c ∷ s) suffix = (c ∷ s) == suffix || ends_with s suffix

-- `text[n:]`
unfoldable pub skip : ℕ → String → String
skip zero s = s
skip (suc n) [] = []
skip (suc n) (c ∷ s) = skip n s

-- What follows a prefix.
pub skip-count : (s t : String) → skip (count s) (s ++ t) ≡ t
unfolding skip
skip-count [] t = rw (Append.nil t) refl
skip-count (c ∷ s) t = rw (Count.cons c s, Append.cons c s t) (skip-count s t)
