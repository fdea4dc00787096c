-- ===== src/Python/Text.antt =====
-- The methods of `str` that the package calls.
pub mod Laws
pub mod Affix
use Prim.Native.Char.{Char, code}
use Prim.Native.Nat.{compare}
use Prim.Native.String.{[], ◌∷◌}
use text.Mathlib.Text.{is_eq, is_le}
use aikernel_core.Base.{ℕ, String, Bool, ◌&&◌, ◌||◌, if◌then◌else◌}

abbrev is_between : ℕ → ℕ → ℕ → Bool
is_between low n high = is_le (compare low n) && is_le (compare n high)

abbrev is_code : ℕ → ℕ → Bool
is_code n m = is_eq (compare n m)

-- The whitespace of `str.isspace`.
unfoldable pub is_space : Char → Bool
is_space c =
    is_between 9 (code c) 13
    || is_between 28 (code c) 32
    || is_code 133 (code c)
    || is_code 160 (code c)
    || is_code 5760 (code c)
    || is_between 8192 (code c) 8202
    || is_between 8232 (code c) 8233
    || is_code 8239 (code c)
    || is_code 8287 (code c)
    || is_code 12288 (code c)

unfoldable pub lstrip : String → String
lstrip [] = []
lstrip (c ∷ s) = if is_space c then lstrip s else c ∷ s

abbrev pub rstrip_cons : Char → String → String
rstrip_cons c [] = if is_space c then [] else c ∷ []
rstrip_cons c (d ∷ t) = c ∷ (d ∷ t)

unfoldable pub rstrip : String → String
rstrip [] = []
rstrip (c ∷ s) = rstrip_cons c (rstrip s)

unfoldable pub strip : String → String
unfolding lstrip rstrip is_space
strip s = rstrip (lstrip s)
