-- ===== src/Python/Text/Laws.antt =====
-- What `strip` leaves has nothing to strip.
use Prim.Native.Char.{Char}
use Prim.Native.String.{[], ◌∷◌}
use aikernel_core.Base.{String, ◌≡◌, refl, false, Bool-cases, inl, inr}
use aikernel_core.Python.Text.{is_space, lstrip, rstrip, rstrip_cons, strip}

rstrip-rstrip_cons :
    (c : Char) (s : String) → rstrip s ≡ s → rstrip (rstrip_cons c s) ≡ rstrip_cons c s
unfolding rstrip
rstrip-rstrip_cons c [] h = elim (Bool-cases (is_space c)) [ inl e ↦ simp e | inr e ↦ simp e ]
rstrip-rstrip_cons c (d ∷ t) h = rw h refl

rstrip-rstrip : (s : String) → rstrip (rstrip s) ≡ rstrip s
unfolding rstrip
rstrip-rstrip [] = refl
rstrip-rstrip (c ∷ s) = rstrip-rstrip_cons c (rstrip s) (rstrip-rstrip s)

lstrip-rstrip_cons :
    (c : Char) (s : String) → is_space c ≡ false → lstrip (rstrip_cons c s) ≡ rstrip_cons c s
unfolding lstrip
lstrip-rstrip_cons c [] h = simp h
lstrip-rstrip_cons c (d ∷ t) h = simp h

lstrip-strip : (s : String) → lstrip (rstrip (lstrip s)) ≡ rstrip (lstrip s)
unfolding lstrip rstrip
lstrip-strip [] = refl
lstrip-strip (c ∷ s) = elim (Bool-cases (is_space c)) [
  | inl e ↦ rw e (lstrip-strip s)
  | inr e ↦ rw e (lstrip-rstrip_cons c (rstrip s) e)
]

pub strip-strip : (s : String) → strip (strip s) ≡ strip s
unfolding strip
strip-strip s = rw (lstrip-strip s) (rstrip-rstrip (lstrip s))

stripped : strip " \ta b\n" ≡ "a b"
unfolding strip
stripped = refl
