-- ===== src/Base/Text.antt =====
-- Python texts as native strings: `strip`, and the truth value of a text.
use Prim.Native.Nat.{ℕ}
use Prim.Native.Char.{Char, code}
use Prim.Native.String.{String}
use mathlib.Core.Path.{◌≡◌, refl}
use mathlib.Core.Logic.{◌⊎◌, inl, inr}
use mathlib.Core.Bool.{Bool, true, false, ◌&&◌, ◌||◌}
use holansl_backend.Base.Tests.{leb, ◌==◌, if◌then◌else◌, Bool-cases}

-- `not s`
abbrev pub is_empty : String → Bool
is_empty String.[] = true
is_empty (String.◌∷◌ c s) = false

-- The code points that `str.isspace` accepts.
unfoldable pub is_space : ℕ → Bool
is_space c =
    leb 9 c && leb c 13
    || leb 28 c && leb c 32
    || c == 133
    || c == 160
    || c == 5760
    || leb 8192 c && leb c 8202
    || c == 8232
    || c == 8233
    || c == 8239
    || c == 8287
    || c == 12288

unfoldable pub lstrip : String → String
unfolding is_space
lstrip String.[] = String.[]
lstrip (String.◌∷◌ c s) = if is_space (code c) then lstrip s else String.◌∷◌ c s

unfoldable pub rstrip : String → String
unfolding is_space
rstrip String.[] = String.[]
rstrip (String.◌∷◌ c s) =
    if is_empty (rstrip s) && is_space (code c) then String.[] else String.◌∷◌ c (rstrip s)

-- `s.strip()`
unfoldable pub strip : String → String
unfolding lstrip rstrip
strip s = rstrip (lstrip s)

-- What is left after stripping on the left is empty, or begins with a character that stays.
lstrip-cases :
    (s : String)
    → (lstrip s ≡ String.[])
      ⊎ ((c : Char) × (t : String) × (lstrip s ≡ String.◌∷◌ c t) × (is_space (code c) ≡ false))
unfolding lstrip
lstrip-cases String.[] = inl refl
lstrip-cases (String.◌∷◌ c s) = elim (Bool-cases (is_space (code c))) [
  | inl e ↦ rw e (lstrip-cases s)
  | inr e ↦ inr (c, s, rw e, e)
]

lstrip-stays :
    (c : Char) (t : String) → is_space (code c) ≡ false → lstrip (String.◌∷◌ c t) ≡ String.◌∷◌ c t
unfolding lstrip
lstrip-stays c t stays = rw stays

rstrip-stays :
    (c : Char) (t : String)
    → is_space (code c) ≡ false
    → rstrip (String.◌∷◌ c t) ≡ String.◌∷◌ c (rstrip t)
unfolding rstrip
rstrip-stays c t stays = elim (Bool-cases (is_empty (rstrip t))) [
  | inl e ↦ rw (e, stays)
  | inr e ↦ rw e
]

rstrip-lstrip-rstrip :
    (c : Char) (t : String)
    → is_space (code c) ≡ false
    → is_empty (rstrip (lstrip (rstrip (String.◌∷◌ c t)))) ≡ is_empty (rstrip (String.◌∷◌ c t))
rstrip-lstrip-rstrip c t stays =
    rw (rstrip-stays c t stays, lstrip-stays c (rstrip t) stays, rstrip-stays c (rstrip t) stays)

-- Stripping a stripped text again leaves it a blank or not as before.
pub is_empty-strip-strip : (s : String) → is_empty (strip (strip s)) ≡ is_empty (strip s)
unfolding strip
is_empty-strip-strip s = elim (lstrip-cases s) [
  | inl e ↦ unfold lstrip rstrip in rw e
  | inr (c, t, e, stays) ↦ rw e (rstrip-lstrip-rstrip c t stays)
]

-- The empty text is blank.
pub is_empty-strip : (s : String) → is_empty s ≡ true → is_empty (strip s) ≡ true
unfolding strip lstrip rstrip
is_empty-strip String.[] h = refl
is_empty-strip (String.◌∷◌ c s) h = cc
