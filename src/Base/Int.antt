-- ===== src/Base/Int.antt =====
-- Signed numbers over the native ℕ, for differences of amounts that may fall below zero.
use Prim.Native.Nat.{ℕ, suc, ◌+◌, ◌-◌, ◌≤◌}
use mathlib.Core.Path.{◌≡◌}
use mathlib.Core.Bool.{Bool}
use mathlib.Core.List.{List, [], ◌∷◌}
use native.Mathlib.Omega.{arith}
use holansl_backend.Base.Tests.{ltb, leb, if◌then◌else◌}

-- `negsuc n` stands for -(n + 1).
pub data ℤ : Type 0 where
  pos negsuc : ℕ → ℤ

abbrev pub gain : ℤ → ℕ
gain (pos n) = n
gain (negsuc n) = 0

abbrev pub loss : ℤ → ℕ
loss (pos n) = 0
loss (negsuc n) = suc n

-- The difference of two numbers.
abbrev pub diff : ℕ → ℕ → ℤ
diff m n = if leb n m then pos (m - n) else negsuc (n - m - 1)

infixl 65 ◌+ℤ◌ ◌-ℤ◌
infix 50 ◌≤ℤ◌
unfoldable pub ◌+ℤ◌ : ℤ → ℤ → ℤ
x +ℤ y = diff (gain x + gain y) (loss x + loss y)

unfoldable pub ◌-ℤ◌ : ℤ → ℤ → ℤ
x -ℤ y = diff (gain x + loss y) (loss x + gain y)

abbrev pub ◌≤ℤ◌ : ℤ → ℤ → Type 0
x ≤ℤ y = gain x + loss y ≤ gain y + loss x

abbrev pub leb_ℤ : ℤ → ℤ → Bool
leb_ℤ x y = leb (gain x + loss y) (gain y + loss x)

abbrev pub ltb_ℤ : ℤ → ℤ → Bool
ltb_ℤ x y = ltb (gain x + loss y) (gain y + loss x)

abbrev pub min_ℤ : ℤ → ℤ → ℤ
min_ℤ x y = if leb_ℤ x y then x else y

-- `sum(xs, Decimal(0))`
unfoldable pub sum_ℤ : List ℤ → ℤ
sum_ℤ [] = pos 0
sum_ℤ (x ∷ xs) = x +ℤ sum_ℤ xs

pub +ℤ-parts : (x y : ℤ) → gain (x +ℤ y) + loss x + loss y ≡ loss (x +ℤ y) + gain x + gain y
unfolding ◌+ℤ◌
+ℤ-parts x y = ground arith

pub -ℤ-parts : (x y : ℤ) → gain (x -ℤ y) + loss x + gain y ≡ loss (x -ℤ y) + gain x + loss y
unfolding ◌-ℤ◌
-ℤ-parts x y = ground arith

pub ℤ-ext : (x y : ℤ) → gain x + loss y ≡ gain y + loss x → x ≡ y
ℤ-ext x y h = ground arith

pub +ℤ-zero : (x : ℤ) → x +ℤ pos 0 ≡ x
unfolding ◌+ℤ◌
+ℤ-zero x = ground (arith, ℤ-ext (x +ℤ pos 0) x)

pub zero-+ℤ : (x : ℤ) → pos 0 +ℤ x ≡ x
unfolding ◌+ℤ◌
zero-+ℤ x = ground (arith, ℤ-ext (pos 0 +ℤ x) x)

pub +ℤ_assoc : (x y z : ℤ) → x +ℤ (y +ℤ z) ≡ x +ℤ y +ℤ z
+ℤ_assoc x y z = ground (
  arith,
  ℤ-ext (x +ℤ (y +ℤ z)) (x +ℤ y +ℤ z),
  +ℤ-parts x y,
  +ℤ-parts y z,
  +ℤ-parts x (y +ℤ z),
  +ℤ-parts (x +ℤ y) z,
)

pub -ℤ-+ℤ : (x y z : ℤ) → x -ℤ (y +ℤ z) ≡ x -ℤ y -ℤ z
-ℤ-+ℤ x y z = ground (
  arith,
  ℤ-ext (x -ℤ (y +ℤ z)) (x -ℤ y -ℤ z),
  -ℤ-parts x y,
  +ℤ-parts y z,
  -ℤ-parts x (y +ℤ z),
  -ℤ-parts (x -ℤ y) z,
)

pub -ℤ_comm : (x y z : ℤ) → x -ℤ y -ℤ z ≡ x -ℤ z -ℤ y
-ℤ_comm x y z = ground (
  arith,
  ℤ-ext (x -ℤ y -ℤ z) (x -ℤ z -ℤ y),
  -ℤ-parts x y,
  -ℤ-parts x z,
  -ℤ-parts (x -ℤ y) z,
  -ℤ-parts (x -ℤ z) y,
)

pub ruleset int_laws = (arith, +ℤ-parts, -ℤ-parts, ℤ-ext)
