-- ===== src/Ledger/Money/Rounding.antt =====
-- The rounding of `amount` in ledger/services/common.py.
use holansl_backend.Base.{
  ℕ, zero, suc, ◌+◌, ◌*◌, ◌^◌, min, ◌≤◌, ◌<◌, ◌≡◌, refl, ◌⊎◌, inl, inr, true, Option, ltb, arith, ℤ,
  pos, negsuc, gain, loss, diff, ok,
}
use holansl_backend.Ledger.Data.{Currency}
use holansl_backend.Ledger.Money.{minor_unit, quantize, places, too_large, amount}

-- The nearest multiple of the unit; of two that are equally near, the larger.
abbrev pub IsNearest : ℕ → ℕ → ℕ → Type 0
IsNearest unit n r = ((k : ℕ) × (r ≡ k * unit)) × (n + n < r + r + unit) × (r + r ≤ n + n + unit)

quantize-IsNearest : (u n : ℕ) → IsNearest (minor_unit u) n (quantize (minor_unit u) n)
unfolding quantize
quantize-IsNearest zero n = ((_, refl), omega arith, omega arith)
quantize-IsNearest (suc zero) n = ((_, refl), omega arith, omega arith)
quantize-IsNearest (suc (suc zero)) n = ((_, refl), omega arith, omega arith)
quantize-IsNearest (suc (suc (suc zero))) n = ((_, refl), omega arith, omega arith)
quantize-IsNearest (suc (suc (suc (suc u)))) n = ((_, refl), omega arith, omega arith)

minor_unit_lem : (u : ℕ) → minor_unit u * 10 ^ min u 4 ≡ 10000
minor_unit_lem zero = refl
minor_unit_lem (suc zero) = refl
minor_unit_lem (suc (suc zero)) = refl
minor_unit_lem (suc (suc (suc zero))) = refl
minor_unit_lem (suc (suc (suc (suc u)))) =
    let four : min (suc (suc (suc (suc u)))) 4 ≡ 4 = omega arith in rw four refl

pub quantize-quantize :
    (u n : ℕ) → quantize (minor_unit u) (quantize (minor_unit u) n) ≡ quantize (minor_unit u) n
unfolding quantize
quantize-quantize zero n = omega arith
quantize-quantize (suc zero) n = omega arith
quantize-quantize (suc (suc zero)) n = omega arith
quantize-quantize (suc (suc (suc zero))) n = omega arith
quantize-quantize (suc (suc (suc (suc u)))) n = omega arith

quantize-zero : (u : ℕ) → quantize (minor_unit u) 0 ≡ 0
unfolding quantize
quantize-zero zero = omega arith
quantize-zero (suc zero) = omega arith
quantize-zero (suc (suc zero)) = omega arith
quantize-zero (suc (suc (suc zero))) = omega arith
quantize-zero (suc (suc (suc (suc u)))) = omega arith

one_side :
    (u : ℕ) (v : ℤ)
    → (quantize (minor_unit u) (gain v) ≡ 0) ⊎ (quantize (minor_unit u) (loss v) ≡ 0)
one_side u (pos n) = inr (quantize-zero u)
one_side u (negsuc n) = inl (quantize-zero u)

diff-parts : (m n : ℕ) → (m ≡ 0) ⊎ (n ≡ 0) → (gain (diff m n) ≡ m) × (loss (diff m n) ≡ n)
diff-parts m n (inl h) = ground arith
diff-parts m n (inr h) = ground arith

-- An amount is the given number rounded to the currency's decimal places, or to four of them: of its
-- size and on its side of zero it is the nearest multiple of the minor unit, a tie going away from zero. It
-- is below the limit in size, and rounding it again changes nothing.
pub amount_lem :
    (currency : Option Currency) (v r : ℤ)
    → amount currency v ≡ ok r
    → let unit = minor_unit (places currency) in
      (unit * 10 ^ min (places currency) 4 ≡ 10000)
      × IsNearest unit (gain v) (gain r)
      × IsNearest unit (loss v) (loss r)
      × (gain r + loss r < too_large)
      × (amount currency r ≡ ok r)
unfolding amount
amount_lem currency value r h =
    let u = places currency in
    let unit = minor_unit u in
    let up = quantize unit (gain value) in
    let down = quantize unit (loss value) in
    let made : r ≡ diff up down = ground arith in
    let small : ltb (up + down) too_large ≡ true = ground arith in
    let one = one_side u value in
    let (g, l) = diff-parts up down one in
    let again : amount currency (diff up down) ≡ ok (diff up down) =
      rw (amount, g, l, quantize-quantize u (gain value), quantize-quantize u (loss value), small)
        refl in
    rw made (
      minor_unit_lem u,
      rw g (quantize-IsNearest u (gain value)),
      rw l (quantize-IsNearest u (loss value)),
      rw (g, l) (ground (arith, small)),
      again,
    )
