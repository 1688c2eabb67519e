-- ===== src/Ledger/Money.antt =====
-- `amount` of ledger/services/common.py: rounding half up to the currency's minor unit, and the limit.
pub mod Rounding
mod Tests
use holansl_backend.Base.{
  ℕ, zero, suc, ◌+◌, ◌*◌, ◌^◌, ◌≤◌, ◌<◌, ◌≡◌, refl, Bool, Option, none, some, ltb, if◌then◌else◌,
  arith, ℤ, pos, negsuc, gain, loss, diff, Error, validation_error, Result, ok, err,
}
use Prim.Native.Nat.{◌/◌}
use holansl_backend.Ledger.Data.{Currency}

-- One minor unit in ten-thousandths; a constraint keeps `minor_units` within four.
abbrev pub minor_unit : ℕ → ℕ
minor_unit zero = 10000
minor_unit (suc zero) = 1000
minor_unit (suc (suc zero)) = 100
minor_unit (suc (suc (suc zero))) = 10
minor_unit _ = 1

-- `quantize(..., rounding=ROUND_HALF_UP)` of a magnitude: to the nearest multiple, a tie away from zero.
unfoldable pub quantize : ℕ → ℕ → ℕ
quantize unit n = (n + n + unit) / (unit + unit) * unit

-- 10^20 in ten-thousandths
abbrev pub too_large : ℕ
too_large = 10 ^ 24

abbrev pub places : Option Currency → ℕ
places none = 4
places (some c) = c.minor_units

-- The argument is a decimal with at most four places.
unfoldable pub amount : Option Currency → ℤ → Result ℤ
unfolding quantize
amount currency value =
    let unit = minor_unit (places currency) in
    let up = quantize unit (gain value) in
    let down = quantize unit (loss value) in
    if ltb (up + down) too_large
    then ok (diff up down)
    else err (validation_error "" "Amount is too large.")
