-- ===== src/Ledger/Money/Tests.antt =====
-- Ties go away from zero.
use holansl_backend.Base.{◌*◌, ◌^◌, ◌<◌, ◌≡◌, refl, some, true, negsuc, ok}
use holansl_backend.Ledger.Data.{Currency}
use holansl_backend.Ledger.Money.{too_large, amount}
use holansl_backend.Ledger.Money.Rounding.{IsNearest, amount_lem}

abbrev naira : Currency
naira = record { id = 1; minor_units = 2; active = true }

-- -0.0050 is rounded to -0.01
away : amount (some naira) (negsuc 49) ≡ ok (negsuc 99)
unfolding amount
away = refl

amount_lem_example :
    (100 * 10 ^ 2 ≡ 10000)
    × IsNearest 100 0 0
    × IsNearest 100 50 100
    × (100 < too_large)
    × (amount (some naira) (negsuc 99) ≡ ok (negsuc 99))
amount_lem_example = amount_lem (some naira) (negsuc 49) (negsuc 99) away
