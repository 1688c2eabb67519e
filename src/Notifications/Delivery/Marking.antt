-- ===== src/Notifications/Delivery/Marking.antt =====
-- `_backoff_seconds`, `_mark_failure` and `_mark_success` of notifications/services/delivery.py.
use holansl_backend.Base.{
  ℕ, ◌+◌, ◌-◌, ◌≤◌, ◌<◌, ◌≡◌, refl, Bool, true, false, none, some, arith, min, ◌⊎◌,
}
use holansl_backend.Notifications.Data.{DeliveryStatus, Delivery, Store, Settings, Failure}
use holansl_backend.Notifications.Delivery.{
  seconds, find_delivery, update_delivery, backoff_seconds, fail, mark_failure,
}
use holansl_backend.Notifications.Delivery.Claiming.{find-id, find-update}
use native.Mathlib.Nat.{pow-le-pow_right, one-le-pow, mul-le-mul_left}

-- The backoff never passes the maximum, never falls when attempts are added, and is at least the
-- base delay unless the maximum is smaller.
pub backoff_seconds_bounds :
    (cfg : Settings) (a b : ℕ)
    → a ≤ b
    → (backoff_seconds cfg a ≤ backoff_seconds cfg b)
      × (backoff_seconds cfg b ≤ cfg.retry_max_seconds)
      × (min cfg.retry_base_seconds cfg.retry_max_seconds ≤ backoff_seconds cfg a)
unfolding backoff_seconds
backoff_seconds_bounds cfg a b h =
    let steeper =
      mul-le-mul_left cfg.retry_base_seconds
        (pow-le-pow_right {n = 2} (omega arith) {i = a - 1} {j = b - 1} (omega arith)) in
    let grown = mul-le-mul_left cfg.retry_base_seconds (one-le-pow (a - 1) 2 (omega arith)) in
    (omega arith, omega arith, omega arith)

-- What a failure at `now` makes of the row `d`.
abbrev pub MarkedFailure : Settings → ℕ → ℕ → Failure → Bool → Store → Delivery → Type 0
MarkedFailure cfg now id failure permanent s d =
    (s' : Store) × (e : Delivery) × (mark_failure cfg now id failure permanent s ≡ some s')
    × (find_delivery id s' ≡ some e)
    × (e.locked_at ≡ none)
    × (e.attempt_count ≡ d.attempt_count)
    × ((permanent ≡ false)
          × (d.attempt_count < d.max_attempts)
          × (e.status ≡ DeliveryStatus.retrying)
          × (e.failed_at ≡ none)
          × (e.next_attempt_at ≡ now + seconds (backoff_seconds cfg d.attempt_count))
        ⊎ ((permanent ≡ true) ⊎ (d.max_attempts ≤ d.attempt_count))
          × (e.status ≡ DeliveryStatus.failed)
          × (e.failed_at ≡ some now)
          × (e.next_attempt_at ≡ d.next_attempt_at))

-- A failed attempt on a stored row: it is to be retried, after the backoff, if the failure is not
-- permanent and attempts are left, and is FAILED from now on otherwise; the lock is given up, and the
-- attempt count stays.
pub mark_failure_lem :
    (cfg : Settings) (now id : ℕ) (failure : Failure) (permanent : Bool) (s : Store) {d : Delivery}
    → find_delivery id s ≡ some d
    → MarkedFailure cfg now id failure permanent s d
unfolding mark_failure fail
mark_failure_lem cfg now id failure permanent s {d} h = (
  update_delivery id (λ _. fail cfg now failure permanent d) s,
  fail cfg now failure permanent d,
  rw (h, mark_failure),
  find-update id (λ _. fail cfg now failure permanent d) s.deliveries h
      (find-id id s.deliveries d h),
  refl,
  refl,
  ground arith,
)
