-- ===== src/Notifications/Delivery/Claiming.antt =====
-- `_claim_delivery` of notifications/services/delivery.py: what a claim requires and what it writes.
use holansl_backend.Base.{
  ℕ, ◌+◌, ◌≤◌, ◌≡◌, inl, inr, true, false, some, arith, find, update, ◌==◌, List, [], ◌∷◌,
  Option-cases, Bool-cases,
}
use holansl_backend.Notifications.Data.{DeliveryStatus, Delivery, Store, Settings, is_deliverable}
use holansl_backend.Notifications.Delivery.{
  find_delivery, expires_at, is_expired, claim, claim_locked, claim_delivery,
}

-- A row that was found has the id that was asked for.
pub find-id :
    (id : ℕ) (ds : List Delivery) (d : Delivery) → find (λ x. x.id == id) ds ≡ some d → d.id ≡ id
find-id id [] d e = cc
find-id id (x ∷ ds) d e = ground (arith, find-id id ds d)

-- Writing a row by its id and reading it again gives the new row.
pub find-update :
    (id : ℕ) (f : Delivery → Delivery) (ds : List Delivery) {d : Delivery}
    → find (λ x. x.id == id) ds ≡ some d
    → (f d).id ≡ id
    → find (λ x. x.id == id) (update (λ x. x.id == id) f ds) ≡ some (f d)
find-update id f [] e k = cc
find-update id f (x ∷ ds) e k = elim (Bool-cases (x.id == id)) [
  | inl t ↦ ground (arith, t)
  | inr n ↦ rw (n, n) (find-update id f ds (rw n at e) k)
]

-- How a claim that gave out `c` at `now` found the tables.
abbrev pub Claimed : Settings → ℕ → ℕ → Store → Delivery → Type 0
Claimed cfg now id s c =
    (d : Delivery) × (find_delivery id s ≡ some d)
    × (is_deliverable d.status ≡ true)
    × (is_expired now (expires_at d s) ≡ false)
    × (d.scheduled_at ≤ now)
    × (d.next_attempt_at ≤ now)
    × (c.attempt_count ≡ d.attempt_count + 1)
    × (c.status ≡ DeliveryStatus.processing)
    × (c.locked_at ≡ some now)
    × (find_delivery id (claim_delivery cfg now id s).1 ≡ some c)

-- A delivery is claimed only if its stored row is PENDING or RETRYING, its notification has not
-- expired and both of its times have come; the claim counts one attempt more, sets the lock, and is
-- what the table then holds.
pub claim_delivery_lem :
    (cfg : Settings) (now id : ℕ) (s : Store) {c : Delivery}
    → (claim_delivery cfg now id s).0 ≡ some c
    → Claimed cfg now id s c
unfolding claim_delivery claim_locked claim
claim_delivery_lem cfg now id s h = elim (Option-cases (find_delivery id s)) [
  | inl e ↦ ground arith
  | inr (d, e) ↦ (
    d,
    e,
    ground arith,
    ground arith,
    ground arith,
    ground arith,
    ground arith,
    ground arith,
    ground arith,
    ground
        (arith, find-id id s.deliveries d e, find-update id (λ _. claim cfg now d) s.deliveries e),
  )
]
