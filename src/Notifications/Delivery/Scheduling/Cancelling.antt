-- ===== src/Notifications/Delivery/Scheduling/Cancelling.antt =====
-- `cancel_scheduled_notification` next to the claims and marks of notifications/services/delivery.py.
use holansl_backend.Base.{
  ℕ, ◌≤◌, ◌≡◌, refl, sym, subst, Bool, true, Option, none, some, arith, inl, inr, Option-cases,
  Bool-cases, List, [], ◌∷◌, String, find, update, ◌==◌, ◌&&◌, if◌then◌else◌, is_empty,
}
use holansl_backend.Notifications.Data.{
  DeliveryStatus, Notification, Delivery, Store, Settings, ProviderResult, is_sent,
}
use holansl_backend.Notifications.Delivery.{
  find_delivery, update_delivery, expires_at, is_expired, claim_delivery, succeed, mark_success,
}
use holansl_backend.Notifications.Delivery.Claiming.{find-id, find-update, claim_delivery_lem}
use holansl_backend.Notifications.Delivery.Scheduling.{
  is_cancellable, cancel, expire_notification, cancel_scheduled_notification,
}
use holansl_backend.Notifications.Delivery.Outbox.{retry, retry_delivery}
use holansl_backend.Notifications.Data.{is_retryable}

-- A conditional rewrite of the rows that keeps their ids keeps what is found, rewritten.
pub find-update_where :
    (id : ℕ) (p : Delivery → Bool) (f : Delivery → Delivery)
    → ((x : Delivery) → (f x).id ≡ x.id)
    → (ds : List Delivery) {d : Delivery} → find (λ x. x.id == id) ds ≡ some d
    → find (λ x. x.id == id) (update p f ds) ≡ some (if p d then f d else d)
find-update_where id p f k [] e = cc
find-update_where id p f k (x ∷ ds) {d} e = elim (Bool-cases (x.id == id)) [
  | inl t ↦ ground (arith, t, k x)
  | inr n ↦ elim (Bool-cases (p x)) [
    | inl y ↦ rw (y, k x, n) (find-update_where id p f k ds (rw n at e))
    | inr y ↦ rw (y, n) (find-update_where id p f k ds (rw n at e))
  ]
]

cancelled_expiry :
    (now n : ℕ) (actor : Option ℕ) (reason : String) (ns : List Notification) {r : Notification}
    → find (λ x. x.id == n) ns ≡ some r
    → find (λ x. x.id == n) (update (λ x. x.id == n) (expire_notification now actor reason) ns)
      ≡ some (expire_notification now actor reason r)
unfolding expire_notification
cancelled_expiry now n actor reason [] h = cc
cancelled_expiry now n actor reason (x ∷ ns) h = elim (Bool-cases (x.id == n)) [
  | inl t ↦ ground (arith, t)
  | inr y ↦ rw (y, y) (cancelled_expiry now n actor reason ns (rw y at h))
]

-- A delivery whose notification has expired is never claimed.
pub claim_expired :
    (cfg : Settings) (now id : ℕ) (s : Store) {d : Delivery}
    → find_delivery id s ≡ some d
    → is_expired now (expires_at d s) ≡ true
    → (claim_delivery cfg now id s).0 ≡ none
claim_expired cfg now id s {d} h e = elim (Option-cases (claim_delivery cfg now id s).0) [
  | inl r ↦ r
  | inr (c, r) ↦
      let (d', found, _, fresh, _, _, _, _, _, _) = claim_delivery_lem cfg now id s r in
      ground arith
]

expired_at :
    (now t : ℕ) (x : Delivery) (s : Store) {n : ℕ} {e : Notification}
    → x.notification ≡ n
    → find (λ m. m.id == n) s.notifications ≡ some e
    → e.expires_at ≡ some t
    → t ≤ now
    → is_expired now (expires_at x s) ≡ true
expired_at now t x s {n} {e} own found at le =
    let same = subst (λ k. find (λ m. m.id == k) s.notifications ≡ some e) (sym own) found in
    ground (arith, same, at)

-- Once a notification is cancelled, none of its deliveries is claimed again at that time or later,
-- whatever their statuses were, and not even when an operator retries a delivery in between.
pub cancel_retry_claim :
    (cfg : Settings) (t u now n id : ℕ) (actor : Option ℕ) (reason : String) (s : Store)
    (r : Notification) (d copy : Delivery)
    → find (λ x. x.id == n) s.notifications ≡ some r
    → find_delivery id s ≡ some d
    → d.notification ≡ n
    → t ≤ now
    → let s' = cancel_scheduled_notification t n actor reason s in
      ((claim_delivery cfg now id s').0 ≡ none)
      × ((claim_delivery cfg now id (retry_delivery u copy s').1).0 ≡ none)
unfolding cancel_scheduled_notification retry_delivery cancel retry expire_notification
cancel_retry_claim cfg t u now n id actor reason s r d copy hn hd own le =
    let s' = cancel_scheduled_notification t n actor reason s in
    let gone = cancelled_expiry t n actor reason s.notifications hn in
    let p = λ (x : Delivery). x.notification == n && is_cancellable x in
    let found = find-update_where id p (cancel t reason) (λ x. refl) s.deliveries hd in
    let d' = if p d then cancel t reason d else d in
    let own' : d'.notification ≡ n = ground arith in
    let again =
      find-update_where id (λ x. x.id == copy.id) (retry u) (λ x. refl) s'.deliveries found in
    let d'' = if d'.id == copy.id then retry u d' else d' in
    let s'' = update_delivery copy.id (retry u) s' in
    let own'' : d''.notification ≡ n = ground arith in
    (
      claim_expired cfg now id s' found (expired_at now t d' s' own' gone refl le),
      elim (Bool-cases (is_retryable copy.status)) [
        | inl y ↦
            rw (retry_delivery, y)
              (claim_expired cfg now id s'' again (expired_at now t d'' s'' own'' gone refl le))
        | inr y ↦
            rw (retry_delivery, y)
              (claim_expired cfg now id s' found (expired_at now t d' s' own' gone refl le))
      ],
    )

-- The row after a cancellation for `reason`, and after the success that a worker marks later.
abbrev pub Overwritten : Store → ℕ → ℕ → String → ProviderResult → Type 0
Overwritten s' now id reason result =
    (c : Delivery) × (e : Delivery) × (find_delivery id s' ≡ some c)
    × (c.status ≡ DeliveryStatus.cancelled)
    × (c.error_code ≡ "scheduled_notification_cancelled")
    × (c.error_message
        ≡ (if is_empty reason then "The scheduled notification was cancelled." else reason))
    × (find_delivery id (mark_success now id result s') ≡ some e)
    × (is_sent e.status ≡ true)
    × (e.error_code ≡ "")
    × (e.error_message ≡ "")
    × (e.sent_at ≡ some now)

-- A worker that had claimed the delivery before the cancellation still marks it. The cancelled row has the
-- status CANCELLED with the code and the message of the cancellation; after the mark it is SENT, DELIVERED
-- or READ, sent at the time of the mark, and its error code and error message are empty.
pub mark_success-cancel :
    (t now n id : ℕ) (actor : Option ℕ) (reason : String) (result : ProviderResult) (s : Store)
    {d : Delivery}
    → find_delivery id s ≡ some d
    → d.status ≡ DeliveryStatus.processing
    → d.notification ≡ n
    → Overwritten (cancel_scheduled_notification t n actor reason s) now id reason result
unfolding cancel_scheduled_notification cancel mark_success succeed
mark_success-cancel t now n id actor reason result s {d} h p own =
    let s' = cancel_scheduled_notification t n actor reason s in
    let found =
      find-update_where id (λ x. x.notification == n && is_cancellable x) (cancel t reason)
        (λ x. refl) s.deliveries h in
    let c = cancel t reason d in
    (
      c,
      succeed now result c,
      ground (arith, found),
      refl,
      refl,
      refl,
      find-update id (succeed now result) s'.deliveries {d = c} (ground (arith, found))
          (find-id id s.deliveries d h),
      ground arith,
      refl,
      refl,
      refl,
    )
