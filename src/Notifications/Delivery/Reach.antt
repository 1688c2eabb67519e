-- ===== src/Notifications/Delivery/Reach.antt =====
-- The delivery table under every interleaving: workers that claim and mark, the release of stale
-- locks, operators that retry and callers that cancel, in any order and at any times.
use holansl_backend.Base.{
  ℕ, ◌≡◌, Bool, true, false, Option, some, arith, is_some, inl, inr, Option-cases, Bool-cases,
  String, All, All-update, All-find, ◌==◌,
}
use holansl_backend.Notifications.Data.{
  Delivery, Store, Settings, ProviderResult, Failure, is_processing, is_failed, is_delivered,
  is_read, is_deliverable, is_retryable,
}
use holansl_backend.Notifications.Delivery.{
  find_delivery, claim, expire, claim_locked, claim_delivery, succeed, mark_success, fail,
  mark_failure,
}
use holansl_backend.Notifications.Delivery.Outbox.{
  release, release_stale_processing_deliveries, retry, retry_delivery, is_stale,
}
use holansl_backend.Notifications.Delivery.Scheduling.{cancel, cancel_scheduled_notification}

-- A row is locked exactly while it is PROCESSING, carries a failure time exactly while it is FAILED,
-- and has the times that its status speaks of.
pub record IsSound (d : Delivery) : Type 0 where
  pub locked : is_some d.locked_at ≡ is_processing d.status
  pub failed : is_some d.failed_at ≡ is_failed d.status
  pub delivered : is_delivered d.status ≡ true → is_some d.delivered_at ≡ true
  pub read : is_read d.status ≡ true → is_some d.read_at ≡ true

abbrev pub AllSound : Store → Type 0
AllSound s = All IsSound s.deliveries

expire-IsSound :
    (now : ℕ) (d : Delivery) → is_deliverable d.status ≡ true → IsSound d → IsSound (expire now d)
unfolding expire
expire-IsSound now d h v = ground arith

claim-IsSound :
    (cfg : Settings) (now : ℕ) (d : Delivery)
    → is_deliverable d.status ≡ true
    → IsSound d
    → IsSound (claim cfg now d)
unfolding claim
claim-IsSound cfg now d h v = ground arith

succeed-IsSound :
    (now : ℕ) (r : ProviderResult) (d : Delivery) → IsSound d → IsSound (succeed now r d)
unfolding succeed
succeed-IsSound now r d v = ground arith

fail-IsSound :
    (cfg : Settings) (now : ℕ) (f : Failure) (permanent : Bool) (d : Delivery)
    → IsSound d
    → IsSound (fail cfg now f permanent d)
unfolding fail
fail-IsSound cfg now f permanent d v = ground arith

release-IsSound :
    (cfg : Settings) (now : ℕ) (d : Delivery)
    → is_stale cfg now d ≡ true
    → IsSound d
    → IsSound (release now d)
unfolding release
release-IsSound cfg now d h v = ground arith

retry-IsSound : (now : ℕ) (d : Delivery) → IsSound d → IsSound (retry now d)
unfolding retry
retry-IsSound now d v = ground arith

cancel-IsSound :
    (now : ℕ) (reason : String) (d : Delivery)
    → is_failed d.status ≡ false
    → IsSound d
    → IsSound (cancel now reason d)
unfolding cancel
cancel-IsSound now reason d h v = ground arith

claim_locked-AllSound :
    (cfg : Settings) (now : ℕ) (d : Delivery) (s : Store)
    → IsSound d
    → AllSound s
    → AllSound (claim_locked cfg now d s).1
unfolding claim_locked
claim_locked-AllSound cfg now d s v h = elim (Bool-cases (is_deliverable d.status)) [
  | inl e ↦ ground (
    arith,
    All-update IsSound (λ x. x.id == d.id) (λ _. expire now d) s.deliveries
        (λ x _ _. expire-IsSound now d e v) h,
    All-update IsSound (λ x. x.id == d.id) (λ _. claim cfg now d) s.deliveries
        (λ x _ _. claim-IsSound cfg now d e v) h,
  )
  | inr e ↦ rw (claim_locked, e) h
]

claim_delivery-AllSound :
    (cfg : Settings) (now id : ℕ) (s : Store)
    → AllSound s
    → AllSound (claim_delivery cfg now id s).1
unfolding claim_delivery
claim_delivery-AllSound cfg now id s h = elim (Option-cases (find_delivery id s)) [
  | inl e ↦ rw (claim_delivery, e) h
  | inr (d, e) ↦
      rw (claim_delivery, e)
        (claim_locked-AllSound cfg now d s (All-find IsSound (λ x. x.id == id) s.deliveries h e) h)
]

mark_failure-AllSound :
    (cfg : Settings) (now id : ℕ) (f : Failure) (permanent : Bool) (s s' : Store)
    → mark_failure cfg now id f permanent s ≡ some s'
    → AllSound s
    → AllSound s'
unfolding mark_failure
mark_failure-AllSound cfg now id f permanent s s' e h = elim (Option-cases (find_delivery id s)) [
  | inl missing ↦ ground arith
  | inr (d, found) ↦
      let v = All-find IsSound (λ x. x.id == id) s.deliveries h found in
      ground (
        arith,
        All-update IsSound (λ x. x.id == id) (λ _. fail cfg now f permanent d) s.deliveries
            (λ x _ _. fail-IsSound cfg now f permanent d v) h,
      )
]

-- What can happen to the tables between two looks at them. A worker's marks may come at any time
-- after its claim, whatever has happened to the row in between; a retry writes what it decided on the
-- copy `d` that it had read.
pub data Step (cfg : Settings) (s : Store) : Store → Type 0 where
  claims : (now id : ℕ) → Step cfg s (claim_delivery cfg now id s).1
  succeeds : (now id : ℕ) (r : ProviderResult) → Step cfg s (mark_success now id r s)
  fails :
      (now id : ℕ) (f : Failure) (permanent : Bool) {s' : Store}
      → mark_failure cfg now id f permanent s ≡ some s'
      → Step cfg s s'
  releases : (now : ℕ) → Step cfg s (release_stale_processing_deliveries cfg now s)
  retries : (now : ℕ) (d : Delivery) → Step cfg s (retry_delivery now d s).1
  cancels :
      (now id : ℕ) (actor : Option ℕ) (reason : String)
      → Step cfg s (cancel_scheduled_notification now id actor reason s)

pub data Reach (cfg : Settings) (s : Store) : Store → Type 0 where
  here : Reach cfg s s
  next : {t u : Store} → Reach cfg s t → Step cfg t u → Reach cfg s u

Step-AllSound : (cfg : Settings) (s : Store) {t : Store} → Step cfg s t → AllSound s → AllSound t
Step-AllSound cfg s (claims now id) h = claim_delivery-AllSound cfg now id s h
Step-AllSound cfg s (succeeds now id r) h =
    unfold mark_success in
    All-update IsSound _ _ s.deliveries (λ x _ v. succeed-IsSound now r x v) h
Step-AllSound cfg s (fails now id f permanent {s' = t} e) h =
    mark_failure-AllSound cfg now id f permanent s t e h
Step-AllSound cfg s (releases now) h =
    unfold release_stale_processing_deliveries in
    All-update IsSound _ _ s.deliveries (λ x e v. release-IsSound cfg now x e v) h
Step-AllSound cfg s (retries now d) h =
    unfold retry_delivery in
    elim (Bool-cases (is_retryable d.status)) [
      | inl e ↦ rw e (All-update IsSound _ _ s.deliveries (λ x _ v. retry-IsSound now x v) h)
      | inr e ↦ rw e h
    ]
Step-AllSound cfg s (cancels now id actor reason) h =
    unfold cancel_scheduled_notification in
    All-update IsSound _ _ s.deliveries (λ x e v. cancel-IsSound now reason x (ground arith) v) h

-- In every table that workers, releases, retries and cancellations reach from a sound one, in any
-- interleaving, each row is locked exactly while it is PROCESSING, has a failure time exactly while it
-- is FAILED, a delivery time if it is DELIVERED or READ, and a reading time if it is READ.
pub Reach-AllSound : (cfg : Settings) {s t : Store} → AllSound s → Reach cfg s t → AllSound t
Reach-AllSound cfg h here = h
Reach-AllSound cfg h (next {t = t} r st) = Step-AllSound cfg t st (Reach-AllSound cfg h r)
