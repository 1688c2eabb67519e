-- ===== src/Notifications/Delivery/Outbox.antt =====
-- The outbox pass of notifications/services/delivery.py: stale locks, the due rows in order, the
-- loop over them with its counters, and the operator's retry.
pub mod Queue
use holansl_backend.Base.{
  ℕ, ◌+◌, ◌-◌, Bool, true, false, not, ◌&&◌, ◌||◌, Option, none, some, List, [], ◌∷◌, map, ltb, leb,
  ◌==◌, if◌then◌else◌, update, select, take, length,
}
use holansl_backend.Notifications.Data.{
  DeliveryStatus, Delivery, Store, Settings, is_processing, is_deliverable, is_retryable,
}
use holansl_backend.Notifications.Delivery.{
  seconds, expires_at, is_expired, update_delivery, Attempt, dispatch_delivery,
}

-- A PROCESSING row whose lock is older than the timeout.
abbrev pub is_stale : Settings → ℕ → Delivery → Bool
is_stale cfg now d =
    is_processing d.status
    && elim d.locked_at [ none ↦ false | some t ↦ ltb (t + seconds cfg.lock_timeout_seconds) now ]

unfoldable pub release : ℕ → Delivery → Delivery
release now d = record d {
  status = DeliveryStatus.retrying;
  next_attempt_at = now;
  locked_at = none;
  locked_by = "";
  error_code = "stale_processing_lock";
  error_message = "A stale processing lock was released.";
  updated_at = now;
}

unfoldable pub release_stale_processing_deliveries : Settings → ℕ → Store → Store
unfolding release
release_stale_processing_deliveries cfg now s = record s {
  deliveries = update (is_stale cfg now) (release now) s.deliveries;
}

-- The filter of `get_due_delivery_ids`.
abbrev pub is_due : ℕ → Store → Delivery → Bool
is_due now s d =
    is_deliverable d.status
    && leb d.scheduled_at now
    && leb d.next_attempt_at now
    && not (is_expired now (expires_at d s))

-- `order_by("next_attempt_at", "created_at")`
abbrev pub is_before : Delivery → Delivery → Bool
is_before a b =
    ltb a.next_attempt_at b.next_attempt_at
    || a.next_attempt_at == b.next_attempt_at && leb a.created_at b.created_at

unfoldable pub insert_ordered : Delivery → List Delivery → List Delivery
insert_ordered d [] = d ∷ []
insert_ordered d (e ∷ es) = if is_before d e then d ∷ e ∷ es else e ∷ insert_ordered d es

unfoldable pub order : List Delivery → List Delivery
unfolding insert_ordered
order [] = []
order (d ∷ ds) = insert_ordered d (order ds)

unfoldable pub get_due_delivery_ids : ℕ → ℕ → Store → List ℕ
unfolding order
get_due_delivery_ids batch_size now s =
    map (λ d. d.id) (take batch_size (order (select (is_due now s) s.deliveries)))

-- The counters of the loop of `process_due_deliveries`.
pub record Summary : Type 0 where
  pub selected : ℕ
  pub processed : ℕ
  pub succeeded : ℕ
  pub failed_or_deferred : ℕ

-- The loop over the selected ids; the surroundings of the call number `processed` are `env processed`.
unfoldable pub process_ids :
    Settings → (ℕ → Attempt) → List ℕ → ℕ → ℕ → Store → Option (ℕ × ℕ × Store)
unfolding dispatch_delivery
process_ids cfg env [] processed succeeded s = some (processed, succeeded, s)
process_ids cfg env (id ∷ ids) processed succeeded s =
    elim (dispatch_delivery cfg (env processed) id s) [
      | none ↦ none
      | some (done, s') ↦
          process_ids cfg env ids (processed + 1) (if done then succeeded + 1 else succeeded) s'
    ]

-- `batch_size or settings.NOTIFICATION_PROCESSING_BATCH_SIZE`
abbrev pub effective_batch_size : Settings → Option ℕ → ℕ
effective_batch_size cfg none = cfg.processing_batch_size
effective_batch_size cfg (some n) = if n == 0 then cfg.processing_batch_size else n

unfoldable pub process_due_deliveries :
    Settings
    → (released_at selected_at : ℕ) → (ℕ → Attempt)
    → Option ℕ
    → Store
    → Option (Summary × Store)
unfolding release_stale_processing_deliveries get_due_delivery_ids process_ids
process_due_deliveries cfg released_at selected_at env batch_size s =
    let s₁ = release_stale_processing_deliveries cfg released_at s in
    let ids = get_due_delivery_ids (effective_batch_size cfg batch_size) selected_at s₁ in
    elim (process_ids cfg env ids 0 0 s₁) [
      | none ↦ none
      | some (processed, succeeded, s₂) ↦ some (
        record {
          selected = length ids;
          processed = processed;
          succeeded = succeeded;
          failed_or_deferred = processed - succeeded;
        },
        s₂,
      )
    ]

unfoldable pub retry : ℕ → Delivery → Delivery
retry now d = record d {
  status = DeliveryStatus.pending;
  next_attempt_at = now;
  failed_at = none;
  error_code = "";
  error_message = "";
  locked_at = none;
  locked_by = "";
  updated_at = now;
}

-- On the row as the caller read it; its scheduling of the inline pass is not part of the store.
unfoldable pub retry_delivery : ℕ → Delivery → Store → Delivery × Store
unfolding retry
retry_delivery now d s =
    if is_retryable d.status then (retry now d, update_delivery d.id (retry now) s) else (d, s)
