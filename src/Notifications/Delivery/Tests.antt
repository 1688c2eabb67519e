-- ===== src/Notifications/Delivery/Tests.antt =====
-- A small outbox, runs of the dispatcher on it, and the theorems at these inputs.
use holansl_backend.Base.{
  ℕ, ◌+◌, ◌*◌, ◌==◌, if◌then◌else◌, ◌≤◌, ◌≡◌, refl, false, is_some, Option, none, some, arith, [],
  ◌∷◌,
}
use holansl_backend.Notifications.Data.{
  NotificationChannel, DeliveryStatus, Notification, Delivery, Store, Settings, ProviderResult,
  Failure, success, temporary_error,
}
use holansl_backend.Notifications.Delivery.{
  backoff_seconds, claim_locked, claim_delivery, mark_success, Attempt, dispatch_delivery,
}
use holansl_backend.Notifications.Delivery.Claiming.{Claimed, claim_delivery_lem}
use holansl_backend.Notifications.Delivery.Marking.{
  backoff_seconds_bounds, MarkedFailure, mark_failure_lem,
}
use holansl_backend.Notifications.Delivery.Dispatching.{Dispatched, dispatch_delivery_lem}
use holansl_backend.Notifications.Delivery.Outbox.{
  is_due, retry_delivery, get_due_delivery_ids, Summary, process_due_deliveries,
}
use holansl_backend.Notifications.Delivery.Outbox.Queue.{
  Selected, Processed, Released, Reclaimed, get_due_delivery_ids_lem, process_due_deliveries_lem,
  release_stale_lem, release_reclaims, is_due-claim_locked,
}
use holansl_backend.Notifications.Delivery.Scheduling.{cancel_scheduled_notification}
use holansl_backend.Notifications.Delivery.Scheduling.Cancelling.{
  Overwritten, cancel_retry_claim, mark_success-cancel,
}
use holansl_backend.Notifications.Delivery.Reach.{
  AllSound, here, next, claims, succeeds, Reach-AllSound,
}

abbrev cfg : Settings
cfg = record {
  retry_base_seconds = 60;
  retry_max_seconds = 3600;
  lock_timeout_seconds = 900;
  processing_batch_size = 100;
  worker_name = "worker";
}

abbrev row : ℕ → NotificationChannel → DeliveryStatus → ℕ → Option ℕ → Delivery
row id channel status attempts locked = record {
  id = id;
  notification = 1;
  channel = channel;
  status = status;
  provider_message_id = "";
  attempt_count = attempts;
  max_attempts = 3;
  scheduled_at = 10 * id;
  next_attempt_at = 10 * id;
  last_attempt_at = none;
  locked_at = locked;
  locked_by = "";
  sent_at = none;
  delivered_at = none;
  read_at = none;
  failed_at = none;
  error_code = "";
  error_message = "";
  response_metadata = [];
  created_at = 0;
  updated_at = 0;
}

abbrev event : Notification
event = record {
  id = 1;
  expires_at = none;
  metadata = record {
    cancelled_at = none;
    cancelled_by_id = none;
    cancellation_reason = "";
    others = [];
  };
  updated_at = 0;
}

-- Row 7 waits to be sent by mail, row 3 is a retry, and row 5 was left locked after its last attempt.
abbrev outbox : Store
outbox = record {
  notifications = event ∷ [];
  deliveries =
      row 7 NotificationChannel.email DeliveryStatus.pending 0 none
      ∷ row 3 NotificationChannel.email DeliveryStatus.retrying 2 none
      ∷ row 5 NotificationChannel.whatsapp DeliveryStatus.processing 3 (some 0)
      ∷ [];
}

abbrev sent_by_mail : ProviderResult
sent_by_mail = record { status = DeliveryStatus.sent; provider_message_id = "m"; metadata = [] }

abbrev refused : Failure
refused = record { code = "timeout"; message = "no answer"; metadata = [] }

-- The provider refuses the third attempt on row 3, and sends the rest.
abbrev env : ℕ → Attempt
env k = record {
  claimed_at = 1000000000 + k;
  marked_at = 1000000500 + k;
  send = λ d. if d.id == 3 then temporary_error refused else success sent_by_mail;
}

summary_of : Option (Summary × Store) → Option Summary
summary_of none = none
summary_of (some (sum, _)) = some sum

due_in_order : get_due_delivery_ids 2 100 outbox ≡ 3 ∷ 7 ∷ []
unfolding get_due_delivery_ids
due_in_order = refl

pass_counts :
    summary_of (process_due_deliveries cfg 1000000000 1000000000 env none outbox)
    ≡ some (record { selected = 3; processed = 3; succeeded = 2; failed_or_deferred = 1 })
unfolding summary_of process_due_deliveries dispatch_delivery
pass_counts = refl

outbox-AllSound : AllSound outbox
outbox-AllSound = ground arith

abbrev third : Delivery
third = row 3 NotificationChannel.email DeliveryStatus.retrying 2 none

abbrev claimed : Delivery
claimed = record third {
  status = DeliveryStatus.processing;
  attempt_count = 3;
  last_attempt_at = some 50;
  locked_at = some 50;
  locked_by = "worker";
  updated_at = 50;
}

claim_delivery_lem_example : Claimed cfg 50 3 outbox claimed
claim_delivery_lem_example = claim_delivery_lem cfg 50 3 outbox (unfold claim_delivery in refl)

backoff_seconds_bounds_example :
    (backoff_seconds cfg 2 ≤ backoff_seconds cfg 9)
    × (backoff_seconds cfg 9 ≤ 3600)
    × (60 ≤ backoff_seconds cfg 2)
backoff_seconds_bounds_example = backoff_seconds_bounds cfg 2 9 (omega arith)

mark_failure_lem_example : MarkedFailure cfg 60 3 refused false outbox third
mark_failure_lem_example = mark_failure_lem cfg 60 3 refused false outbox refl

dispatch_delivery_lem_example : Dispatched cfg (env 0) 3 outbox
dispatch_delivery_lem_example = dispatch_delivery_lem cfg (env 0) 3 outbox

get_due_delivery_ids_lem_example : Selected 2 100 outbox
get_due_delivery_ids_lem_example = get_due_delivery_ids_lem 2 100 outbox

is_due-claim_locked_example :
    is_due 100 outbox third ≡ is_some (claim_locked cfg 100 third outbox).0
is_due-claim_locked_example = is_due-claim_locked cfg 100 third outbox

process_due_deliveries_lem_example : Processed cfg 1000000000 1000000000 env none outbox
process_due_deliveries_lem_example =
    process_due_deliveries_lem cfg 1000000000 1000000000 env none outbox

release_stale_lem_example :
    Released cfg 1000000000 5 outbox
      (row 5 NotificationChannel.whatsapp DeliveryStatus.processing 3 (some 0))
release_stale_lem_example = release_stale_lem cfg 1000000000 5 outbox refl

release_reclaims_example :
    Reclaimed cfg 1000000000 5 outbox
      (row 5 NotificationChannel.whatsapp DeliveryStatus.processing 3 (some 0))
release_reclaims_example =
    release_reclaims cfg 1000000000 5 outbox refl refl (omega arith) refl (omega arith)

cancel_retry_claim_example :
    let s = cancel_scheduled_notification 40 1 (some 9) "moved" outbox in
    ((claim_delivery cfg 50 3 s).0 ≡ none)
    × ((claim_delivery cfg 50 3 (retry_delivery 45 third s).1).0 ≡ none)
cancel_retry_claim_example =
    cancel_retry_claim cfg 40 45 50 1 3 (some 9) "moved" outbox event third third refl refl refl
      (omega arith)

mark_success-cancel_example :
    Overwritten
      (cancel_scheduled_notification 40 1 (some 9) "moved" outbox)
      60
      5
      "moved"
      sent_by_mail
mark_success-cancel_example =
    mark_success-cancel 40 60 1 5 (some 9) "moved" sent_by_mail outbox refl refl refl

Reach-AllSound_example :
    AllSound (mark_success 60 3 sent_by_mail (claim_delivery cfg 50 3 outbox).1)
Reach-AllSound_example =
    Reach-AllSound cfg outbox-AllSound (next (next here (claims 50 3)) (succeeds 60 3 sent_by_mail))
