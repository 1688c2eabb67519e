-- ===== src/Notifications/Delivery.antt =====
-- One delivery attempt, of notifications/services/delivery.py: claim the row, call the provider,
-- mark the row. Each call takes the reading of the clock that it makes; the providers that leave
-- the process (Resend, WhatsApp) are the argument `send`.
pub mod Claiming
pub mod Marking
pub mod Dispatching
pub mod Outbox
pub mod Scheduling
pub mod Reach
mod Tests
use holansl_backend.Base.{
  ℕ, zero, suc, ◌+◌, ◌-◌, ◌*◌, ◌^◌, min, Bool, true, false, not, ◌&&◌, ◌||◌, Option, none, some,
  List, [], ◌∷◌, ◌++◌, map, String, ltb, leb, ◌==◌, if◌then◌else◌, is_some, find, update, select,
  take, length, is_empty,
}
use holansl_backend.Notifications.Data.{
  NotificationChannel, DeliveryStatus, Json, Notification, Delivery, Store, Settings,
  ProviderResult, Failure, Outcome, success, permanent_error, temporary_error, configuration_error,
  unexpected_error, is_processing, is_deliverable, is_retryable, is_delivered, is_read, is_sent,
  is_dashboard,
}

-- Times are in microseconds.
abbrev pub seconds : ℕ → ℕ
seconds n = n * 1000000

pub backoff_seconds : Settings → ℕ → ℕ
backoff_seconds cfg attempt_count =
    min (cfg.retry_base_seconds * 2 ^ (attempt_count - 1)) cfg.retry_max_seconds

-- `NotificationDelivery.objects.filter(pk=id).first()`
abbrev pub find_delivery : ℕ → Store → Option Delivery
find_delivery id s = find (λ d. d.id == id) s.deliveries

-- `NotificationDelivery.objects.filter(pk=id).update(...)`
abbrev pub update_delivery : ℕ → (Delivery → Delivery) → Store → Store
update_delivery id f s = record s { deliveries = update (λ d. d.id == id) f s.deliveries }

-- `delivery.notification_recipient.notification.expires_at`
abbrev pub expires_at : Delivery → Store → Option ℕ
expires_at d s = elim (find (λ n. n.id == d.notification) s.notifications) [
  | none ↦ none
  | some n ↦ n.expires_at
]

abbrev pub is_expired : ℕ → Option ℕ → Bool
is_expired now none = false
is_expired now (some t) = leb t now

pub expire : ℕ → Delivery → Delivery
expire now d = record d {
  status = DeliveryStatus.cancelled;
  error_code = "notification_expired";
  error_message = "The notification expired before delivery.";
  locked_at = none;
  locked_by = "";
  updated_at = now;
}

pub claim : Settings → ℕ → Delivery → Delivery
claim cfg now d = record d {
  status = DeliveryStatus.processing;
  attempt_count = d.attempt_count + 1;
  last_attempt_at = some now;
  locked_at = some now;
  locked_by = cfg.worker_name;
  updated_at = now;
}

-- The transaction of `_claim_delivery` on the locked row `d`.
pub claim_locked : Settings → ℕ → Delivery → Store → Option Delivery × Store
unfolding expire claim
claim_locked cfg now d s =
    if not (is_deliverable d.status)
    then (none, s)
    else if is_expired now (expires_at d s)
    then (none, update_delivery d.id (λ _. expire now d) s)
    else if ltb now d.scheduled_at || ltb now d.next_attempt_at
    then (none, s)
    else (some (claim cfg now d), update_delivery d.id (λ _. claim cfg now d) s)

pub claim_delivery : Settings → ℕ → ℕ → Store → Option Delivery × Store
unfolding claim_locked
claim_delivery cfg now id s = elim (find_delivery id s) [
  | none ↦ (none, s)
  | some d ↦ claim_locked cfg now d s
]

-- What a provider reports is at least SENT.
abbrev pub success_status : DeliveryStatus → DeliveryStatus
success_status status = if is_sent status then status else DeliveryStatus.sent

pub succeed : ℕ → ProviderResult → Delivery → Delivery
succeed now result d =
    let status = success_status result.status in
    record d {
      status = status;
      provider_message_id = result.provider_message_id;
      response_metadata = result.metadata;
      error_code = "";
      error_message = "";
      locked_at = none;
      locked_by = "";
      failed_at = none;
      updated_at = now;
      sent_at = some now;
      delivered_at = if is_delivered status then some now else d.delivered_at;
      read_at = if is_read status then some now else d.read_at;
    }

pub mark_success : ℕ → ℕ → ProviderResult → Store → Store
unfolding succeed
mark_success now id result s = update_delivery id (succeed now result) s

-- The new row of `_mark_failure`, from the row that it read.
pub fail : Settings → ℕ → Failure → Bool → Delivery → Delivery
unfolding backoff_seconds
fail cfg now failure permanent d =
    let should_retry = not permanent && ltb d.attempt_count d.max_attempts in
    record d {
      status = if should_retry then DeliveryStatus.retrying else DeliveryStatus.failed;
      next_attempt_at =
          if should_retry
          then now + seconds (backoff_seconds cfg d.attempt_count)
          else d.next_attempt_at;
      failed_at = if should_retry then none else some now;
      error_code = failure.code;
      error_message = failure.message;
      response_metadata = failure.metadata;
      locked_at = none;
      locked_by = "";
      updated_at = now;
    }

-- `none` is the exception of `objects.get` on a row that is not there.
pub mark_failure : Settings → ℕ → ℕ → Failure → Bool → Store → Option Store
unfolding fail
mark_failure cfg now id failure permanent s = elim (find_delivery id s) [
  | none ↦ none
  | some d ↦ some (update_delivery id (λ _. fail cfg now failure permanent d) s)
]

-- An exception with no `code` and no `metadata`.
abbrev pub bare_failure : String → Failure
bare_failure message = record { code = "delivery_failed"; message = message; metadata = [] }

-- The wrapper around an exception that no clause expects.
abbrev pub unexpected_failure : String → Failure
unexpected_failure message = record {
  code = "unexpected_provider_error";
  message = message;
  metadata = [];
}

-- `get_provider(channel).send(delivery)`: the dashboard's provider delivers at once.
pub provider_send : (Delivery → Outcome) → Delivery → Outcome
provider_send send d =
    if is_dashboard d.channel
    then success
        (record { status = DeliveryStatus.delivered; provider_message_id = ""; metadata = [] })
    else send d

-- The `try` of `dispatch_delivery`, by how the provider ended.
pub finish : Settings → ℕ → ℕ → Outcome → Store → Option (Bool × Store)
unfolding mark_success mark_failure
finish cfg now id (success result) s = some (true, mark_success now id result s)
finish cfg now id (permanent_error e) s = elim (mark_failure cfg now id e true s) [
  | none ↦ none
  | some s' ↦ some (false, s')
]
finish cfg now id (configuration_error m) s =
    elim (mark_failure cfg now id (bare_failure m) true s) [
      | none ↦ none
      | some s' ↦ some (false, s')
    ]
finish cfg now id (temporary_error e) s = elim (mark_failure cfg now id e false s) [
  | none ↦ none
  | some s' ↦ some (false, s')
]
finish cfg now id (unexpected_error m) s =
    elim (mark_failure cfg now id (unexpected_failure m) false s) [
      | none ↦ none
      | some s' ↦ some (false, s')
    ]

-- What the surroundings do in one call of `dispatch_delivery`: the clock when the row is claimed
-- and when it is marked, and the provider's answer.
pub record Attempt : Type 0 where
  pub claimed_at : ℕ
  pub marked_at : ℕ
  pub send : Delivery → Outcome

pub dispatch_delivery : Settings → Attempt → ℕ → Store → Option (Bool × Store)
unfolding claim_delivery provider_send finish
dispatch_delivery cfg env id s =
    let (claimed, s') = claim_delivery cfg env.claimed_at id s in
    elim claimed [
      | none ↦ some (false, s')
      | some d ↦ finish cfg env.marked_at d.id (provider_send env.send d) s'
    ]
