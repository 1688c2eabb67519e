-- ===== src/Notifications/Data.antt =====
-- The rows and enumerations of the outbox: notifications/constants.py, notifications/models.py
-- (`NotificationDelivery`), notifications/data.py (`ProviderResult`) and
-- notifications/exceptions.py. Times are microseconds, ids are numbers. A delivery's path
-- `notification_recipient.notification` is one field, `notification`.
use holansl_backend.Base.{ℕ, Bool, true, false, Option, List, String}

pub data NotificationChannel : Type 0 where
  dashboard email whatsapp : NotificationChannel

pub data DeliveryStatus : Type 0 where
  pending processing sent delivered read retrying failed skipped cancelled : DeliveryStatus

-- A JSON object with text values.
abbrev pub Json : Type 0
Json = List (String × String)

-- The keys of a notification's metadata that a cancellation writes, and the other keys.
pub record NotificationMetadata : Type 0 where
  pub cancelled_at : Option ℕ
  pub cancelled_by_id : Option ℕ
  pub cancellation_reason : String
  pub others : Json

pub record Notification : Type 0 where
  pub id : ℕ
  pub expires_at : Option ℕ
  pub metadata : NotificationMetadata
  pub updated_at : ℕ

pub record Delivery : Type 0 where
  pub id : ℕ
  pub notification : ℕ
  pub channel : NotificationChannel
  pub status : DeliveryStatus
  pub provider_message_id : String
  pub attempt_count : ℕ
  pub max_attempts : ℕ
  pub scheduled_at : ℕ
  pub next_attempt_at : ℕ
  pub last_attempt_at : Option ℕ
  pub locked_at : Option ℕ
  pub locked_by : String
  pub sent_at : Option ℕ
  pub delivered_at : Option ℕ
  pub read_at : Option ℕ
  pub failed_at : Option ℕ
  pub error_code : String
  pub error_message : String
  pub response_metadata : Json
  pub created_at : ℕ
  pub updated_at : ℕ

-- The two tables that delivery reads and writes.
pub record Store : Type 0 where
  pub notifications : List Notification
  pub deliveries : List Delivery

-- The deployment's settings, with the worker's name (the setting, or the host's name).
pub record Settings : Type 0 where
  pub retry_base_seconds : ℕ
  pub retry_max_seconds : ℕ
  pub lock_timeout_seconds : ℕ
  pub processing_batch_size : ℕ
  pub worker_name : String

pub record ProviderResult : Type 0 where
  pub status : DeliveryStatus
  pub provider_message_id : String
  pub metadata : Json

-- What an attempt's exception carries into the row.
pub record Failure : Type 0 where
  pub code : String
  pub message : String
  pub metadata : Json

-- How a provider's `send` ends: a result, or one of the exceptions that the dispatcher tells apart.
pub data Outcome : Type 0 where
  success : ProviderResult → Outcome
  permanent_error temporary_error : Failure → Outcome
  configuration_error unexpected_error : String → Outcome

abbrev pub is_processing : DeliveryStatus → Bool
is_processing processing = true
is_processing _ = false

-- `DELIVERABLE_STATUSES`
abbrev pub is_deliverable : DeliveryStatus → Bool
is_deliverable pending = true
is_deliverable retrying = true
is_deliverable _ = false

abbrev pub is_failed : DeliveryStatus → Bool
is_failed failed = true
is_failed _ = false

-- The statuses that `retry_delivery` accepts.
abbrev pub is_retryable : DeliveryStatus → Bool
is_retryable failed = true
is_retryable cancelled = true
is_retryable skipped = true
is_retryable _ = false

abbrev pub is_delivered : DeliveryStatus → Bool
is_delivered delivered = true
is_delivered read = true
is_delivered _ = false

abbrev pub is_read : DeliveryStatus → Bool
is_read read = true
is_read _ = false

-- SENT, DELIVERED or READ
abbrev pub is_sent : DeliveryStatus → Bool
is_sent sent = true
is_sent delivered = true
is_sent read = true
is_sent _ = false

abbrev pub is_dashboard : NotificationChannel → Bool
is_dashboard dashboard = true
is_dashboard _ = false
