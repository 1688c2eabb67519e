-- ===== src/Notifications/Delivery/Scheduling.antt =====
-- `cancel_scheduled_notification` of notifications/services/scheduling.py.
pub mod Cancelling
use holansl_backend.Base.{
  ℕ, Bool, ◌&&◌, ◌||◌, Option, none, some, String, ◌==◌, if◌then◌else◌, update, is_empty,
}
use holansl_backend.Notifications.Data.{
  DeliveryStatus, Notification, Delivery, Store, is_processing, is_deliverable, is_sent,
  is_dashboard,
}

-- The deliveries that `cancel_scheduled_notification` may still call back.
abbrev pub is_cancellable : Delivery → Bool
is_cancellable d =
    is_deliverable d.status || is_processing d.status || is_dashboard d.channel && is_sent d.status

unfoldable pub cancel : ℕ → String → Delivery → Delivery
cancel now reason d = record d {
  status = DeliveryStatus.cancelled;
  locked_at = none;
  locked_by = "";
  error_code = "scheduled_notification_cancelled";
  error_message = if is_empty reason then "The scheduled notification was cancelled." else reason;
  updated_at = now;
}

unfoldable pub expire_notification : ℕ → Option ℕ → String → Notification → Notification
expire_notification now actor reason n = record n {
  expires_at = some now;
  metadata = record (n.metadata) {
    cancelled_at = some now;
    cancelled_by_id = actor;
    cancellation_reason = reason;
  };
  updated_at = now;
}

-- The notification expires, and what was not sent out yet is cancelled.
unfoldable pub cancel_scheduled_notification : ℕ → ℕ → Option ℕ → String → Store → Store
unfolding cancel expire_notification
cancel_scheduled_notification now id actor reason s = record s {
  notifications = update (λ n. n.id == id) (expire_notification now actor reason) s.notifications;
  deliveries =
      update (λ d. d.notification == id && is_cancellable d) (cancel now reason) s.deliveries;
}
