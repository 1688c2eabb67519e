-- ===== src/Tasks/Reminders.antt =====
-- The lifecycle helpers of tasks/services/reminders.py, which cancel reminders when their tasks end
-- or their deadline moves.
pub mod Automatic
pub mod Deadlines
use holansl_backend.Base.{
  ℕ, Bool, false, not, ◌&&◌, Option, none, some, List, [], ◌∷◌, map, String, ltb, ◌==◌, is_some,
  find, select, contains, any,
}
use holansl_backend.Accounts.Data.{User}
use holansl_backend.Notifications.Delivery.Scheduling.{cancel_scheduled_notification}
use holansl_backend.Tasks.Data.{TaskActivityType, TaskBatch, Task, TaskReminder, Store}
use holansl_backend.Tasks.Effects.{save_reminder, create_task_activity, create_audit_log}

abbrev pub cancelled_reminder : ℕ → User → TaskReminder → TaskReminder
cancelled_reminder now actor r = record r {
  cancelled_at = some now;
  cancelled_by = some actor.id;
  updated_at = now;
}

-- `if reminder.notification_id: cancel_scheduled_notification(...)`
abbrev pub cancel_reminder_notification : ℕ → User → String → TaskReminder → Store → Store
cancel_reminder_notification now actor reason r s = elim r.notification [
  | none ↦ s
  | some n ↦ record s {
    outbox = cancel_scheduled_notification now n (some actor.id) reason s.outbox;
  }
]

-- The history of the reminder's task.
abbrev pub create_reminder_activity : TaskReminder → User → TaskActivityType → Store → Store
create_reminder_activity r actor kind s = elim (find (λ t. t.id == r.task) s.tasks) [
  | none ↦ s
  | some t ↦ create_task_activity t actor kind s
]

-- One round of the loop of `cancel_active_task_reminders`.
unfoldable pub cancel_one : ℕ → User → String → TaskReminder → Store → Store
cancel_one now actor reason r s = create_audit_log actor "task_reminder" "automatic_cancel" r.id (
    create_reminder_activity r actor TaskActivityType.reminder_cancelled (
      cancel_reminder_notification now actor reason r
        (save_reminder (cancelled_reminder now actor r) s)))

unfoldable pub cancel_each : ℕ → User → String → List TaskReminder → Store → Store
unfolding cancel_one
cancel_each now actor reason [] s = s
cancel_each now actor reason (r ∷ rs) s =
    cancel_each now actor reason rs (cancel_one now actor reason r s)

-- `task_id__in=task_ids, cancelled_at__isnull=True`
abbrev pub is_active_of : List ℕ → TaskReminder → Bool
is_active_of task_ids r = contains r.task task_ids && not (is_some r.cancelled_at)

unfoldable pub cancel_active_task_reminders : ℕ → List Task → User → String → Store → Store
unfolding cancel_each
cancel_active_task_reminders now tasks actor reason s =
    cancel_each now actor reason (select (is_active_of (map (λ t. t.id) tasks)) s.reminders) s

-- One round of the loop of `cancel_reminders_after_batch_due_at`, which writes no audit row.
unfoldable pub cancel_one_late : ℕ → User → String → TaskReminder → Store → Store
cancel_one_late now actor reason r s =
    create_reminder_activity r actor TaskActivityType.reminder_cancelled (
      cancel_reminder_notification now actor reason r
        (save_reminder (cancelled_reminder now actor r) s))

unfoldable pub cancel_each_late : ℕ → User → String → List TaskReminder → Store → Store
unfolding cancel_one_late
cancel_each_late now actor reason [] s = s
cancel_each_late now actor reason (r ∷ rs) s =
    cancel_each_late now actor reason rs (cancel_one_late now actor reason r s)

-- `task__batch=batch`
abbrev pub is_of_batch : ℕ → List Task → TaskReminder → Bool
is_of_batch batch tasks r = any (λ t. t.id == r.task && t.batch == batch) tasks

-- `task__batch=batch, cancelled_at__isnull=True, remind_at__gt=due_at`
abbrev pub is_late : ℕ → ℕ → List Task → TaskReminder → Bool
is_late batch due_at tasks r =
    is_of_batch batch tasks r && not (is_some r.cancelled_at) && ltb due_at r.remind_at

unfoldable pub cancel_reminders_after_batch_due_at : ℕ → TaskBatch → User → Store → Store
unfolding cancel_each_late
cancel_reminders_after_batch_due_at now b actor s = elim b.due_at [
  | none ↦ s
  | some due_at ↦
      cancel_each_late now actor "The reminder was cancelled because the task deadline changed."
        (select (is_late b.id due_at s.tasks) s.reminders) s
]
