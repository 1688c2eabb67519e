-- ===== src/Tasks/Lifecycle.antt =====
-- The services of tasks/services/lifecycle.py on one task: change of status, cancellation, archiving
-- and restoring. `new_status` is `none` for a text that is no status.
pub mod Outcomes
pub mod Invariant
pub mod Preserved
pub mod Ends
pub mod Archiving
pub mod Cancelling
pub mod Moving
mod Tests
use holansl_backend.Base.{
  ℕ, Bool, true, false, not, Option, none, some, List, [], ◌∷◌, String, if◌then◌else◌, is_some,
}
use holansl_backend.Accounts.Data.{User}
use holansl_backend.Tasks.Data.{
  TaskStatus, to_do, in_progress, blocked, completed, cancelled, TaskActivityType, Task, TaskBatch,
  Store, Error, permission_denied, validation_error, Result, ok, err, ◌>>=◌, ◌>>◌, check,
  is_completed, is_cancelled, is_final_status, same_status,
}
use holansl_backend.Tasks.Access.{
  Site, can_update_task_status, can_cancel_task, can_archive_task, can_restore_task,
}
use holansl_backend.Tasks.Validation.{full_clean_task}
use holansl_backend.Tasks.Effects.{
  require_actor, clean_reason, lock_task, save_task, create_task_activity, create_audit_log,
  schedule_task_completed_notification, schedule_task_cancelled_notification,
}
use holansl_backend.Tasks.Reminders.{cancel_active_task_reminders}

-- `new_status in STATUS_TRANSITIONS[status]`
abbrev pub can_transition : TaskStatus → TaskStatus → Bool
can_transition to_do in_progress = true
can_transition to_do blocked = true
can_transition to_do completed = true
can_transition in_progress to_do = true
can_transition in_progress blocked = true
can_transition in_progress completed = true
can_transition blocked to_do = true
can_transition blocked in_progress = true
can_transition blocked completed = true
can_transition _ _ = false

-- A text that is no status is refused.
abbrev pub require_status : Option TaskStatus → Result TaskStatus
require_status none = err (validation_error "status" "Unsupported task status.")
require_status (some new_status) = ok new_status

-- The row after a change of status.
abbrev pub with_status : ℕ → TaskStatus → Task → Task
with_status now new_status t = record t {
  status = new_status;
  completed_at = if is_completed new_status then some now else none;
  updated_at = now;
}

-- What follows the saved completion.
abbrev pub after_status : ℕ → User → Task → TaskBatch → Store → Store
after_status now user t b s =
    if is_completed t.status
    then schedule_task_completed_notification t b (
        cancel_active_task_reminders now (t ∷ []) user
          "The reminder was cancelled because the task was completed." s)
    else s

-- The checks of `transition_task_status` on the locked rows, and the row to be saved.
unfoldable pub transition_row : Site → ℕ → Option TaskStatus → User → Task → TaskBatch → Result Task
transition_row site now new_status user t b = do
  check (can_update_task_status site user t)
      (permission_denied "You do not have permission to update this task's status.")
  check (not (is_some t.archived_at)) (validation_error "" "An archived task cannot be updated.")
  check (not (is_some b.cancelled_at))
      (validation_error "" "This task assignment has been cancelled.")
  status ← require_status new_status
  check (not (is_cancelled status))
      (validation_error "status" "Use the task cancellation endpoint to cancel a task.")
  check (not (same_status status t.status))
      (validation_error "status" "The task already has this status.")
  check (can_transition t.status status) (validation_error "status" "Task status cannot change.")
  full_clean_task (with_status now status t)
  ok (with_status now status t)

-- Lock the rows, compute the new row, save it, and do what follows.
unfoldable pub change_task :
    ℕ
    → (Task → TaskBatch → Result Task)
    → (Task → TaskBatch → Store → Store)
    → Store
    → Result (Task × Store)
change_task id row effects s = do
  (t, b) ← lock_task id s
  t' ← row t b
  ok (t', effects t' b (save_task t' s))

unfoldable pub transition_effects : ℕ → User → Task → TaskBatch → Store → Store
transition_effects now user t b s = after_status now user t b (
    create_audit_log user "task" "status_change" t.id
      (create_task_activity t user TaskActivityType.status_changed s))

unfoldable pub transition_task_status :
    Site → ℕ → ℕ → Option User → Option TaskStatus → Store → Result (Task × Store)
transition_task_status site now id actor new_status s = do
  user ← require_actor actor
  change_task id (transition_row site now new_status user) (transition_effects now user) s

-- The row after a cancellation.
abbrev pub with_cancellation : ℕ → User → String → Task → Task
with_cancellation now user reason t = record t {
  status = cancelled;
  completed_at = none;
  cancelled_at = some now;
  cancelled_by = some user.id;
  cancellation_reason = reason;
  updated_at = now;
}

unfoldable pub cancel_row : Site → ℕ → User → String → Task → TaskBatch → Result Task
cancel_row site now user reason t b = do
  check (can_cancel_task site user t b)
      (permission_denied "You do not have permission to cancel this task.")
  check (not (is_some t.archived_at)) (validation_error "" "An archived task cannot be cancelled.")
  check (not (is_final_status t.status))
      (validation_error "" "A completed or cancelled task cannot be cancelled.")
  full_clean_task (with_cancellation now user reason t)
  ok (with_cancellation now user reason t)

unfoldable pub cancel_effects : ℕ → User → Task → TaskBatch → Store → Store
cancel_effects now user t b s = schedule_task_cancelled_notification t (
    cancel_active_task_reminders now (t ∷ []) user
      "The reminder was cancelled because the task was cancelled."
      (create_audit_log user "task" "cancel" t.id
        (create_task_activity t user TaskActivityType.task_cancelled s)))

unfoldable pub cancel_task :
    Site → ℕ → ℕ → Option User → Option String → Store → Result (Task × Store)
cancel_task site now id actor reason s = do
  user ← require_actor actor
  reason' ← clean_reason reason
  change_task id (cancel_row site now user reason') (cancel_effects now user) s

-- The row in the archive, and out of it.
abbrev pub with_archive : ℕ → User → Task → Task
with_archive now user t = record t {
  archived_at = some now;
  archived_by = some user.id;
  updated_at = now;
}

abbrev pub without_archive : ℕ → Task → Task
without_archive now t = record t { archived_at = none; archived_by = none; updated_at = now }

unfoldable pub archive_row : Site → ℕ → User → Task → TaskBatch → Result Task
archive_row site now user t b = do
  check (can_archive_task site user t b)
      (permission_denied "You do not have permission to archive this task.")
  check (not (is_some t.archived_at)) (validation_error "" "This task is already archived.")
  check (is_final_status t.status)
      (validation_error "" "Only completed or cancelled tasks can be archived.")
  full_clean_task (with_archive now user t)
  ok (with_archive now user t)

unfoldable pub log_effects : TaskActivityType → String → User → Task → TaskBatch → Store → Store
log_effects kind action user t b s =
    create_audit_log user "task" action t.id (create_task_activity t user kind s)

unfoldable pub archive_task : Site → ℕ → ℕ → Option User → Store → Result (Task × Store)
archive_task site now id actor s = do
  user ← require_actor actor
  change_task id (archive_row site now user)
      (log_effects TaskActivityType.task_archived "archive" user) s

unfoldable pub restore_row : Site → ℕ → User → Task → TaskBatch → Result Task
restore_row site now user t b = do
  check (can_restore_task site user t b)
      (permission_denied "You do not have permission to restore this task.")
  check (is_some t.archived_at) (validation_error "" "This task is not archived.")
  check (not (is_some b.archived_at))
      (validation_error "" "Restore the task batch before restoring an individual task.")
  full_clean_task (without_archive now t)
  ok (without_archive now t)

unfoldable pub restore_task : Site → ℕ → ℕ → Option User → Store → Result (Task × Store)
restore_task site now id actor s = do
  user ← require_actor actor
  change_task id (restore_row site now user)
      (log_effects TaskActivityType.task_restored "restore" user) s
