-- ===== src/Tasks/Batches.antt =====
-- The services of tasks/services/lifecycle.py that end a batch of tasks: cancellation, archiving and
-- restoring.
pub mod Editing
pub mod Saved
pub mod Preserved
pub mod Closed
pub mod Edited
mod Tests
use holansl_backend.Base.{
  ℕ, Bool, true, false, not, ◌&&◌, ◌||◌, Option, none, some, List, [], ◌∷◌, ◌++◌, map, String, ◌==◌,
  if◌then◌else◌, is_some, is_value, is_empty, strip, eq_option, select, any,
}
use holansl_backend.Accounts.Data.{User}
use holansl_backend.Tasks.Data.{
  TaskPriority, low, medium, high, urgent, cancelled, TaskActivityType, Task, TaskBatch, Store,
  Error, permission_denied, validation_error, Result, ok, err, ◌>>=◌, ◌>>◌, check, is_active_status,
  is_final_status,
}
use holansl_backend.Tasks.Access.{Site, can_manage_batch}
use holansl_backend.Tasks.Validation.{full_clean_task, full_clean_batch}
use holansl_backend.Tasks.Effects.{
  require_actor, clean_reason, lock_batch, save_task, save_batch, create_batch_activity,
  create_task_activities, create_audit_log, schedule_batch_updated_notification,
  schedule_batch_cancelled_notification,
}
use holansl_backend.Tasks.Reminders.{
  cancel_active_task_reminders, cancel_reminders_after_batch_due_at,
}
use holansl_backend.Tasks.Lifecycle.{with_cancellation, with_archive, without_archive}

-- `locked_batch.tasks`
abbrev pub tasks_of : ℕ → Store → List Task
tasks_of id s = select (λ t. t.batch == id) s.tasks

-- `Task.objects.bulk_update(tasks, [...])`
unfoldable pub save_tasks : List Task → Store → Store
save_tasks [] s = s
save_tasks (t ∷ ts) s = save_tasks ts (save_task t s)

-- `full_clean` on one task after the other
unfoldable pub full_clean_tasks : List Task → Result (Unit {0})
full_clean_tasks [] = ok tt
full_clean_tasks (t ∷ ts) = do full_clean_task t; full_clean_tasks ts

-- `not xs`
abbrev pub is_nil : List Task → Bool
is_nil [] = true
is_nil (t ∷ ts) = false

-- What a service makes of the locked batch and its locked tasks: the batch and the tasks to be saved.
abbrev pub Plan : Type 0
Plan = TaskBatch → List Task → Result (TaskBatch × List Task)

-- Lock the rows, compute the new ones, save them, and do what follows.
unfoldable pub change_batch :
    ℕ
    → Plan
    → (TaskBatch → List Task → Store → Store)
    → Store
    → Result (TaskBatch × List Task × Store)
unfolding save_tasks
change_batch id plan effects s = do
  b ← lock_batch id s
  (b', ts) ← plan b (tasks_of b.id s)
  ok (b', ts, effects b' ts (save_tasks ts (save_batch b' s)))

abbrev pub with_batch_cancellation : ℕ → User → String → TaskBatch → TaskBatch
with_batch_cancellation now user reason b = record b {
  cancelled_at = some now;
  cancelled_by = some user.id;
  cancellation_reason = reason;
  updated_at = now;
}

-- The tasks that a cancellation of the batch reaches.
abbrev pub is_affected : Task → Bool
is_affected t = is_active_status t.status && not (is_some t.archived_at)

-- `tasks` are those of the batch, `all_tasks` the table, which the access rule reads.
unfoldable pub cancel_batch_plan : Site → ℕ → User → String → List Task → Plan
unfolding full_clean_tasks
cancel_batch_plan site now user reason all_tasks b tasks = do
  check (can_manage_batch site user b all_tasks)
      (permission_denied "You do not have permission to cancel this task assignment.")
  check (not (is_some b.archived_at))
      (validation_error "" "An archived task assignment cannot be cancelled.")
  check (not (is_some b.cancelled_at))
      (validation_error "" "This task assignment is already cancelled.")
  check (not (is_nil (select is_affected tasks)))
      (validation_error "" "This task assignment has no active tasks to cancel.")
  full_clean_batch (with_batch_cancellation now user reason b)
  full_clean_tasks (map (with_cancellation now user reason) (select is_affected tasks))
  ok (
    with_batch_cancellation now user reason b,
    map (with_cancellation now user reason) (select is_affected tasks),
  )

unfoldable pub cancel_batch_effects : ℕ → User → TaskBatch → List Task → Store → Store
cancel_batch_effects now user b ts s = schedule_batch_cancelled_notification b ts (
    cancel_active_task_reminders now ts user
      "The reminder was cancelled because the task assignment was cancelled."
      (create_audit_log user "task_batch" "cancel" b.id (
        create_task_activities ts user TaskActivityType.task_cancelled
          (create_batch_activity b user TaskActivityType.batch_cancelled s))))

unfoldable pub cancel_task_batch :
    Site → ℕ → ℕ → Option User → Option String → Store → Result (TaskBatch × List Task × Store)
cancel_task_batch site now id actor reason s = do
  user ← require_actor actor
  reason' ← clean_reason reason
  change_batch id (cancel_batch_plan site now user reason' s.tasks) (cancel_batch_effects now user)
      s

abbrev pub with_batch_archive : ℕ → User → TaskBatch → TaskBatch
with_batch_archive now user b = record b {
  archived_at = some now;
  archived_by = some user.id;
  updated_at = now;
}

abbrev pub without_batch_archive : ℕ → TaskBatch → TaskBatch
without_batch_archive now b = record b { archived_at = none; archived_by = none; updated_at = now }

abbrev pub is_unfinished : Task → Bool
is_unfinished t = not (is_final_status t.status)

-- `task.archived_at is None`
abbrev pub is_unarchived : Task → Bool
is_unarchived t = not (is_some t.archived_at)

unfoldable pub archive_batch_plan : Site → ℕ → User → List Task → Plan
unfolding full_clean_tasks
archive_batch_plan site now user all_tasks b tasks = do
  check (can_manage_batch site user b all_tasks)
      (permission_denied "You do not have permission to archive this task assignment.")
  check (not (is_some b.archived_at))
      (validation_error "" "This task assignment is already archived.")
  check (is_nil (select is_unfinished tasks)) (
      validation_error "tasks"
        "All tasks must be completed or cancelled before the assignment can be archived.")
  full_clean_tasks (map (with_archive now user) (select is_unarchived tasks))
  ok (with_batch_archive now user b, map (with_archive now user) (select is_unarchived tasks))

unfoldable pub log_batch_effects :
    TaskActivityType → TaskActivityType → String → User → TaskBatch → List Task → Store → Store
log_batch_effects batch_kind task_kind action user b ts s =
    create_audit_log user "task_batch" action b.id
      (create_task_activities ts user task_kind (create_batch_activity b user batch_kind s))

unfoldable pub archive_task_batch :
    Site → ℕ → ℕ → Option User → Store → Result (TaskBatch × List Task × Store)
archive_task_batch site now id actor s = do
  user ← require_actor actor
  change_batch id (archive_batch_plan site now user s.tasks)
      (log_batch_effects TaskActivityType.batch_archived TaskActivityType.task_archived "archive"
        user)
      s

-- `archived_at=original_archive_time`
abbrev pub is_archived_at : Option ℕ → Task → Bool
is_archived_at original t = elim original [
  | none ↦ false
  | some at_time ↦ is_value t.archived_at at_time
]

unfoldable pub restore_batch_plan : Site → ℕ → User → List Task → Plan
unfolding full_clean_tasks
restore_batch_plan site now user all_tasks b tasks = do
  check (can_manage_batch site user b all_tasks)
      (permission_denied "You do not have permission to restore this task assignment.")
  check (is_some b.archived_at) (validation_error "" "This task assignment is not archived.")
  full_clean_tasks (map (without_archive now) (select (is_archived_at b.archived_at) tasks))
  ok (
    without_batch_archive now b,
    map (without_archive now) (select (is_archived_at b.archived_at) tasks),
  )

unfoldable pub restore_task_batch :
    Site → ℕ → ℕ → Option User → Store → Result (TaskBatch × List Task × Store)
restore_task_batch site now id actor s = do
  user ← require_actor actor
  change_batch id (restore_batch_plan site now user s.tasks)
      (log_batch_effects TaskActivityType.batch_restored TaskActivityType.task_restored "restore"
        user)
      s
