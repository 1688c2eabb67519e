-- ===== src/Tasks/Validation.antt =====
-- `clean` and the check constraints of tasks/models.py, as `full_clean` applies them to a task and to
-- a batch. The checks of single fields are the types here; the unique constraint on (batch,
-- assigned_to) concerns columns that the services below do not write.
pub mod Rules
use holansl_backend.Base.{
  ℕ, Bool, true, false, not, ◌&&◌, ◌||◌, Option, none, some, String, leb, ltb, if◌then◌else◌,
  is_some, is_empty, strip,
}
use holansl_backend.Tasks.Data.{
  TaskBatch, Task, TaskStatus, completed, cancelled, Error, validation_error, Result, ok, err,
  ◌>>=◌, ◌>>◌, check, is_department, is_active_status, is_completed, is_cancelled, is_final_status,
}

-- `s.strip()` as a truth value
abbrev pub is_blank : String → Bool
is_blank s = is_empty (strip s)

-- The `if`/`elif`/`else` of `Task.clean` on the status.
abbrev pub clean_status : TaskStatus → Task → Result (Unit {0})
clean_status completed t = do
  check (is_some t.completed_at)
      (validation_error "completed_at" "A completed task needs a completion time.")
  check (not (is_some t.cancelled_at) && is_blank t.cancellation_reason)
      (validation_error "status" "A completed task cannot also be cancelled.")
clean_status cancelled t = do
  check (is_some t.cancelled_at)
      (validation_error "cancelled_at" "A cancelled task needs a cancellation time.")
  check (not (is_blank t.cancellation_reason))
      (validation_error "cancellation_reason" "A cancellation reason is required.")
  check (not (is_some t.completed_at))
      (validation_error "status" "A cancelled task cannot also be completed.")
clean_status _ t =
    check
      (not (is_some t.completed_at)
        && not (is_some t.cancelled_at)
        && is_blank t.cancellation_reason)
      (validation_error "status" "Active tasks cannot have completion or cancellation data.")

unfoldable pub clean_task : Task → Result (Unit {0})
clean_task t = do
  check (is_some t.assigned_to || not (is_empty t.assignee_name))
      (validation_error "assigned_to" "A task requires an assignee or an assignee snapshot.")
  clean_status t.status t
  check (not (is_some t.archived_at) || is_final_status t.status)
      (validation_error "archived_at" "Only completed or cancelled tasks can be archived.")

-- The constraint `task_status_dates_valid`.
unfoldable pub status_dates_valid : Task → Bool
status_dates_valid t =
    is_completed t.status
      && is_some t.completed_at
      && not (is_some t.cancelled_at)
      && is_empty t.cancellation_reason
    || is_cancelled t.status
      && not (is_some t.completed_at)
      && is_some t.cancelled_at
      && not (is_empty t.cancellation_reason)
    || is_active_status t.status
      && not (is_some t.completed_at)
      && not (is_some t.cancelled_at)
      && is_empty t.cancellation_reason

-- The constraint `task_archive_state_valid`.
unfoldable pub archive_state_valid : Task → Bool
archive_state_valid t = not (is_some t.archived_at) || is_final_status t.status

-- `task.full_clean()`
unfoldable pub full_clean_task : Task → Result (Unit {0})
unfolding clean_task status_dates_valid archive_state_valid
full_clean_task t = do
  clean_task t
  check (status_dates_valid t) (validation_error "" "task_status_dates_valid")
  check (archive_state_valid t) (validation_error "" "task_archive_state_valid")

-- `start_at` and `due_at` in order, where both are set.
abbrev pub dates_ordered : Option ℕ → Option ℕ → Bool
dates_ordered (some start) (some due) = leb start due
dates_ordered _ _ = true

-- The part of `TaskBatch.clean` on the source department, for a batch that is already stored.
abbrev pub clean_source : TaskBatch → Result (Unit {0})
clean_source b =
    if is_department b.assignment_type
    then check (not (is_empty b.source_department_name))
        (validation_error "source_department_name" "A department-name snapshot is required.")
    else check
        (not (is_some b.source_department)
          && is_empty b.source_department_name
          && is_empty b.source_department_code)
        (validation_error "source_department"
          "Only department assignments may have a source department.")

unfoldable pub clean_batch : TaskBatch → Result (Unit {0})
clean_batch b = do
  check (dates_ordered b.start_at b.due_at)
      (validation_error "due_at" "The due time cannot be before the start time.")
  clean_source b
  check (not (is_some b.cancelled_at) || not (is_blank b.cancellation_reason))
      (validation_error "cancellation_reason" "A cancellation reason is required.")
  check (is_some b.cancelled_at || is_blank b.cancellation_reason) (
      validation_error "cancellation_reason"
        "A cancellation reason cannot exist before cancellation.")

-- The constraint `task_batch_cancel_valid`.
unfoldable pub cancel_valid : TaskBatch → Bool
cancel_valid b =
    not (is_some b.cancelled_at) && is_empty b.cancellation_reason
    || is_some b.cancelled_at && not (is_empty b.cancellation_reason)

-- `batch.full_clean()` on a stored batch. The constraints on dates and department are those of
-- `clean`.
unfoldable pub full_clean_batch : TaskBatch → Result (Unit {0})
unfolding clean_batch cancel_valid
full_clean_batch b = do
  check (not (is_empty b.title)) (validation_error "title" "This field cannot be blank.")
  clean_batch b
  check (cancel_valid b) (validation_error "" "task_batch_cancel_valid")
