-- ===== src/Tasks/Lifecycle/Tests.antt =====
-- Runs of the services on the sample store, and the theorems at these inputs.
use holansl_backend.Base.{ℕ, ◌≡◌, ◌↔◌, refl, true, false, some, [], ◌∷◌, String, strip, All}
use holansl_backend.Tasks.Data.{
  TaskStatus, completed, TaskActivityType, TaskActivity, AuditLog, Store, validation_error, ok, err,
}
use holansl_backend.Tasks.Access.{
  can_update_task_status, can_cancel_task, can_archive_task, can_restore_task,
}
use holansl_backend.Tasks.Validation.{full_clean_task}
use holansl_backend.Tasks.Validation.Rules.{IsValid, full_clean_task_iff}
use holansl_backend.Tasks.Effects.{require_actor, clean_reason, lock_task}
use holansl_backend.Tasks.Reminders.{is_active_of, cancel_active_task_reminders}
use holansl_backend.Tasks.Reminders.Automatic.{cancel_active_task_reminders_lem}
use holansl_backend.Tasks.Lifecycle.{
  with_status, with_cancellation, with_archive, without_archive, transition_row, transition_effects,
  change_task, transition_task_status, log_effects, cancel_effects, cancel_row, cancel_task,
  archive_row, archive_task, restore_row, restore_task,
}
use holansl_backend.Tasks.Lifecycle.Ends.{is_ok, Ensures}
use holansl_backend.Tasks.Lifecycle.Archiving.{
  MayArchive, Archived, archive_task_iff, MayRestore, Restored, restore_task_iff,
}
use holansl_backend.Tasks.Lifecycle.Cancelling.{MayCancel, Cancelled, cancel_task_iff}
use holansl_backend.Tasks.Lifecycle.Moving.{MaySetStatus, Moved, transition_task_status_iff}
use holansl_backend.Tasks.Samples.{worker, site, going, done, filed, reminder, store, store-IsSound}

abbrev entry : ℕ → TaskActivityType → TaskActivity
entry id kind = record { task = some id; batch = 1; actor = 7; activity_type = kind }

abbrev log : String → String → ℕ → AuditLog
log resource action id = record { user = 7; resource = resource; action = action; object_id = id }

abbrev after_completion : Store
after_completion = record store {
  tasks = with_status 50 completed going ∷ done ∷ filed ∷ [];
  reminders =
      record reminder { cancelled_at = some 50; cancelled_by = some 7; updated_at = 50 } ∷ [];
  activities =
      entry 1 TaskActivityType.status_changed ∷ entry 1 TaskActivityType.reminder_cancelled ∷ [];
  audits = log "task" "status_change" 1 ∷ log "task_reminder" "automatic_cancel" 4 ∷ [];
  scheduled = record { notification_type = "task.completed"; source = 1; users = 9 ∷ [] } ∷ [];
}

completes :
    transition_task_status site 50 1 (some worker) (some completed) store
    ≡ ok (with_status 50 completed going, after_completion)
unfolding require_actor lock_task can_update_task_status full_clean_task strip transition_row
    transition_effects change_task transition_task_status cancel_active_task_reminders
completes = refl

-- A completed task goes nowhere.
stays :
    transition_task_status site 50 2 (some worker) (some TaskStatus.to_do) store
    ≡ err (validation_error "status" "Task status cannot change.")
unfolding require_actor lock_task can_update_task_status full_clean_task strip transition_row
    transition_effects change_task transition_task_status cancel_active_task_reminders
stays = refl

abbrev after_cancellation : Store
after_cancellation = record after_completion {
  tasks = with_cancellation 50 worker "no stock" going ∷ done ∷ filed ∷ [];
  activities =
      entry 1 TaskActivityType.task_cancelled ∷ entry 1 TaskActivityType.reminder_cancelled ∷ [];
  audits = log "task" "cancel" 1 ∷ log "task_reminder" "automatic_cancel" 4 ∷ [];
  scheduled = record { notification_type = "task.cancelled"; source = 1; users = 7 ∷ [] } ∷ [];
}

cancels :
    cancel_task site 50 1 (some worker) (some " no stock ") store
    ≡ ok (with_cancellation 50 worker "no stock" going, after_cancellation)
unfolding require_actor clean_reason lock_task can_cancel_task full_clean_task strip cancel_row
    cancel_effects change_task cancel_task cancel_active_task_reminders
cancels = refl

abbrev after_archive : Store
after_archive = record store {
  tasks = going ∷ with_archive 50 worker done ∷ filed ∷ [];
  activities = entry 2 TaskActivityType.task_archived ∷ [];
  audits = log "task" "archive" 2 ∷ [];
}

archives :
    archive_task site 50 2 (some worker) store ≡ ok (with_archive 50 worker done, after_archive)
unfolding require_actor lock_task can_archive_task full_clean_task strip archive_row log_effects
    change_task archive_task
archives = refl

abbrev after_restore : Store
after_restore = record store {
  tasks = going ∷ done ∷ without_archive 50 filed ∷ [];
  activities = entry 3 TaskActivityType.task_restored ∷ [];
  audits = log "task" "restore" 3 ∷ [];
}

restores : restore_task site 50 3 (some worker) store ≡ ok (without_archive 50 filed, after_restore)
unfolding require_actor lock_task can_restore_task full_clean_task strip restore_row log_effects
    change_task restore_task
restores = refl

transition_task_status_iff_example :
    ((is_ok (transition_task_status site 50 1 (some worker) (some completed) store) ≡ true)
      ↔ MaySetStatus site 1 (some worker) (some completed) store)
    × Ensures
        (Moved 50 1 (some worker) (some completed) store)
        (transition_task_status site 50 1 (some worker) (some completed) store)
transition_task_status_iff_example =
    transition_task_status_iff site 50 1 (some worker) (some completed) store
      store-IsSound.tasks_valid

cancel_task_iff_example :
    ((is_ok (cancel_task site 50 1 (some worker) (some " no stock ") store) ≡ true)
      ↔ MayCancel site 1 (some worker) (some " no stock ") store)
    × Ensures
        (Cancelled 50 1 (some worker) (some " no stock ") store)
        (cancel_task site 50 1 (some worker) (some " no stock ") store)
cancel_task_iff_example =
    cancel_task_iff site 50 1 (some worker) (some " no stock ") store store-IsSound.tasks_valid

archive_task_iff_example :
    ((is_ok (archive_task site 50 2 (some worker) store) ≡ true)
      ↔ MayArchive site 2 (some worker) store)
    × Ensures (Archived 50 2 (some worker) store) (archive_task site 50 2 (some worker) store)
archive_task_iff_example = archive_task_iff site 50 2 (some worker) store store-IsSound.tasks_valid

restore_task_iff_example :
    ((is_ok (restore_task site 50 3 (some worker) store) ≡ true)
      ↔ MayRestore site 3 (some worker) store)
    × Ensures (Restored 50 3 (some worker) store) (restore_task site 50 3 (some worker) store)
restore_task_iff_example = restore_task_iff site 50 3 (some worker) store store-IsSound.tasks_valid

full_clean_task_iff_example : (full_clean_task filed ≡ ok tt) ↔ IsValid filed
full_clean_task_iff_example = full_clean_task_iff filed

cancel_active_task_reminders_lem_example :
    All
      (λ r. is_active_of (1 ∷ []) r ≡ false)
      (cancel_active_task_reminders 50 (going ∷ []) worker "ended" store).reminders
    × ((cancel_active_task_reminders 50 (going ∷ []) worker "ended" store).tasks ≡ store.tasks)
    × ((cancel_active_task_reminders 50 (going ∷ []) worker "ended" store).batches ≡ store.batches)
cancel_active_task_reminders_lem_example =
    cancel_active_task_reminders_lem 50 (going ∷ []) worker "ended" store
