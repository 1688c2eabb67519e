-- ===== src/Tasks/Batches/Tests.antt =====
-- Runs of the batch services on small stores, and the theorems at these inputs.
use holansl_backend.Base.{
  ℕ, ◌≡◌, refl, true, false, Option, none, some, List, [], ◌∷◌, String, strip, find, All, ◌==◌,
}
use holansl_backend.Tasks.Data.{
  TaskAssignmentType, TaskActivityType, Task, TaskBatch, TaskActivity, AuditLog, Store,
  permission_denied, ok, err,
}
use holansl_backend.Tasks.Access.{Site, can_manage_batch}
use holansl_backend.Tasks.Validation.{full_clean_task, full_clean_batch}
use holansl_backend.Tasks.Effects.{require_actor, clean_reason, lock_batch}
use holansl_backend.Tasks.Reminders.{
  cancel_active_task_reminders, cancel_reminders_after_batch_due_at,
}
use holansl_backend.Tasks.Reminders.Deadlines.{is_overdue, cancel_reminders_after_batch_due_at_lem}
use holansl_backend.Tasks.Lifecycle.{with_cancellation, with_archive, without_archive}
use holansl_backend.Tasks.Lifecycle.Invariant.{IsSound}
use holansl_backend.Tasks.Samples.{
  worker, site, batch, going, done, filed, reminder, store, done-IsValid, filed-IsValid,
  store-IsSound,
}
use holansl_backend.Tasks.Batches.{
  save_tasks, full_clean_tasks, change_batch, with_batch_cancellation, with_batch_archive,
  without_batch_archive, cancel_batch_plan, cancel_batch_effects, cancel_task_batch,
  archive_batch_plan, log_batch_effects, archive_task_batch, restore_batch_plan, restore_task_batch,
}
use holansl_backend.Tasks.Batches.Editing.{
  Change, title, due_at, apply_changes, edit_plan, update_effects, update_task_batch,
}
use holansl_backend.Tasks.Batches.Closed.{
  is_over_in, is_filed_in, cancel_task_batch_lem, archive_task_batch_lem,
}
use holansl_backend.Tasks.Batches.Edited.{IsPunctual, update_task_batch-IsPunctual}

-- Everybody may do everything.
abbrev lenient : Site
lenient = record site { has_perm = λ _ _. true }

abbrev stock : TaskBatch
stock = batch TaskAssignmentType.personal

abbrev entry : Option ℕ → TaskActivityType → TaskActivity
entry id kind = record { task = id; batch = 1; actor = 7; activity_type = kind }

abbrev log : String → String → ℕ → AuditLog
log resource action id = record { user = 7; resource = resource; action = action; object_id = id }

abbrev cancelled_stock : TaskBatch
cancelled_stock = with_batch_cancellation 50 worker "closed" stock

abbrev cancelled_going : List Task
cancelled_going = with_cancellation 50 worker "closed" going ∷ []

abbrev after_cancellation : Store
after_cancellation = record store {
  batches = cancelled_stock ∷ [];
  tasks = with_cancellation 50 worker "closed" going ∷ done ∷ filed ∷ [];
  reminders =
      record reminder { cancelled_at = some 50; cancelled_by = some 7; updated_at = 50 } ∷ [];
  activities =
      entry none TaskActivityType.batch_cancelled
      ∷ entry (some 1) TaskActivityType.task_cancelled
      ∷ entry (some 1) TaskActivityType.reminder_cancelled
      ∷ [];
  audits = log "task_batch" "cancel" 1 ∷ log "task_reminder" "automatic_cancel" 4 ∷ [];
  scheduled = record { notification_type = "task.cancelled"; source = 1; users = 7 ∷ [] } ∷ [];
}

cancels :
    cancel_task_batch lenient 50 1 (some worker) (some "closed") store
    ≡ ok (cancelled_stock, cancelled_going, after_cancellation)
unfolding require_actor clean_reason lock_batch can_manage_batch full_clean_task full_clean_batch
    full_clean_tasks strip save_tasks change_batch cancel_batch_plan cancel_batch_effects
    cancel_task_batch cancel_active_task_reminders
cancels = refl

-- Without the permission the batch stays.
refuses :
    cancel_task_batch site 50 1 (some worker) (some "closed") store
    ≡ err (permission_denied "You do not have permission to cancel this task assignment.")
unfolding require_actor clean_reason lock_batch can_manage_batch strip change_batch
    cancel_batch_plan cancel_task_batch
refuses = refl

-- Every task is finished, one of them in the archive.
abbrev finished : Store
finished = record store { tasks = done ∷ filed ∷ []; reminders = [] }

finished-IsSound : IsSound finished
finished-IsSound = record { tasks_valid = (done-IsValid, (filed-IsValid, tt)); reminders_open = tt }

abbrev after_archive : Store
after_archive = record finished {
  batches = with_batch_archive 50 worker stock ∷ [];
  tasks = with_archive 50 worker done ∷ filed ∷ [];
  activities =
      entry none TaskActivityType.batch_archived
      ∷ entry (some 2) TaskActivityType.task_archived
      ∷ [];
  audits = log "task_batch" "archive" 1 ∷ [];
}

archives :
    archive_task_batch lenient 50 1 (some worker) finished
    ≡ ok (with_batch_archive 50 worker stock, with_archive 50 worker done ∷ [], after_archive)
unfolding require_actor lock_batch can_manage_batch full_clean_task full_clean_tasks strip
    save_tasks change_batch archive_batch_plan log_batch_effects archive_task_batch
archives = refl

-- The batch went to the archive together with the second task.
abbrev archived : Store
archived = record finished { batches = record stock { archived_at = some 30 } ∷ [] }

archived-IsSound : IsSound archived
archived-IsSound = record { tasks_valid = (done-IsValid, (filed-IsValid, tt)); reminders_open = tt }

abbrev after_restore : Store
after_restore = record archived {
  batches = without_batch_archive 50 stock ∷ [];
  tasks = done ∷ without_archive 50 filed ∷ [];
  activities =
      entry none TaskActivityType.batch_restored
      ∷ entry (some 3) TaskActivityType.task_restored
      ∷ [];
  audits = log "task_batch" "restore" 1 ∷ [];
}

restores :
    restore_task_batch lenient 50 1 (some worker) archived
    ≡ ok (without_batch_archive 50 stock, without_archive 50 filed ∷ [], after_restore)
unfolding require_actor lock_batch can_manage_batch full_clean_task full_clean_tasks strip
    save_tasks change_batch restore_batch_plan log_batch_effects restore_task_batch
restores = refl

abbrev changes : List Change
changes = title (some " Count ") ∷ due_at (some 80) ∷ []

abbrev count : TaskBatch
count = record stock { title = "Count"; due_at = some 80; updated_at = 50 }

abbrev after_update : Store
after_update = record store {
  batches = count ∷ [];
  reminders =
      record reminder { cancelled_at = some 50; cancelled_by = some 7; updated_at = 50 } ∷ [];
  activities =
      entry (some 1) TaskActivityType.reminder_cancelled
      ∷ entry none TaskActivityType.batch_updated
      ∷ entry (some 1) TaskActivityType.task_details_updated
      ∷ entry (some 2) TaskActivityType.task_details_updated
      ∷ entry (some 3) TaskActivityType.task_details_updated
      ∷ [];
  audits = log "task_batch" "update" 1 ∷ [];
  scheduled =
      record { notification_type = "task.updated"; source = 1; users = 7 ∷ 7 ∷ 7 ∷ [] } ∷ [];
}

updates : update_task_batch lenient 50 1 (some worker) changes store ≡ ok (count, after_update)
unfolding require_actor lock_batch can_manage_batch full_clean_batch strip apply_changes edit_plan
    update_effects update_task_batch cancel_reminders_after_batch_due_at
updates = refl

cancel_task_batch_lem_example :
    (find (λ b. b.id == 1) after_cancellation.batches ≡ some cancelled_stock)
    × (cancelled_stock.cancelled_at ≡ some 50)
    × All (λ t. is_over_in 1 t ≡ true) after_cancellation.tasks
    × All (λ t. t.cancelled_at ≡ some 50) cancelled_going
cancel_task_batch_lem_example =
    cancel_task_batch_lem lenient 50 1 (some worker) store cancelled_stock cancelled_going
      after_cancellation (some "closed") store-IsSound.tasks_valid cancels

archive_task_batch_lem_example :
    (find (λ b. b.id == 1) after_archive.batches ≡ some (with_batch_archive 50 worker stock))
    × ((with_batch_archive 50 worker stock).archived_at ≡ some 50)
    × All (λ t. is_filed_in 1 t ≡ true) after_archive.tasks
archive_task_batch_lem_example =
    archive_task_batch_lem lenient 50 1 (some worker) finished (with_batch_archive 50 worker stock)
      (with_archive 50 worker done ∷ []) after_archive archives

store-IsPunctual : IsPunctual store
store-IsPunctual = ((refl, tt), tt)

update_task_batch-IsPunctual_example : IsPunctual after_update
update_task_batch-IsPunctual_example =
    update_task_batch-IsPunctual lenient 50 1 (some worker) changes store count after_update
      store-IsPunctual updates

cancel_reminders_after_batch_due_at_lem_example :
    All
      (λ r. is_overdue count store.tasks r ≡ false)
      (cancel_reminders_after_batch_due_at 50 count worker store).reminders
    × ((cancel_reminders_after_batch_due_at 50 count worker store).tasks ≡ store.tasks)
    × ((cancel_reminders_after_batch_due_at 50 count worker store).batches ≡ store.batches)
cancel_reminders_after_batch_due_at_lem_example =
    cancel_reminders_after_batch_due_at_lem 50 count worker store
