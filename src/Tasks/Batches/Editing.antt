-- ===== src/Tasks/Batches/Editing.antt =====
-- `update_task_batch` of tasks/services/lifecycle.py. The texts of `changes` are those that a
-- serializer passed on.
use text.Mathlib.Text.{◌==◌ as ◌=ₛ◌}
use holansl_backend.Base.{
  ℕ, Bool, true, false, not, ◌&&◌, ◌||◌, Option, none, some, List, [], ◌∷◌, String, ◌==◌,
  if◌then◌else◌, is_some, is_empty, strip, eq_option, any,
}
use holansl_backend.Accounts.Data.{User}
use holansl_backend.Tasks.Data.{
  TaskPriority, low, medium, high, urgent, TaskActivityType, Task, TaskBatch, Store,
  permission_denied, validation_error, Result, ok, err, ◌>>=◌, ◌>>◌, check,
}
use holansl_backend.Tasks.Access.{Site, can_manage_batch}
use holansl_backend.Tasks.Validation.{full_clean_batch}
use holansl_backend.Tasks.Effects.{
  require_actor, lock_batch, save_batch, create_batch_activity, create_task_activities,
  create_audit_log, schedule_batch_updated_notification,
}
use holansl_backend.Tasks.Reminders.{cancel_reminders_after_batch_due_at}
use holansl_backend.Tasks.Batches.{tasks_of}

-- An entry of `changes`.
pub data Change : Type 0 where
  title description : Option String → Change
  priority : TaskPriority → Change
  start_at due_at : Option ℕ → Change
  unknown_field : String → Change

abbrev pub is_unknown : Change → Bool
is_unknown (unknown_field f) = true
is_unknown _ = false

-- Equality of priorities, by their position among the choices.
abbrev pub priority_index : TaskPriority → ℕ
priority_index low = 0
priority_index medium = 1
priority_index high = 2
priority_index urgent = 3

-- `(value or "").strip()`
abbrev pub clean_text : Option String → String
clean_text none = ""
clean_text (some value) = strip value

-- The batch with the new value, and whether it differs from the old one.
unfoldable pub apply_change : Change → TaskBatch → Result (TaskBatch × Bool)
apply_change (title value) b = do
  check (not (is_empty (clean_text value))) (validation_error "title" "A task title is required.")
  ok (record b { title = clean_text value }, not (b.title =ₛ clean_text value))
apply_change (description value) b =
    ok (record b { description = clean_text value }, not (b.description =ₛ clean_text value))
apply_change (priority value) b =
    ok (record b { priority = value }, not (priority_index b.priority == priority_index value))
apply_change (start_at value) b =
    ok (record b { start_at = value }, not (eq_option b.start_at value))
apply_change (due_at value) b = ok (record b { due_at = value }, not (eq_option b.due_at value))
apply_change (unknown_field f) b = err (validation_error "fields" "Unsupported task fields.")

abbrev pub is_due_at : Change → Bool
is_due_at (due_at value) = true
is_due_at _ = false

-- The loop over `changes`: the batch, whether `changed_fields` is not empty, and whether it has `due_at`.
unfoldable pub apply_changes : List Change → TaskBatch → Result (TaskBatch × Bool × Bool)
unfolding apply_change
apply_changes [] b = ok (b, false, false)
apply_changes (c ∷ cs) b = do
  (b₁, changed) ← apply_change c b
  (b₂, others, deadline) ← apply_changes cs b₁
  ok (b₂, changed || others, changed && is_due_at c || deadline)

-- What follows the new details `b'`.
unfoldable pub update_effects : ℕ → User → Bool → TaskBatch → Store → Store
update_effects now user deadline b s =
    let s₁ = save_batch b s in
    let s₂ = if deadline then cancel_reminders_after_batch_due_at now b user s₁ else s₁ in
    let tasks = tasks_of b.id s₂ in
    schedule_batch_updated_notification b tasks (
      create_audit_log user "task_batch" "update" b.id (
        create_task_activities tasks user TaskActivityType.task_details_updated
          (create_batch_activity b user TaskActivityType.batch_updated s₂)))

-- The checks on the locked batch: the batch to be saved, whether anything changed, and whether the
-- deadline did.
unfoldable pub edit_plan :
    Site → ℕ → User → List Task → List Change → TaskBatch → Result (TaskBatch × Bool × Bool)
unfolding apply_changes
edit_plan site now user all_tasks changes b = do
  check (can_manage_batch site user b all_tasks)
      (permission_denied "You do not have permission to edit this task assignment.")
  check (not (is_some b.cancelled_at))
      (validation_error "" "A cancelled task assignment cannot be edited.")
  check (not (is_some b.archived_at))
      (validation_error "" "An archived task assignment cannot be edited.")
  check (not (any is_unknown changes)) (validation_error "fields" "Unsupported task fields.")
  (b₁, changed, deadline) ← apply_changes changes b
  elim changed [
    | false ↦ ok (b, false, false)
    | true ↦ do
      full_clean_batch (record b₁ { updated_at = now })
      ok (record b₁ { updated_at = now }, true, deadline)
  ]

unfoldable pub update_task_batch :
    Site → ℕ → ℕ → Option User → List Change → Store → Result (TaskBatch × Store)
update_task_batch site now id actor changes s = do
  user ← require_actor actor
  b ← lock_batch id s
  (b', changed, deadline) ← edit_plan site now user s.tasks changes b
  elim changed [ false ↦ ok (b', s) | true ↦ ok (b', update_effects now user deadline b' s) ]
