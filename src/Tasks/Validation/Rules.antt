-- ===== src/Tasks/Validation/Rules.antt =====
-- `full_clean` of a task of tasks/models.py in terms of its columns.
use holansl_backend.Base.{
  ◌≡◌, ◌↔◌, true, false, not, is_some, is_empty, is_empty-strip, arith, ◌||◌,
}
use holansl_backend.Tasks.Data.{Task, ok, is_completed, is_cancelled, is_final_status}
use holansl_backend.Tasks.Validation.{is_blank, full_clean_task}

-- A stored task: it has an assignee or a name, it is archived only when final, it has a completion time
-- exactly when it is COMPLETED, a cancellation time exactly when it is CANCELLED, and then a reason
-- that is not blank, and otherwise the empty reason.
pub record IsValid (t : Task) : Type 0 where
  pub assignee : (is_some t.assigned_to || not (is_empty t.assignee_name)) ≡ true
  pub completion : is_some t.completed_at ≡ is_completed t.status
  pub cancellation : is_some t.cancelled_at ≡ is_cancelled t.status
  pub reason : is_cancelled t.status ≡ true → is_blank t.cancellation_reason ≡ false
  pub no_reason : is_cancelled t.status ≡ false → is_empty t.cancellation_reason ≡ true
  pub archived : is_some t.archived_at ≡ true → is_final_status t.status ≡ true

-- A task passes `full_clean` exactly when it is valid.
pub full_clean_task_iff : (t : Task) → (full_clean_task t ≡ ok tt) ↔ IsValid t
unfolding full_clean_task
full_clean_task_iff t = (
  λ h. ground (arith, is_empty-strip t.cancellation_reason),
  λ v. ground (arith, is_empty-strip t.cancellation_reason),
)
