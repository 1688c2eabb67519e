-- ===== src/Tasks/Effects.antt =====
-- The helpers that the services share: locking a row, saving it, the history of
-- tasks/services/activities.py, the audit log of accounts/utils.py, and the notifications of
-- tasks/services/task_notifications.py that wait for the commit. Every service runs inside
-- `transaction.atomic`: it returns the store that it leaves, and an exception leaves none, so that
-- the caller keeps the store from before.
use holansl_backend.Base.{
  ℕ, not, ◌||◌, Option, none, some, List, [], ◌∷◌, ◌++◌, map, String, ◌==◌, if◌then◌else◌, find,
  update, is_empty, strip,
}
use holansl_backend.Accounts.Data.{User}
use holansl_backend.Tasks.Data.{
  TaskActivityType, TaskBatch, Task, TaskReminder, Store, permission_denied, validation_error,
  Result, ok, err,
}

unfoldable pub require_actor : Option User → Result User
require_actor none = err (permission_denied "An active authenticated user is required.")
require_actor (some user) =
    if not user.is_authenticated || not user.is_active
    then err (permission_denied "An active authenticated user is required.")
    else ok user

-- `(reason or "").strip()`, which must not be empty
unfoldable pub clean_reason : Option String → Result String
clean_reason none = err (validation_error "reason" "A cancellation reason is required.")
clean_reason (some reason) =
    if is_empty (strip reason)
    then err (validation_error "reason" "A cancellation reason is required.")
    else ok (strip reason)

-- The row with its batch, which `select_related` joins.
unfoldable pub lock_task : ℕ → Store → Result (Task × TaskBatch)
lock_task id s = elim (find (λ t. t.id == id) s.tasks) [
  | none ↦ err (validation_error "task" "The selected task does not exist.")
  | some t ↦ elim (find (λ b. b.id == t.batch) s.batches) [
    | none ↦ err (validation_error "task" "The selected task does not exist.")
    | some b ↦ ok (t, b)
  ]
]

unfoldable pub lock_batch : ℕ → Store → Result TaskBatch
lock_batch id s = elim (find (λ b. b.id == id) s.batches) [
  | none ↦ err (validation_error "batch" "The selected task batch does not exist.")
  | some b ↦ ok b
]

-- `task.save(...)`
abbrev pub save_task : Task → Store → Store
save_task t s = record s { tasks = update (λ x. x.id == t.id) (λ _. t) s.tasks }

-- `batch.save(...)`
abbrev pub save_batch : TaskBatch → Store → Store
save_batch b s = record s { batches = update (λ x. x.id == b.id) (λ _. b) s.batches }

-- `reminder.save(...)`
abbrev pub save_reminder : TaskReminder → Store → Store
save_reminder r s = record s { reminders = update (λ x. x.id == r.id) (λ _. r) s.reminders }

abbrev pub create_batch_activity : TaskBatch → User → TaskActivityType → Store → Store
create_batch_activity b actor kind s = record s {
  activities =
      s.activities
      ++ record { task = none; batch = b.id; actor = actor.id; activity_type = kind } ∷ [];
}

abbrev pub create_task_activity : Task → User → TaskActivityType → Store → Store
create_task_activity t actor kind s = record s {
  activities =
      s.activities
      ++ record { task = some t.id; batch = t.batch; actor = actor.id; activity_type = kind } ∷ [];
}

abbrev pub create_task_activities : List Task → User → TaskActivityType → Store → Store
create_task_activities ts actor kind s = record s {
  activities =
      s.activities
      ++ map
          (λ t. record {
            task = some t.id;
            batch = t.batch;
            actor = actor.id;
            activity_type = kind;
          })
          ts;
}

abbrev pub create_audit_log : User → String → String → ℕ → Store → Store
create_audit_log user resource action id s = record s {
  audits =
      s.audits
      ++ record { user = user.id; resource = resource; action = action; object_id = id } ∷ [];
}

-- `transaction.on_commit(...)`
abbrev pub schedule : String → ℕ → List ℕ → Store → Store
schedule kind source users s = record s {
  scheduled =
      s.scheduled ++ record { notification_type = kind; source = source; users = users } ∷ [];
}

-- `[task.assigned_to for task in tasks if task.assigned_to_id]`
abbrev pub assignees : List Task → List ℕ
assignees [] = []
assignees (t ∷ ts) = elim t.assigned_to [ none ↦ assignees ts | some u ↦ u ∷ assignees ts ]

abbrev pub schedule_batch_updated_notification : TaskBatch → List Task → Store → Store
schedule_batch_updated_notification b ts = schedule "task.updated" b.id (assignees ts)

abbrev pub schedule_task_completed_notification : Task → TaskBatch → Store → Store
schedule_task_completed_notification t b s = elim b.created_by [
  | none ↦ s
  | some u ↦ schedule "task.completed" t.id (u ∷ []) s
]

abbrev pub schedule_task_cancelled_notification : Task → Store → Store
schedule_task_cancelled_notification t s = elim t.assigned_to [
  | none ↦ s
  | some u ↦ schedule "task.cancelled" t.id (u ∷ []) s
]

abbrev pub schedule_batch_cancelled_notification : TaskBatch → List Task → Store → Store
schedule_batch_cancelled_notification b ts = schedule "task.cancelled" b.id (assignees ts)
