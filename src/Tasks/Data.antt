-- ===== src/Tasks/Data.antt =====
-- The rows and enumerations of tasks/models.py and tasks/constants.py, and the store that the
-- services read and write. A task's `batch` and a reminder's `task` are ids.
pub use holansl_backend.Base.{
  Error, permission_denied, validation_error, Result, ok, err, check, Result-cases, ◌>>=◌,
  >>=-eq-ok, ◌>>◌,
}
use holansl_backend.Base.{ℕ, Bool, true, false, Option, List, String, ◌==◌}
use holansl_backend.Notifications.Data.{NotificationChannel, Store as Outbox}

pub data TaskAssignmentType : Type 0 where
  personal users department : TaskAssignmentType

pub data TaskPriority : Type 0 where
  low medium high urgent : TaskPriority

pub data TaskStatus : Type 0 where
  to_do in_progress blocked completed cancelled : TaskStatus

pub data TaskActivityType : Type 0 where
  batch_created batch_updated batch_cancelled batch_archived batch_restored : TaskActivityType
  task_assigned task_details_updated status_changed : TaskActivityType
  task_cancelled task_archived task_restored : TaskActivityType
  reminder_created reminder_updated reminder_cancelled : TaskActivityType

pub record TaskBatch : Type 0 where
  pub id : ℕ
  pub title : String
  pub description : String
  pub assignment_type : TaskAssignmentType
  pub priority : TaskPriority
  pub start_at : Option ℕ
  pub due_at : Option ℕ
  pub source_department : Option ℕ
  pub source_department_name : String
  pub source_department_code : String
  pub created_by : Option ℕ
  pub cancelled_at : Option ℕ
  pub cancelled_by : Option ℕ
  pub cancellation_reason : String
  pub archived_at : Option ℕ
  pub archived_by : Option ℕ
  pub updated_at : ℕ

pub record Task : Type 0 where
  pub id : ℕ
  pub batch : ℕ
  pub assigned_to : Option ℕ
  pub assignee_name : String
  pub assigned_department : Option ℕ
  pub status : TaskStatus
  pub completed_at : Option ℕ
  pub cancelled_at : Option ℕ
  pub cancelled_by : Option ℕ
  pub cancellation_reason : String
  pub archived_at : Option ℕ
  pub archived_by : Option ℕ
  pub updated_at : ℕ

pub record TaskReminder : Type 0 where
  pub id : ℕ
  pub task : ℕ
  pub user : ℕ
  pub remind_at : ℕ
  pub channels : List NotificationChannel
  pub notification : Option ℕ
  pub cancelled_at : Option ℕ
  pub cancelled_by : Option ℕ
  pub updated_at : ℕ

-- An entry of the append-only history: its target, its author and its type.
pub record TaskActivity : Type 0 where
  pub task : Option ℕ
  pub batch : ℕ
  pub actor : ℕ
  pub activity_type : TaskActivityType

-- A row of the audit log, by its resource, its action and the object's id.
pub record AuditLog : Type 0 where
  pub user : ℕ
  pub resource : String
  pub action : String
  pub object_id : ℕ

-- A notification that `transaction.on_commit` will send: its type, its source and its recipients.
pub record Scheduled : Type 0 where
  pub notification_type : String
  pub source : ℕ
  pub users : List ℕ

pub record Store : Type 0 where
  pub batches : List TaskBatch
  pub tasks : List Task
  pub reminders : List TaskReminder
  pub activities : List TaskActivity
  pub audits : List AuditLog
  pub outbox : Outbox
  pub scheduled : List Scheduled

abbrev pub is_personal : TaskAssignmentType → Bool
is_personal personal = true
is_personal _ = false

abbrev pub is_department : TaskAssignmentType → Bool
is_department department = true
is_department _ = false

abbrev pub is_completed : TaskStatus → Bool
is_completed completed = true
is_completed _ = false

abbrev pub is_cancelled : TaskStatus → Bool
is_cancelled cancelled = true
is_cancelled _ = false

-- `ACTIVE_TASK_STATUSES`
abbrev pub is_active_status : TaskStatus → Bool
is_active_status completed = false
is_active_status cancelled = false
is_active_status _ = true

-- `FINAL_TASK_STATUSES`
abbrev pub is_final_status : TaskStatus → Bool
is_final_status completed = true
is_final_status cancelled = true
is_final_status _ = false

-- Equality of statuses, by their position among the choices.
abbrev pub status_index : TaskStatus → ℕ
status_index to_do = 0
status_index in_progress = 1
status_index blocked = 2
status_index completed = 3
status_index cancelled = 4

abbrev pub same_status : TaskStatus → TaskStatus → Bool
same_status a b = status_index a == status_index b
