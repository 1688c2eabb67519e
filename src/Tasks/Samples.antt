-- ===== src/Tasks/Samples.antt =====
-- A small store for the tests of the task services: a task in progress with its reminder, one that is
-- completed, and one in the archive.
use holansl_backend.Base.{ℕ, refl, true, false, Option, none, some, [], ◌∷◌, arith}
use holansl_backend.Accounts.Data.{User}
use holansl_backend.Tasks.Data.{
  TaskAssignmentType, TaskPriority, TaskStatus, Task, TaskBatch, TaskReminder, Store,
}
use holansl_backend.Tasks.Access.{Site}
use holansl_backend.Tasks.Validation.Rules.{IsValid}
use holansl_backend.Tasks.Lifecycle.Invariant.{IsSound}

abbrev pub worker : User
worker = record {
  id = 7;
  username = "ada";
  full_name = "Ada";
  email = "";
  is_authenticated = true;
  is_active = true;
  is_staff = true;
  is_superuser = false;
}

abbrev pub site : Site
site = record {
  directory = record {
    users = worker ∷ [];
    departments = [];
    profiles = [];
    leaderships = [];
    today = 100;
  };
  has_perm = λ _ _. false;
}

-- A batch that somebody else made for `worker`.
abbrev pub batch : TaskAssignmentType → TaskBatch
batch kind = record {
  id = 1;
  title = "Stock";
  description = "";
  assignment_type = kind;
  priority = TaskPriority.medium;
  start_at = none;
  due_at = none;
  source_department = none;
  source_department_name = "";
  source_department_code = "";
  created_by = some 9;
  cancelled_at = none;
  cancelled_by = none;
  cancellation_reason = "";
  archived_at = none;
  archived_by = none;
  updated_at = 0;
}

abbrev pub task : ℕ → TaskStatus → Option ℕ → Option ℕ → Task
task id status completed_at archived_at = record {
  id = id;
  batch = 1;
  assigned_to = some 7;
  assignee_name = "Ada";
  assigned_department = none;
  status = status;
  completed_at = completed_at;
  cancelled_at = none;
  cancelled_by = none;
  cancellation_reason = "";
  archived_at = archived_at;
  archived_by = none;
  updated_at = 0;
}

abbrev pub going : Task
going = task 1 TaskStatus.in_progress none none

abbrev pub done : Task
done = task 2 TaskStatus.completed (some 20) none

abbrev pub filed : Task
filed = task 3 TaskStatus.completed (some 20) (some 30)

abbrev pub reminder : TaskReminder
reminder = record {
  id = 4;
  task = 1;
  user = 7;
  remind_at = 90;
  channels = [];
  notification = none;
  cancelled_at = none;
  cancelled_by = none;
  updated_at = 0;
}

abbrev pub store : Store
store = record {
  batches = batch TaskAssignmentType.personal ∷ [];
  tasks = going ∷ done ∷ filed ∷ [];
  reminders = reminder ∷ [];
  activities = [];
  audits = [];
  outbox = record { notifications = []; deliveries = [] };
  scheduled = [];
}

pub going-IsValid : IsValid going
going-IsValid = record {
  assignee = refl;
  completion = refl;
  cancellation = refl;
  reason = λ e. ground arith;
  no_reason = λ _. refl;
  archived = λ e. ground arith;
}

pub done-IsValid : IsValid done
done-IsValid = record {
  assignee = refl;
  completion = refl;
  cancellation = refl;
  reason = λ e. ground arith;
  no_reason = λ _. refl;
  archived = λ e. refl;
}

pub filed-IsValid : IsValid filed
filed-IsValid = record {
  assignee = refl;
  completion = refl;
  cancellation = refl;
  reason = λ e. ground arith;
  no_reason = λ _. refl;
  archived = λ e. refl;
}

pub store-IsSound : IsSound store
store-IsSound = record {
  tasks_valid = (going-IsValid, (done-IsValid, (filed-IsValid, tt)));
  reminders_open = (λ _. refl, tt);
}
