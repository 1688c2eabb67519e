-- ===== src/Tasks/Lifecycle/Invariant.antt =====
-- The invariant of the task store for tasks/services/lifecycle.py: valid tasks, and active reminders
-- only of tasks that are not finished.
use holansl_backend.Base.{
  ℕ, ◌≡◌, refl, subst, ◌∙◌, Bool, true, false, ◌&&◌, some, List, [], ◌∷◌, String, arith, is_some,
  inl, inr, Option-cases, Bool-cases, find, any, update, All, All-update, All-zip, ◌==◌,
}
use holansl_backend.Accounts.Data.{User}
use holansl_backend.Tasks.Data.{
  Task, TaskBatch, TaskReminder, Store, Result, ok, Result-cases, is_final_status,
}
use holansl_backend.Tasks.Validation.Rules.{IsValid}
use holansl_backend.Tasks.Effects.{lock_task, save_task}
use holansl_backend.Tasks.Reminders.{is_active_of, cancel_active_task_reminders}
use holansl_backend.Tasks.Reminders.Automatic.{cancel_active-All, cancel_active_task_reminders_lem}
use holansl_backend.Tasks.Lifecycle.{change_task}

-- Some finished task has this id.
abbrev pub is_finished : List Task → ℕ → Bool
is_finished tasks k = any (λ t. t.id == k && is_final_status t.status) tasks

-- An active reminder's task is not finished.
abbrev pub Reminds : List Task → TaskReminder → Type 0
Reminds tasks r = is_some r.cancelled_at ≡ false → is_finished tasks r.task ≡ false

pub record IsSound (s : Store) : Type 0 where
  pub tasks_valid : All IsValid s.tasks
  pub reminders_open : All (Reminds s.tasks) s.reminders

pub is_finished-save :
    (k : ℕ) (t : Task) (ts : List Task)
    → is_finished ts k ≡ false
    → (t.id == k && is_final_status t.status) ≡ false
    → is_finished (update (λ x. x.id == t.id) (λ _. t) ts) k ≡ false
is_finished-save k t [] h n = refl
is_finished-save k t (x ∷ ts) h n = ground (arith, is_finished-save k t ts)

is_finished-find :
    (k : ℕ) (ts : List Task) (t : Task)
    → find (λ x. x.id == k) ts ≡ some t
    → is_final_status t.status ≡ true
    → is_finished ts k ≡ true
is_finished-find k [] t e f = cc
is_finished-find k (x ∷ ts) t e f = ground (arith, is_finished-find k ts t)

find-task_id : (k : ℕ) (ts : List Task) (t : Task) → find (λ x. x.id == k) ts ≡ some t → t.id ≡ k
find-task_id k [] t e = cc
find-task_id k (x ∷ ts) t e = ground (arith, find-task_id k ts t)

-- The rows that a lock gives out stand in the tables.
pub lock_task_lem :
    (id : ℕ) (s : Store) (t : Task) (b : TaskBatch)
    → lock_task id s ≡ ok (t, b)
    → (find (λ x. x.id == id) s.tasks ≡ some t)
      × (find (λ x. x.id == t.batch) s.batches ≡ some b)
      × (t.id ≡ id)
unfolding lock_task
lock_task_lem id s t b h = elim (Option-cases (find (λ x. x.id == id) s.tasks)) [
  | inl e ↦ ground arith
  | inr (t', e) ↦ elim (Option-cases (find (λ x. x.id == t'.batch) s.batches)) [
    | inl e' ↦ ground arith
    | inr (b', e') ↦ ground (arith, find-task_id id s.tasks t' e)
  ]
]

-- What a change of a task did, in parts.
pub record Changed (id : ℕ) (row : Task → TaskBatch → Result Task)
    (effects : Task → TaskBatch → Store → Store) (s : Store) (t' : Task) (s' : Store) : Type 0 where
  pub task : Task
  pub batch : TaskBatch
  pub locked : lock_task id s ≡ ok (task, batch)
  pub made : row task batch ≡ ok t'
  pub left : s' ≡ effects t' batch (save_task t' s)

pub change_task-Changed :
    (id : ℕ) (row : Task → TaskBatch → Result Task) (effects : Task → TaskBatch → Store → Store)
    (s : Store) (t' : Task) (s' : Store)
    → change_task id row effects s ≡ ok (t', s')
    → Changed id row effects s t' s'
unfolding change_task
change_task-Changed id row effects s t' s' h = elim (Result-cases (lock_task id s)) [
  | inl ((t, b), locked) ↦ elim (Result-cases (row t b)) [
    | inl (r, made) ↦ record {
      task = t;
      batch = b;
      locked = locked;
      made = ground arith;
      left = ground arith;
    }
    | inr (e, refused) ↦ ground arith
  ]
  | inr (e, refused) ↦ ground arith
]

-- The invariant reads two tables.
pub same-IsSound :
    (s s' : Store) → s'.tasks ≡ s.tasks → s'.reminders ≡ s.reminders → IsSound s → IsSound s'
same-IsSound s s' same_tasks same_reminders v = record {
  tasks_valid = rw same_tasks v.tasks_valid;
  reminders_open = rw (same_tasks, same_reminders) v.reminders_open;
}

module _ (s : Store) (v : IsSound s) (t' : Task) (valid : IsValid t') where
  save_task-IsValid : All IsValid (save_task t' s).tasks
  save_task-IsValid = All-update IsValid _ _ s.tasks (λ _ _ _. valid) v.tasks_valid

  -- A saved row that is final only where the stored one was.
  pub save_task-IsSound :
      (t : Task)
      → find (λ x. x.id == t'.id) s.tasks ≡ some t
      → (is_final_status t'.status ≡ true → is_final_status t.status ≡ true)
      → IsSound (save_task t' s)
  save_task-IsSound t found kept = record {
    tasks_valid = save_task-IsValid;
    reminders_open =
        All-zip (Reminds s.tasks) (λ _. Unit {0}) (Reminds (save_task t' s).tasks) s.reminders
          (λ r quiet _ active.
            is_finished-save r.task t' s.tasks (quiet active) (unfinished r (quiet active)))
          v.reminders_open (everywhere s.reminders);
  }
    where
      everywhere : (rs : List TaskReminder) → All (λ _. Unit {0}) rs
      everywhere [] = tt
      everywhere (r ∷ rs) = (tt, everywhere rs)

      unfinished :
          (r : TaskReminder)
          → is_finished s.tasks r.task ≡ false
          → (t'.id == r.task && is_final_status t'.status) ≡ false
      unfinished r none_finished =
          elim (Bool-cases (t'.id == r.task && is_final_status t'.status)) [
            | inr e ↦ e
            | inl e ↦
                let same : t'.id ≡ r.task = ground arith in
                let found' = subst (λ k. find (λ x. x.id == k) s.tasks ≡ some t) same found in
                ground (arith, is_finished-find r.task s.tasks t found' (kept (ground arith)))
          ]

  -- Any saved row, once the reminders of its task are cancelled.
  pub cancelled-IsSound :
      (s₁ : Store) (now : ℕ) (user : User) (reason : String)
      → s₁.tasks ≡ (save_task t' s).tasks
      → s₁.reminders ≡ s.reminders
      → IsSound (cancel_active_task_reminders now (t' ∷ []) user reason s₁)
  cancelled-IsSound s₁ now user reason same_tasks same_reminders =
      let after = cancel_active_task_reminders now (t' ∷ []) user reason s₁ in
      let (gone, kept, _) = cancel_active_task_reminders_lem now (t' ∷ []) user reason s₁ in
      let before =
        cancel_active-All now (t' ∷ []) user reason s₁ (Reminds s.tasks) (λ r h. ground arith)
          (rw same_reminders v.reminders_open) in
      let table : after.tasks ≡ (save_task t' s).tasks = kept ∙ same_tasks in
      record {
        tasks_valid = rw table save_task-IsValid;
        reminders_open = rw table (
            All-zip (Reminds s.tasks) (λ r. is_active_of (t'.id ∷ []) r ≡ false)
              (Reminds (save_task t' s).tasks) after.reminders
              (λ r fine quiet active.
                is_finished-save r.task t' s.tasks (fine active) (ground (arith, quiet, active)))
              before gone);
      }
