-- ===== src/Tasks/Batches/Preserved.antt =====
-- The services of tasks/services/lifecycle.py that end a batch, and the invariant of the store.
use holansl_backend.Base.{
  ℕ, ◌≡◌, refl, sym, subst, ◌∙◌, false, Option, List, [], ◌∷◌, map, String, arith, select, All,
  All-zip, ◌==◌,
}
use holansl_backend.Accounts.Data.{User}
use holansl_backend.Tasks.Data.{
  TaskActivityType, Task, TaskBatch, TaskReminder, Store, ok, >>=-eq-ok,
}
use holansl_backend.Tasks.Access.{Site}
use holansl_backend.Tasks.Validation.Rules.{IsValid}
use holansl_backend.Tasks.Effects.{
  require_actor, clean_reason, save_batch, create_batch_activity, create_task_activities,
  create_audit_log,
}
use holansl_backend.Tasks.Reminders.{is_active_of, cancel_active_task_reminders}
use holansl_backend.Tasks.Reminders.Automatic.{cancel_active-All, cancel_active_task_reminders_lem}
use holansl_backend.Tasks.Lifecycle.{with_cancellation, with_archive, without_archive}
use holansl_backend.Tasks.Lifecycle.Invariant.{is_finished, Reminds, IsSound, same-IsSound}
use holansl_backend.Tasks.Batches.{
  tasks_of, save_tasks, full_clean_tasks, cancel_batch_plan, cancel_batch_effects,
  cancel_task_batch, archive_batch_plan, log_batch_effects, archive_task_batch, restore_batch_plan,
  restore_task_batch, with_batch_cancellation, with_batch_archive, without_batch_archive,
  is_affected, is_unarchived, is_archived_at,
}
use holansl_backend.Tasks.Batches.Saved.{
  full_clean_tasks-All, save_tasks-keeps, save_tasks-All, save_tasks-unfinished, is_finished-select,
  is_finished-map, is_finished-absent, change_batch-Changed,
}

-- What a plan that ended well makes.
pub cancel_batch_plan-made :
    (site : Site) (now : ℕ) (user : User) (reason : String) (all_tasks : List Task)
    (b b' : TaskBatch) (tasks ts : List Task)
    → cancel_batch_plan site now user reason all_tasks b tasks ≡ ok (b', ts)
    → (b' ≡ with_batch_cancellation now user reason b)
      × (ts ≡ map (with_cancellation now user reason) (select is_affected tasks))
      × (full_clean_tasks ts ≡ ok tt)
unfolding cancel_batch_plan
cancel_batch_plan-made site now user reason all_tasks b b' tasks ts h =
    (ground arith, ground arith, ground arith)

pub archive_batch_plan-made :
    (site : Site) (now : ℕ) (user : User) (all_tasks : List Task) (b b' : TaskBatch)
    (tasks ts : List Task)
    → archive_batch_plan site now user all_tasks b tasks ≡ ok (b', ts)
    → (b' ≡ with_batch_archive now user b)
      × (ts ≡ map (with_archive now user) (select is_unarchived tasks))
      × (full_clean_tasks ts ≡ ok tt)
unfolding archive_batch_plan
archive_batch_plan-made site now user all_tasks b b' tasks ts h =
    (ground arith, ground arith, ground arith)

restore_batch_plan-made :
    (site : Site) (now : ℕ) (user : User) (all_tasks : List Task) (b b' : TaskBatch)
    (tasks ts : List Task)
    → restore_batch_plan site now user all_tasks b tasks ≡ ok (b', ts)
    → (b' ≡ without_batch_archive now b)
      × (ts ≡ map (without_archive now) (select (is_archived_at b.archived_at) tasks))
      × (full_clean_tasks ts ≡ ok tt)
unfolding restore_batch_plan
restore_batch_plan-made site now user all_tasks b b' tasks ts h =
    (ground arith, ground arith, ground arith)

everywhere : (rs : List TaskReminder) → All (λ _. Unit {0}) rs
everywhere [] = tt
everywhere (r ∷ rs) = (tt, everywhere rs)

module _ (s : Store) (v : IsSound s) (b' : TaskBatch) (ts : List Task)
    (valid : All IsValid ts) where
  -- The tables after both saves.
  abbrev saved : Store
  saved = save_tasks ts (save_batch b' s)

  saved-IsValid : All IsValid saved.tasks
  saved-IsValid = save_tasks-All IsValid ts (save_batch b' s) valid v.tasks_valid

  -- Saved rows that finish no task that was not finished.
  saved-IsSound :
      ((k : ℕ) → is_finished s.tasks k ≡ false → is_finished ts k ≡ false) → IsSound saved
  saved-IsSound kept = record {
    tasks_valid = saved-IsValid;
    reminders_open = rw (save_tasks-keeps ts (save_batch b' s)).0 (
        All-zip (Reminds s.tasks) (λ _. Unit {0}) (Reminds saved.tasks) s.reminders
          (λ r quiet _ active.
            save_tasks-unfinished r.task ts (save_batch b' s) (quiet active)
              (kept r.task (quiet active)))
          v.reminders_open (everywhere s.reminders));
  }

  -- Any saved rows, once the reminders of their tasks are cancelled.
  closed-IsSound :
      (s₁ : Store) (now : ℕ) (user : User) (reason : String)
      → s₁.tasks ≡ saved.tasks
      → s₁.reminders ≡ s.reminders
      → IsSound (cancel_active_task_reminders now ts user reason s₁)
  closed-IsSound s₁ now user reason same_tasks same_reminders =
      let after = cancel_active_task_reminders now ts user reason s₁ in
      let (gone, kept, _) = cancel_active_task_reminders_lem now ts user reason s₁ in
      let before =
        cancel_active-All now ts user reason s₁ (Reminds s.tasks) (λ r h. ground arith)
          (rw same_reminders v.reminders_open) in
      let table : after.tasks ≡ saved.tasks = kept ∙ same_tasks in
      record {
        tasks_valid = rw table saved-IsValid;
        reminders_open = rw table (
            All-zip (Reminds s.tasks) (λ r. is_active_of (map (λ t. t.id) ts) r ≡ false)
              (Reminds saved.tasks) after.reminders
              (λ r fine quiet active.
                save_tasks-unfinished r.task ts (save_batch b' s) (fine active)
                  (is_finished-absent r.task ts (ground (arith, quiet, active))))
              before gone);
      }

module _ (site : Site) (now id : ℕ) (s : Store) (v : IsSound s) where
  -- A cancellation that `cancel_task_batch` carries out on a sound store leaves a sound one.
  pub cancel_task_batch-IsSound :
      (actor : Option User) (reason : Option String) (b' : TaskBatch) (ts : List Task) (s' : Store)
      → cancel_task_batch site now id actor reason s ≡ ok (b', ts, s')
      → IsSound s'
  unfolding cancel_task_batch cancel_batch_effects
  cancel_task_batch-IsSound actor reason b' ts s' h =
      let (user, _, h₁) = >>=-eq-ok (require_actor actor) _ h in
      let (reason', _, h₂) = >>=-eq-ok (clean_reason reason) _ h₁ in
      let c = change_batch-Changed id _ _ s b' ts s' h₂ in
      let (_, _, clean) =
        cancel_batch_plan-made site now user reason' s.tasks c.batch b' _ ts c.made in
      let valid = full_clean_tasks-All ts clean in
      let s₁ = create_audit_log user "task_batch" "cancel" b'.id (
        create_task_activities ts user TaskActivityType.task_cancelled (
          create_batch_activity b' user TaskActivityType.batch_cancelled
            (save_tasks ts (save_batch b' s)))) in
      let text : String = "The reminder was cancelled because the task assignment was cancelled." in
      let done =
        closed-IsSound s v b' ts valid s₁ now user text refl
          (save_tasks-keeps ts (save_batch b' s)).0 in
      subst IsSound (sym c.left)
        (same-IsSound (cancel_active_task_reminders now ts user text s₁) _ refl refl done)

  -- An archiving that `archive_task_batch` carries out on a sound store leaves a sound one.
  pub archive_task_batch-IsSound :
      (actor : Option User) (b' : TaskBatch) (ts : List Task) (s' : Store)
      → archive_task_batch site now id actor s ≡ ok (b', ts, s')
      → IsSound s'
  unfolding archive_task_batch log_batch_effects
  archive_task_batch-IsSound actor b' ts s' h =
      let (user, _, h₁) = >>=-eq-ok (require_actor actor) _ h in
      let c = change_batch-Changed id _ _ s b' ts s' h₁ in
      let (_, rows, clean) = archive_batch_plan-made site now user s.tasks c.batch b' _ ts c.made in
      let mine = tasks_of c.batch.id s in
      let kept : (k : ℕ) → is_finished s.tasks k ≡ false → is_finished ts k ≡ false = λ k quiet.
        rw rows (
          is_finished-map k (with_archive now user) (select is_unarchived mine) (λ _. (refl, refl))
          ∙ is_finished-select k is_unarchived mine
              (is_finished-select k (λ t. t.batch == c.batch.id) s.tasks quiet)) in
      subst IsSound (sym c.left) (
        same-IsSound (save_tasks ts (save_batch b' s)) _ refl refl
          (saved-IsSound s v b' ts (full_clean_tasks-All ts clean) kept))

  -- A restoring that `restore_task_batch` carries out on a sound store leaves a sound one.
  pub restore_task_batch-IsSound :
      (actor : Option User) (b' : TaskBatch) (ts : List Task) (s' : Store)
      → restore_task_batch site now id actor s ≡ ok (b', ts, s')
      → IsSound s'
  unfolding restore_task_batch log_batch_effects
  restore_task_batch-IsSound actor b' ts s' h =
      let (user, _, h₁) = >>=-eq-ok (require_actor actor) _ h in
      let c = change_batch-Changed id _ _ s b' ts s' h₁ in
      let (_, rows, clean) = restore_batch_plan-made site now user s.tasks c.batch b' _ ts c.made in
      let mine = tasks_of c.batch.id s in
      let original = c.batch.archived_at in
      let kept : (k : ℕ) → is_finished s.tasks k ≡ false → is_finished ts k ≡ false = λ k quiet.
        rw rows (
          is_finished-map k (without_archive now) (select (is_archived_at original) mine)
            (λ _. (refl, refl))
          ∙ is_finished-select k (is_archived_at original) mine
              (is_finished-select k (λ t. t.batch == c.batch.id) s.tasks quiet)) in
      subst IsSound (sym c.left) (
        same-IsSound (save_tasks ts (save_batch b' s)) _ refl refl
          (saved-IsSound s v b' ts (full_clean_tasks-All ts clean) kept))
