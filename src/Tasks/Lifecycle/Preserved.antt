-- ===== src/Tasks/Lifecycle/Preserved.antt =====
-- The four services of tasks/services/lifecycle.py on one task, and the invariant of the store.
use holansl_backend.Base.{
  ℕ, ◌≡◌, refl, sym, ap, subst, ◌∙◌, true, Option, none, some, [], ◌∷◌, String, arith, inl, inr,
  Option-cases, Bool-cases, find, All-find, ◌==◌,
}
use holansl_backend.Accounts.Data.{User}
use holansl_backend.Tasks.Data.{
  TaskStatus, TaskActivityType, Task, TaskBatch, Store, ok, >>=-eq-ok, is_completed,
  is_final_status,
}
use holansl_backend.Tasks.Access.{Site}
use holansl_backend.Tasks.Validation.Rules.{IsValid}
use holansl_backend.Tasks.Effects.{
  require_actor, clean_reason, save_task, create_task_activity, create_audit_log,
}
use holansl_backend.Tasks.Reminders.{cancel_active_task_reminders}
use holansl_backend.Tasks.Lifecycle.{
  transition_row, transition_effects, transition_task_status, cancel_effects, cancel_task,
  log_effects, archive_task, restore_task,
}
use holansl_backend.Tasks.Lifecycle.Outcomes.{
  transition_row_iff, cancel_row_iff, archive_row_iff, restore_row_iff, clean_reason_lem,
  can_transition-moves,
}
use holansl_backend.Tasks.Lifecycle.Invariant.{
  IsSound, lock_task_lem, change_task-Changed, same-IsSound, save_task-IsSound, cancelled-IsSound,
}

module _ (site : Site) (now id : ℕ) (s : Store) (v : IsSound s) where
  found-IsValid : {t : Task} → find (λ x. x.id == id) s.tasks ≡ some t → IsValid t
  found-IsValid e = All-find IsValid (λ x. x.id == id) s.tasks v.tasks_valid e

  transition_effects-IsSound :
      (user : User) (t t' : Task) (b : TaskBatch)
      → find (λ x. x.id == t'.id) s.tasks ≡ some t
      → (is_final_status t'.status ≡ true → is_completed t'.status ≡ true)
      → IsValid t'
      → IsSound (transition_effects now user t' b (save_task t' s))
  unfolding transition_effects
  transition_effects-IsSound user t t' b found only valid =
      let s₁ =
        create_audit_log user "task" "status_change" t'.id
          (create_task_activity t' user TaskActivityType.status_changed (save_task t' s)) in
      let reason : String = "The reminder was cancelled because the task was completed." in
      elim (Bool-cases (is_completed t'.status)) [
        | inl e ↦
            let done = cancelled-IsSound s v t' valid s₁ now user reason refl refl in
            let s₂ = cancel_active_task_reminders now (t' ∷ []) user reason s₁ in
            same-IsSound s₂ _ (ground (arith, e)) (ground (arith, e)) done
        | inr e ↦
            let saved = save_task-IsSound s v t' valid t found (λ f. ground (arith, only f, e)) in
            same-IsSound (save_task t' s) _ (ground (arith, e)) (ground (arith, e)) saved
      ]

  unknown_status :
      (user : User) (t t' : Task) (b : TaskBatch)
      → ¬ (transition_row site now none user t b ≡ ok t')
  unfolding transition_row
  unknown_status user t t' b h = ground arith

  -- A change of status that `transition_task_status` carries out on a sound store leaves a sound one:
  -- all tasks valid, and no active reminder of a finished task.
  pub transition_task_status-IsSound :
      (actor : Option User) (new_status : Option TaskStatus) (t' : Task) (s' : Store)
      → transition_task_status site now id actor new_status s ≡ ok (t', s')
      → IsSound s'
  unfolding transition_task_status
  transition_task_status-IsSound actor none t' s' h =
      let (user, _, h₁) = >>=-eq-ok (require_actor actor) _ h in
      let c = change_task-Changed id _ _ s t' s' h₁ in
      absurd (unknown_status user c.task t' c.batch c.made)
  transition_task_status-IsSound actor (some status) t' s' h =
      let (user, _, h₁) = >>=-eq-ok (require_actor actor) _ h in
      let c = change_task-Changed id _ _ s t' s' h₁ in
      let (found, _, same) = lock_task_lem id s c.task c.batch c.locked in
      let (may, made, valid) =
        (transition_row_iff site now status user c.task t' c.batch (found-IsValid found)).0
          c.made in
      let same' : t'.id ≡ id = ap (λ x. x.id) made ∙ same in
      let found' = subst (λ k. find (λ x. x.id == k) s.tasks ≡ some c.task) (sym same') found in
      let (active, _, _) = can_transition-moves c.task.status status may.edge in
      let only : is_final_status t'.status ≡ true → is_completed t'.status ≡ true =
        rw made (λ f. ground (arith, active, f)) in
      subst IsSound (sym c.left)
        (transition_effects-IsSound user c.task t' c.batch found' only valid)

  -- A cancellation that `cancel_task` carries out on a sound store leaves a sound one.
  pub cancel_task-IsSound :
      (actor : Option User) (reason : Option String) (t' : Task) (s' : Store)
      → cancel_task site now id actor reason s ≡ ok (t', s')
      → IsSound s'
  unfolding cancel_task cancel_effects
  cancel_task-IsSound actor reason t' s' h =
      let (user, _, h₁) = >>=-eq-ok (require_actor actor) _ h in
      let (reason', cleaned, h₂) = >>=-eq-ok (clean_reason reason) _ h₁ in
      let c = change_task-Changed id _ _ s t' s' h₂ in
      let (found, _, _) = lock_task_lem id s c.task c.batch c.locked in
      let (_, _, _, _, valid) =
        (cancel_row_iff site now user reason' c.task t' c.batch (found-IsValid found)
            (clean_reason_lem reason reason' cleaned).0).0
          c.made in
      let s₁ =
        create_audit_log user "task" "cancel" t'.id
          (create_task_activity t' user TaskActivityType.task_cancelled (save_task t' s)) in
      let text : String = "The reminder was cancelled because the task was cancelled." in
      let s₂ = cancel_active_task_reminders now (t' ∷ []) user text s₁ in
      let done = cancelled-IsSound s v t' valid s₁ now user text refl refl in
      let sound : IsSound (cancel_effects now user t' c.batch (save_task t' s)) =
        elim (Option-cases t'.assigned_to) [
          | inl e ↦ same-IsSound s₂ _ (ground (arith, e)) (ground (arith, e)) done
          | inr (u, e) ↦ same-IsSound s₂ _ (ground (arith, e)) (ground (arith, e)) done
        ] in
      subst IsSound (sym c.left) sound

  -- An archiving that `archive_task` carries out on a sound store leaves a sound one.
  pub archive_task-IsSound :
      (actor : Option User) (t' : Task) (s' : Store)
      → archive_task site now id actor s ≡ ok (t', s')
      → IsSound s'
  unfolding archive_task log_effects
  archive_task-IsSound actor t' s' h =
      let (user, _, h₁) = >>=-eq-ok (require_actor actor) _ h in
      let c = change_task-Changed id _ _ s t' s' h₁ in
      let (found, _, same) = lock_task_lem id s c.task c.batch c.locked in
      let (_, _, final, made, valid) =
        (archive_row_iff site now user c.task t' c.batch (found-IsValid found)).0 c.made in
      let same' : t'.id ≡ id = ap (λ x. x.id) made ∙ same in
      let found' = subst (λ k. find (λ x. x.id == k) s.tasks ≡ some c.task) (sym same') found in
      let saved = save_task-IsSound s v t' valid c.task found' (λ _. final) in
      subst IsSound (sym c.left) (same-IsSound (save_task t' s) _ refl refl saved)

  -- A restoring that `restore_task` carries out on a sound store leaves a sound one.
  pub restore_task-IsSound :
      (actor : Option User) (t' : Task) (s' : Store)
      → restore_task site now id actor s ≡ ok (t', s')
      → IsSound s'
  unfolding restore_task log_effects
  restore_task-IsSound actor t' s' h =
      let (user, _, h₁) = >>=-eq-ok (require_actor actor) _ h in
      let c = change_task-Changed id _ _ s t' s' h₁ in
      let (found, _, same) = lock_task_lem id s c.task c.batch c.locked in
      let (_, _, _, made, valid) =
        (restore_row_iff site now user c.task t' c.batch (found-IsValid found)).0 c.made in
      let same' : t'.id ≡ id = ap (λ x. x.id) made ∙ same in
      let found' = subst (λ k. find (λ x. x.id == k) s.tasks ≡ some c.task) (sym same') found in
      let kept : is_final_status t'.status ≡ true → is_final_status c.task.status ≡ true =
        rw made (λ f. f) in
      let saved = save_task-IsSound s v t' valid c.task found' kept in
      subst IsSound (sym c.left) (same-IsSound (save_task t' s) _ refl refl saved)
