-- ===== src/Tasks/Batches/Edited.antt =====
-- `update_task_batch` of tasks/services/lifecycle.py and the reminders of the batch's tasks.
use holansl_backend.Base.{
  ℕ, ◌≡◌, refl, sym, ap, subst, ◌∙◌, Bool, true, false, ◌&&◌, ◌||◌, Option, none, some, List, [],
  ◌∷◌, arith, inl, inr, Option-cases, Bool-cases, find, All, All-update, All-find, ◌==◌, eq_option,
  ==_iff, ◌⊎◌, ◌⊎◌,
}
use holansl_backend.Accounts.Data.{User}
use holansl_backend.Tasks.Data.{Task, TaskBatch, TaskReminder, Store, ok, >>=-eq-ok, Result-cases}
use holansl_backend.Tasks.Access.{Site}
use holansl_backend.Tasks.Effects.{require_actor, lock_batch, save_batch}
use holansl_backend.Tasks.Reminders.{
  cancelled_reminder, is_late, cancel_reminders_after_batch_due_at,
}
use holansl_backend.Tasks.Reminders.Deadlines.{
  is_overdue, cancel_reminders_after_batch_due_at_lem, cancel_late-All,
}
use holansl_backend.Tasks.Lifecycle.Invariant.{Reminds, IsSound, same-IsSound}
use holansl_backend.Tasks.Batches.Editing.{
  Change, title, description, priority, start_at, due_at, unknown_field, is_due_at, apply_change,
  apply_changes, edit_plan, update_effects, update_task_batch,
}
use holansl_backend.Tasks.Batches.Closed.{lock_batch-find}

-- No active reminder is later than the deadline of a batch that holds its task.
abbrev pub IsPunctual : Store → Type 0
IsPunctual s = All (λ b. All (λ r. is_overdue b s.tasks r ≡ false) s.reminders) s.batches

-- What the loop over the changes leaves of a batch.
abbrev Kept : TaskBatch → TaskBatch → Bool → Type 0
Kept b b' deadline = (b'.id ≡ b.id) × (deadline ≡ false → b'.due_at ≡ b.due_at)

eq_option-eq : (a b : Option ℕ) → eq_option a b ≡ true → a ≡ b
eq_option-eq none none h = refl
eq_option-eq (some a) (some b) h = ground (arith, (==_iff a b).0 h)
eq_option-eq none (some b) h = cc
eq_option-eq (some a) none h = cc

apply_change-Kept :
    (c : Change) (b b' : TaskBatch) (changed : Bool)
    → apply_change c b ≡ ok (b', changed)
    → Kept b b' (changed && is_due_at c)
unfolding apply_change
apply_change-Kept (title v) b b' changed h = (ground arith, λ e. ground arith)
apply_change-Kept (description v) b b' changed h = (ground arith, λ e. ground arith)
apply_change-Kept (priority v) b b' changed h = (ground arith, λ e. ground arith)
apply_change-Kept (start_at v) b b' changed h = (ground arith, λ e. ground arith)
apply_change-Kept (due_at v) b b' changed h =
    (ground arith, λ e. ground (arith, eq_option-eq b.due_at v))
apply_change-Kept (unknown_field f) b b' changed h = cc

apply_changes-Kept :
    (cs : List Change) (b b' : TaskBatch) (changed deadline : Bool)
    → apply_changes cs b ≡ ok (b', changed, deadline)
    → Kept b b' deadline
unfolding apply_changes
apply_changes-Kept [] b b' changed deadline h = (ground arith, λ e. ground arith)
apply_changes-Kept (c ∷ cs) b b' changed deadline h = elim (Result-cases (apply_change c b)) [
  | inr (e, refused) ↦ ground arith
  | inl ((b₁, some_change), first) ↦ elim (Result-cases (apply_changes cs b₁)) [
    | inr (e, refused) ↦ ground arith
    | inl ((b₂, others, later), rest) ↦
        let (id₁, due₁) = apply_change-Kept c b b₁ some_change first in
        let (id₂, due₂) = apply_changes-Kept cs b₁ b₂ others later rest in
        let made : b' ≡ b₂ = ground arith in
        let flag : deadline ≡ (some_change && is_due_at c || later) = ground arith in
        (
          ap (λ x. x.id) made ∙ id₂ ∙ id₁,
          λ e.
              ap (λ x. x.due_at) made
              ∙ due₂ (ground (arith, e, flag))
              ∙ due₁ (ground (arith, e, flag)),
        )
  ]
]

edit_plan-Kept :
    (site : Site) (now : ℕ) (user : User) (all_tasks : List Task) (changes : List Change)
    (b b' : TaskBatch) (changed deadline : Bool)
    → edit_plan site now user all_tasks changes b ≡ ok (b', changed, deadline)
    → Kept b b' deadline
unfolding edit_plan
edit_plan-Kept site now user all_tasks changes b b' changed deadline h =
    elim (Result-cases (apply_changes changes b)) [
      | inr (e, refused) ↦ ground arith
      | inl ((b₁, some_change, later), made) ↦
          let (same, due) = apply_changes-Kept changes b b₁ some_change later made in
          (ground arith, λ e. ground (arith, due, e))
    ]

-- What an update did, in parts.
record Updated (site : Site) (now id : ℕ) (changes : List Change) (s : Store) (b' : TaskBatch)
    (s' : Store) : Type 0 where
  user : User
  batch : TaskBatch
  deadline : Bool
  found : find (λ x. x.id == id) s.batches ≡ some batch
  kept : Kept batch b' deadline
  left : (s' ≡ s) ⊎ (s' ≡ update_effects now user deadline b' s)

update_task_batch-Updated :
    (site : Site) (now id : ℕ) (actor : Option User) (changes : List Change) (s : Store)
    (b' : TaskBatch) (s' : Store)
    → update_task_batch site now id actor changes s ≡ ok (b', s')
    → Updated site now id changes s b' s'
unfolding update_task_batch
update_task_batch-Updated site now id actor changes s b' s' h =
    let (user, _, h₁) = >>=-eq-ok (require_actor actor) _ h in
    let (b, locked, h₂) = >>=-eq-ok (lock_batch id s) _ h₁ in
    elim (Result-cases (edit_plan site now user s.tasks changes b)) [
      | inr (e, refused) ↦ ground arith
      | inl ((b₁, changed, deadline), made) ↦
          let same : b' ≡ b₁ = ground arith in
          record {
            user = user;
            batch = b;
            deadline = deadline;
            found = lock_batch-find id s b locked;
            kept =
                subst (λ x. Kept b x deadline) (sym same)
                  (edit_plan-Kept site now user s.tasks changes b b₁ changed deadline made);
            left = elim (Bool-cases changed) [
              | inl e ↦ inr (ground arith)
              | inr e ↦ inl (ground arith)
            ];
          }
    ]

cancelled-not-overdue :
    (now : ℕ) (user : User) (b : TaskBatch) (tasks : List Task) (r : TaskReminder)
    → is_overdue b tasks (cancelled_reminder now user r) ≡ false
cancelled-not-overdue now user b tasks r = elim (Option-cases b.due_at) [
  | inl e ↦ rw e refl
  | inr (d, e) ↦ rw e (ground arith)
]

-- All rows of all batches, after the reminders changed.
zip_batches :
    (tasks : List Task) (rs rs' : List TaskReminder) (bs : List TaskBatch)
    → ((b : TaskBatch)
        → All (λ r. is_overdue b tasks r ≡ false) rs
        → All (λ r. is_overdue b tasks r ≡ false) rs')
    → All (λ b. All (λ r. is_overdue b tasks r ≡ false) rs) bs
    → All (λ b. All (λ r. is_overdue b tasks r ≡ false) rs') bs
zip_batches tasks rs rs' [] f h = tt
zip_batches tasks rs rs' (b ∷ bs) f h = (f b h.0, zip_batches tasks rs rs' bs f h.1)

module _ (now : ℕ) (user : User) (s : Store) (b b' : TaskBatch) where
  abbrev cut : Store
  cut = cancel_reminders_after_batch_due_at now b' user (save_batch b' s)

  cut-IsPunctual : IsPunctual s → IsPunctual cut
  cut-IsPunctual v =
      let (gone, tasks, batches) =
        cancel_reminders_after_batch_due_at_lem now b' user (save_batch b' s) in
      let others =
        zip_batches s.tasks s.reminders cut.reminders s.batches
          (λ x h.
            cancel_late-All now b' user (save_batch b' s) (λ r. is_overdue x s.tasks r ≡ false)
              (cancelled-not-overdue now user x s.tasks) h)
          v in
      rw (tasks, batches)
        (All-update (λ x. All (λ r. is_overdue x s.tasks r ≡ false) cut.reminders)
          (λ x. x.id == b'.id) (λ _. b') s.batches (λ _ _ _. gone) others)

  kept-IsPunctual :
      All (λ r. is_overdue b s.tasks r ≡ false) s.reminders
      → b'.id ≡ b.id
      → b'.due_at ≡ b.due_at
      → IsPunctual s
      → IsPunctual (save_batch b' s)
  kept-IsPunctual old same due v =
      let within : Option ℕ → ℕ → Type 0 = λ d k.
        All (λ r. elim d [ none ↦ false | some t ↦ is_late k t s.tasks r ] ≡ false) s.reminders in
      let new : All (λ r. is_overdue b' s.tasks r ≡ false) s.reminders =
        subst (within b'.due_at) (sym same) (subst (λ d. within d b.id) (sym due) old) in
      All-update (λ x. All (λ r. is_overdue x s.tasks r ≡ false) s.reminders) (λ x. x.id == b'.id)
        (λ _. b') s.batches (λ _ _ _. new) v

  cut-IsSound : IsSound s → IsSound cut
  cut-IsSound v =
      let (_, tasks, _) = cancel_reminders_after_batch_due_at_lem now b' user (save_batch b' s) in
      record {
        tasks_valid = rw tasks v.tasks_valid;
        reminders_open = rw tasks (
            cancel_late-All now b' user (save_batch b' s) (Reminds s.tasks) (λ r h. ground arith)
              v.reminders_open);
      }

module _ (site : Site) (now id : ℕ) (actor : Option User) (changes : List Change) (s : Store)
    (b' : TaskBatch) (s' : Store) where
  -- An update of a batch keeps every active reminder within the deadline of its batch, also when the
  -- update moves that deadline.
  pub update_task_batch-IsPunctual :
      IsPunctual s → update_task_batch site now id actor changes s ≡ ok (b', s') → IsPunctual s'
  unfolding update_effects
  update_task_batch-IsPunctual v h =
      let u = update_task_batch-Updated site now id actor changes s b' s' h in
      let old =
        All-find (λ b. All (λ r. is_overdue b s.tasks r ≡ false) s.reminders) (λ x. x.id == id)
          s.batches v u.found in
      elim u.left [
        | inl e ↦ rw e v
        | inr e ↦ rw e (elim (Bool-cases u.deadline) [
          | inl d ↦ rw d (cut-IsPunctual now u.user s u.batch b' v)
          | inr d ↦ rw d (kept-IsPunctual now u.user s u.batch b' old u.kept.0 (u.kept.1 d) v)
        ])
      ]

  -- An update of a batch that `update_task_batch` carries out on a sound store leaves a sound one.
  pub update_task_batch-IsSound :
      IsSound s → update_task_batch site now id actor changes s ≡ ok (b', s') → IsSound s'
  unfolding update_effects
  update_task_batch-IsSound v h =
      let u = update_task_batch-Updated site now id actor changes s b' s' h in
      elim u.left [
        | inl e ↦ rw e v
        | inr e ↦ rw e (elim (Bool-cases u.deadline) [
          | inl d ↦ rw d (
              same-IsSound (cut now u.user s u.batch b') _ refl refl
                (cut-IsSound now u.user s u.batch b' v))
          | inr d ↦ rw d (same-IsSound s _ refl refl v)
        ])
      ]
