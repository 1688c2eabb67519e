-- ===== src/Tasks/Batches/Closed.antt =====
-- `cancel_task_batch` and `archive_task_batch` of tasks/services/lifecycle.py: the stored batch and its
-- tasks afterwards.
use holansl_backend.Base.{
  ℕ, ◌≡◌, refl, sym, ap, subst, ◌∙◌, Bool, true, false, not, ◌||◌, Option, some, List, [], ◌∷◌, map,
  String, arith, is_some, inl, inr, Option-cases, Bool-cases, find, select, update, contains, All,
  ◌==◌, ==_refl,
}
use holansl_backend.Accounts.Data.{User}
use holansl_backend.Tasks.Data.{
  TaskActivityType, Task, TaskBatch, Store, ok, >>=-eq-ok, is_final_status,
}
use holansl_backend.Tasks.Access.{Site}
use holansl_backend.Tasks.Validation.Rules.{IsValid}
use holansl_backend.Tasks.Effects.{
  require_actor, clean_reason, lock_batch, save_task, save_batch, create_batch_activity,
  create_task_activities, create_audit_log,
}
use holansl_backend.Tasks.Reminders.Automatic.{cancel_active_task_reminders_lem}
use holansl_backend.Tasks.Lifecycle.{with_cancellation, with_archive}
use holansl_backend.Tasks.Batches.{
  tasks_of, save_tasks, cancel_batch_effects, cancel_task_batch, log_batch_effects,
  archive_task_batch, is_affected, is_unarchived,
}
use holansl_backend.Tasks.Batches.Saved.{save_tasks-keeps, change_batch-Changed}
use holansl_backend.Tasks.Batches.Preserved.{cancel_batch_plan-made, archive_batch_plan-made}

-- A row is as it should be, or is still to be saved.
abbrev Awaits : (Task → Bool) → List Task → Task → Type 0
Awaits good ts x = good x ≡ false → contains x.id (map (λ t. t.id) ts) ≡ true

module _ (good : Task → Bool) where
  Awaits-save :
      (t : Task) (ts xs : List Task)
      → good t ≡ true
      → All (Awaits good (t ∷ ts)) xs
      → All (Awaits good ts) (update (λ x. x.id == t.id) (λ _. t) xs)
  Awaits-save t ts [] g h = tt
  Awaits-save t ts (x ∷ xs) g h = (
    elim (Bool-cases (x.id == t.id)) [
      | inl e ↦ rw e (λ a. ground (arith, a, g))
      | inr e ↦ rw e (λ a. ground (arith, h.0 a, e))
    ],
    Awaits-save t ts xs g h.1,
  )

  Awaits-end : (xs : List Task) → All (Awaits good []) xs → All (λ x. good x ≡ true) xs
  Awaits-end [] h = tt
  Awaits-end (x ∷ xs) h =
      (elim (Bool-cases (good x)) [ inl e ↦ e | inr e ↦ ground (arith, h.0 e) ], Awaits-end xs h.1)

  save_tasks-reaches :
      (ts : List Task) (s : Store)
      → All (λ x. good x ≡ true) ts
      → All (Awaits good ts) s.tasks
      → All (λ x. good x ≡ true) (save_tasks ts s).tasks
  unfolding save_tasks
  save_tasks-reaches [] s g h = Awaits-end s.tasks h
  save_tasks-reaches (t ∷ ts) s g h =
      save_tasks-reaches ts (save_task t s) g.1 (Awaits-save t ts s.tasks g.0 h)

  Awaits-cons :
      (y : Task) (ts xs : List Task) → All (Awaits good ts) xs → All (Awaits good (y ∷ ts)) xs
  Awaits-cons y ts [] h = tt
  Awaits-cons y ts (x ∷ xs) h = (λ a. ground (arith, h.0 a), Awaits-cons y ts xs h.1)

  -- The rows that a plan makes of the tasks of a batch which `p` accepts leave no other to await.
  Awaits-start :
      (id : ℕ) (p : Task → Bool) (f : Task → Task)
      → ((t : Task) → (f t).id ≡ t.id)
      → (xs : List Task) → All (λ x. good x ≡ false → ((x.batch == id) ≡ true) × (p x ≡ true)) xs
      → All (Awaits good (map f (select p (select (λ t. t.batch == id) xs)))) xs
  Awaits-start id p f same [] h = tt
  Awaits-start id p f same (x ∷ xs) h =
      let rest = Awaits-start id p f same xs h.1 in
      let mine : Task → Bool = λ t. t.batch == id in
      let goal : List Task → Type 0 = λ picked. All (Awaits good (map f picked)) (x ∷ xs) in
      elim (Bool-cases (x.batch == id)) [
        | inr e ↦
            let skipped : select p (select mine (x ∷ xs)) ≡ select p (select mine xs) = rw e in
            subst goal (sym skipped) (λ a. absurd (ground (arith, h.0 a, e)), rest)
        | inl e ↦ elim (Bool-cases (p x)) [
          | inr n ↦
              let skipped : select p (select mine (x ∷ xs)) ≡ select p (select mine xs) =
                rw (e, n) in
              subst goal (sym skipped) (λ a. absurd (ground (arith, h.0 a, n)), rest)
          | inl y ↦
              let kept : select p (select mine (x ∷ xs)) ≡ x ∷ select p (select mine xs) =
                rw (e, y) in
              subst goal (sym kept) (
                λ a. ground (arith, same x, ==_refl x.id),
                Awaits-cons (f x) (map f (select p (select mine xs))) xs rest,
              )
        ]
      ]

  map-good :
      (f : Task → Task) (xs : List Task)
      → ((t : Task) → good (f t) ≡ true)
      → All (λ x. good x ≡ true) (map f xs)
  map-good f [] g = tt
  map-good f (x ∷ xs) g = (g x, map-good f xs g)

-- Neither in the batch `id`, nor with a status that is not final.
abbrev pub is_over_in : ℕ → Task → Bool
is_over_in id t = not (t.batch == id) || is_final_status t.status

abbrev pub is_filed_in : ℕ → Task → Bool
is_filed_in id t = not (t.batch == id) || is_some t.archived_at

pub lock_batch-find :
    (id : ℕ) (s : Store) (b : TaskBatch)
    → lock_batch id s ≡ ok b
    → find (λ x. x.id == id) s.batches ≡ some b
unfolding lock_batch
lock_batch-find id s b h = elim (Option-cases (find (λ x. x.id == id) s.batches)) [
  | inl e ↦ ground arith
  | inr (x, e) ↦ ground arith
]

find-save_batch :
    (id : ℕ) (b b' : TaskBatch) (bs : List TaskBatch)
    → find (λ x. x.id == id) bs ≡ some b
    → b'.id ≡ b.id
    → (b.id ≡ id) × (find (λ x. x.id == id) (update (λ x. x.id == b'.id) (λ _. b') bs) ≡ some b')
find-save_batch id b b' [] h e = cc
find-save_batch id b b' (x ∷ bs) h e = ground (arith, find-save_batch id b b' bs)

active_rows :
    (id : ℕ) (xs : List Task)
    → All IsValid xs
    → All (λ x. is_over_in id x ≡ false → ((x.batch == id) ≡ true) × (is_affected x ≡ true)) xs
active_rows id [] v = tt
active_rows id (x ∷ xs) v = (λ a. ground (arith, a, v.0.archived), active_rows id xs v.1)

-- Both saves of a plan that applies `f` to the tasks which `p` accepts.
module _ (id : ℕ) (s : Store) (b b' : TaskBatch) (p good : Task → Bool) (f : Task → Task) where
  abbrev rows : List Task
  rows = map f (select p (tasks_of b.id s))

  saved_lem :
      find (λ x. x.id == id) s.batches ≡ some b
      → b'.id ≡ b.id
      → ((t : Task) → (f t).id ≡ t.id)
      → ((t : Task) → good (f t) ≡ true)
      → All (λ x. good x ≡ false → ((x.batch == id) ≡ true) × (p x ≡ true)) s.tasks
      → (find (λ x. x.id == id) (save_tasks rows (save_batch b' s)).batches ≡ some b')
        × All (λ x. good x ≡ true) (save_tasks rows (save_batch b' s)).tasks
  saved_lem found same_id ids goods open_rows =
      let (at_id, stored) = find-save_batch id b b' s.batches found same_id in
      (
        ap (find (λ x. x.id == id)) (save_tasks-keeps rows (save_batch b' s)).1 ∙ stored,
        save_tasks-reaches good rows (save_batch b' s)
            (map-good good f (select p (tasks_of b.id s)) goods)
            (subst (λ k. All (Awaits good (map f (select p (tasks_of k s)))) s.tasks) (sym at_id)
              (Awaits-start good id p f ids s.tasks open_rows)),
      )

rows_now :
    (now : ℕ) (user : User) (reason : String) (xs : List Task)
    → All (λ t. t.cancelled_at ≡ some now) (map (with_cancellation now user reason) xs)
rows_now now user reason [] = tt
rows_now now user reason (x ∷ xs) = (refl, rows_now now user reason xs)

unfiled_rows :
    (id : ℕ) (xs : List Task)
    → All (λ x. is_filed_in id x ≡ false → ((x.batch == id) ≡ true) × (is_unarchived x ≡ true)) xs
unfiled_rows id [] = tt
unfiled_rows id (x ∷ xs) = (λ a. ground (arith, a), unfiled_rows id xs)

module _ (site : Site) (now id : ℕ) (actor : Option User) (s : Store) (b' : TaskBatch)
    (ts : List Task) (s' : Store) where
  -- After `cancel_task_batch` on a store whose tasks are all valid, the stored batch is the cancelled one, every
  -- task of the batch is completed or cancelled, and the tasks that it returns are cancelled now.
  pub cancel_task_batch_lem :
      (reason : Option String)
      → All IsValid s.tasks
      → cancel_task_batch site now id actor reason s ≡ ok (b', ts, s')
      → (find (λ b. b.id == id) s'.batches ≡ some b')
        × (b'.cancelled_at ≡ some now)
        × All (λ t. is_over_in id t ≡ true) s'.tasks
        × All (λ t. t.cancelled_at ≡ some now) ts
  unfolding cancel_task_batch cancel_batch_effects
  cancel_task_batch_lem reason v h =
      let (user, _, h₁) = >>=-eq-ok (require_actor actor) _ h in
      let (reason', _, h₂) = >>=-eq-ok (clean_reason reason) _ h₁ in
      let c = change_batch-Changed id _ _ s b' ts s' h₂ in
      let (made, rows, _) =
        cancel_batch_plan-made site now user reason' s.tasks c.batch b' _ ts c.made in
      let found = lock_batch-find id s c.batch c.locked in
      let (stored, over) =
        saved_lem id s c.batch b' is_affected (is_over_in id) (with_cancellation now user reason')
          found (ap (λ x. x.id) made) (λ _. refl) (λ t. ground arith) (active_rows id s.tasks v) in
      let s₁ = create_audit_log user "task_batch" "cancel" b'.id (
        create_task_activities ts user TaskActivityType.task_cancelled (
          create_batch_activity b' user TaskActivityType.batch_cancelled
            (save_tasks ts (save_batch b' s)))) in
      let text : String = "The reminder was cancelled because the task assignment was cancelled." in
      let (_, same_tasks, same_batches) = cancel_active_task_reminders_lem now ts user text s₁ in
      let rows' = sym rows in
      let stored' : find (λ x. x.id == id) (save_tasks ts (save_batch b' s)).batches ≡ some b' =
        subst (λ r. find (λ x. x.id == id) (save_tasks r (save_batch b' s)).batches ≡ some b') rows'
          stored in
      let over' : All (λ t. is_over_in id t ≡ true) (save_tasks ts (save_batch b' s)).tasks =
        subst (λ r. All (λ t. is_over_in id t ≡ true) (save_tasks r (save_batch b' s)).tasks) rows'
          over in
      (
        ap (λ x. find (λ y. y.id == id) x.batches) c.left
            ∙ ap (find (λ y. y.id == id)) same_batches
            ∙ stored',
        ap (λ x. x.cancelled_at) made,
        rw (c.left, same_tasks) over',
        rw rows (rows_now now user reason' (select is_affected (tasks_of c.batch.id s))),
      )

  -- After `archive_task_batch`, the stored batch is archived, and so is every task of the batch.
  pub archive_task_batch_lem :
      archive_task_batch site now id actor s ≡ ok (b', ts, s')
      → (find (λ b. b.id == id) s'.batches ≡ some b')
        × (b'.archived_at ≡ some now)
        × All (λ t. is_filed_in id t ≡ true) s'.tasks
  unfolding archive_task_batch log_batch_effects
  archive_task_batch_lem h =
      let (user, _, h₁) = >>=-eq-ok (require_actor actor) _ h in
      let c = change_batch-Changed id _ _ s b' ts s' h₁ in
      let (made, rows, _) = archive_batch_plan-made site now user s.tasks c.batch b' _ ts c.made in
      let found = lock_batch-find id s c.batch c.locked in
      let (stored, filed) =
        saved_lem id s c.batch b' is_unarchived (is_filed_in id) (with_archive now user) found
          (ap (λ x. x.id) made) (λ _. refl) (λ t. ground arith) (unfiled_rows id s.tasks) in
      let rows' = sym rows in
      (
        ap (λ x. find (λ y. y.id == id) x.batches) c.left
            ∙ subst (λ r. find (λ x. x.id == id) (save_tasks r (save_batch b' s)).batches ≡ some b')
                rows' stored,
        ap (λ x. x.archived_at) made,
        rw c.left (
            subst (λ r. All (λ t. is_filed_in id t ≡ true) (save_tasks r (save_batch b' s)).tasks)
              rows' filed),
      )
