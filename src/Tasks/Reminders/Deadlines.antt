-- ===== src/Tasks/Reminders/Deadlines.antt =====
-- The loop of `cancel_reminders_after_batch_due_at` in tasks/services/reminders.py.
use holansl_backend.Base.{
  ℕ, ◌≡◌, refl, sym, subst, ◌∙◌, Bool, true, false, none, some, List, [], ◌∷◌, map, String, ◌==◌,
  ==_refl, select, contains, update, All, All-update, arith, inl, inr, Bool-cases, Option-cases,
}
use holansl_backend.Accounts.Data.{User}
use holansl_backend.Tasks.Data.{Task, TaskBatch, TaskReminder, Store}
use holansl_backend.Tasks.Reminders.{
  cancelled_reminder, cancel_one_late, cancel_each_late, is_late,
  cancel_reminders_after_batch_due_at,
}

-- A row that a test of active reminders accepts is among those that the loop has before it.
abbrev Waits : (TaskReminder → Bool) → List TaskReminder → TaskReminder → Type 0
Waits late rs x = late x ≡ true → contains x.id (map (λ r. r.id) rs) ≡ true

module _ (now : ℕ) (actor : User) (reason : String) where
  cancel_one_late-parts :
      (r : TaskReminder) (s : Store)
      → ((cancel_one_late now actor reason r s).reminders
          ≡ update (λ x. x.id == r.id) (λ _. cancelled_reminder now actor r) s.reminders)
        × ((cancel_one_late now actor reason r s).tasks ≡ s.tasks)
        × ((cancel_one_late now actor reason r s).batches ≡ s.batches)
  unfolding cancel_one_late
  cancel_one_late-parts r s = (ground arith, ground arith, ground arith)

  cancel_each_late-keeps :
      (rs : List TaskReminder) (s : Store)
      → ((cancel_each_late now actor reason rs s).tasks ≡ s.tasks)
        × ((cancel_each_late now actor reason rs s).batches ≡ s.batches)
  unfolding cancel_each_late
  cancel_each_late-keeps [] s = (refl, refl)
  cancel_each_late-keeps (r ∷ rs) s =
      let rest = cancel_each_late-keeps rs (cancel_one_late now actor reason r s) in
      let one = cancel_one_late-parts r s in (rest.0 ∙ one.1, rest.1 ∙ one.2)

  cancel_each_late-All :
      (P : TaskReminder → Type 0)
      → ((r : TaskReminder) → P (cancelled_reminder now actor r))
      → (rs : List TaskReminder) (s : Store) → All P s.reminders
      → All P (cancel_each_late now actor reason rs s).reminders
  unfolding cancel_each_late
  cancel_each_late-All P new [] s h = h
  cancel_each_late-All P new (r ∷ rs) s h =
      cancel_each_late-All P new rs (cancel_one_late now actor reason r s) (
        rw (cancel_one_late-parts r s).0 (
          All-update P (λ x. x.id == r.id) (λ _. cancelled_reminder now actor r) s.reminders
            (λ _ _ _. new r) h))

  -- The loop, for a test that no cancelled row passes.
  module _ (late : TaskReminder → Bool)
      (closed : (r : TaskReminder) → late (cancelled_reminder now actor r) ≡ false) where
    Waits-update :
        (r : TaskReminder) (rs xs : List TaskReminder)
        → All (Waits late (r ∷ rs)) xs
        → All (Waits late rs) (update (λ x. x.id == r.id) (λ _. cancelled_reminder now actor r) xs)
    Waits-update r rs [] h = tt
    Waits-update r rs (x ∷ xs) h = (
      elim (Bool-cases (x.id == r.id)) [
        | inl e ↦ rw e (λ a. ground (arith, closed r, a))
        | inr e ↦ rw e (λ a. ground (arith, h.0 a, e))
      ],
      Waits-update r rs xs h.1,
    )

    Waits-end : (xs : List TaskReminder) → All (Waits late []) xs → All (λ r. late r ≡ false) xs
    Waits-end [] h = tt
    Waits-end (x ∷ xs) h = (
      elim (Bool-cases (late x)) [ inl e ↦ absurd (ground (arith, h.0 e)) | inr e ↦ e ],
      Waits-end xs h.1,
    )

    cancel_each_late-none :
        (rs : List TaskReminder) (s : Store)
        → All (Waits late rs) s.reminders
        → All (λ r. late r ≡ false) (cancel_each_late now actor reason rs s).reminders
    unfolding cancel_each_late
    cancel_each_late-none [] s h = Waits-end s.reminders h
    cancel_each_late-none (r ∷ rs) s h =
        cancel_each_late-none rs (cancel_one_late now actor reason r s)
          (rw (cancel_one_late-parts r s).0 (Waits-update r rs s.reminders h))

Waits-cons :
    (late : TaskReminder → Bool) (r : TaskReminder) (rs xs : List TaskReminder)
    → All (Waits late rs) xs
    → All (Waits late (r ∷ rs)) xs
Waits-cons late r rs [] h = tt
Waits-cons late r rs (x ∷ xs) h = (λ a. ground (arith, h.0 a), Waits-cons late r rs xs h.1)

Waits-start :
    (late : TaskReminder → Bool) (xs : List TaskReminder) → All (Waits late (select late xs)) xs
Waits-start late [] = tt
Waits-start late (x ∷ xs) =
    let goal : List TaskReminder → Type 0 = λ rs. All (Waits late rs) (x ∷ xs) in
    elim (Bool-cases (late x)) [
      | inl e ↦
          let first : select late (x ∷ xs) ≡ x ∷ select late xs = rw e in
          subst goal (sym first) (
            λ a. ground (arith, ==_refl x.id),
            Waits-cons late x (select late xs) xs (Waits-start late xs),
          )
      | inr e ↦
          let other : select late (x ∷ xs) ≡ select late xs = rw e in
          subst goal (sym other) (λ a. absurd (ground (arith, e, a)), Waits-start late xs)
    ]

-- The active reminder `r` of a task of the batch is later than the batch's deadline.
abbrev pub is_overdue : TaskBatch → List Task → TaskReminder → Bool
is_overdue b tasks r = elim b.due_at [ none ↦ false | some due_at ↦ is_late b.id due_at tasks r ]

cancelled-not-late :
    (now : ℕ) (actor : User) (batch due_at : ℕ) (tasks : List Task) (r : TaskReminder)
    → is_late batch due_at tasks (cancelled_reminder now actor r) ≡ false
cancelled-not-late now actor batch due_at tasks r = ground arith

everywhere : (rs : List TaskReminder) → All (λ _. false ≡ false) rs
everywhere [] = tt
everywhere (r ∷ rs) = (refl, everywhere rs)

module _ (now : ℕ) (b : TaskBatch) (actor : User) (s : Store) where
  abbrev after : Store
  after = cancel_reminders_after_batch_due_at now b actor s

  -- No active reminder of the batch is later than its deadline afterwards, and the tasks and batches
  -- are as before.
  pub cancel_reminders_after_batch_due_at_lem :
      All (λ r. is_overdue b s.tasks r ≡ false) after.reminders
      × (after.tasks ≡ s.tasks)
      × (after.batches ≡ s.batches)
  unfolding cancel_reminders_after_batch_due_at
  cancel_reminders_after_batch_due_at_lem = elim (Option-cases b.due_at) [
    | inl e ↦ rw e (everywhere s.reminders, refl, refl)
    | inr (d, e) ↦
        let late : TaskReminder → Bool = is_late b.id d s.tasks in
        let reason : String = "The reminder was cancelled because the task deadline changed." in
        let (tasks, batches) =
          cancel_each_late-keeps now actor reason (select late s.reminders) s in
        rw e (
          cancel_each_late-none now actor reason late (cancelled-not-late now actor b.id d s.tasks)
              (select late s.reminders) s (Waits-start late s.reminders),
          tasks,
          batches,
        )
  ]

  pub cancel_late-All :
      (P : TaskReminder → Type 0)
      → ((r : TaskReminder) → P (cancelled_reminder now actor r))
      → All P s.reminders
      → All P after.reminders
  unfolding cancel_reminders_after_batch_due_at
  cancel_late-All P new h = elim (Option-cases b.due_at) [
    | inl e ↦ rw e h
    | inr (d, e) ↦ rw e (
        cancel_each_late-All now actor
          "The reminder was cancelled because the task deadline changed." P new
          (select (is_late b.id d s.tasks) s.reminders) s h)
  ]
