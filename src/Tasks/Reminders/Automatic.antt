-- ===== src/Tasks/Reminders/Automatic.antt =====
-- The loop of `cancel_active_task_reminders` in tasks/services/reminders.py.
use holansl_backend.Base.{
  ℕ, ◌≡◌, refl, sym, subst, ◌∙◌, true, false, List, [], ◌∷◌, map, String, ◌==◌, ==_refl, select,
  contains, update, All, All-update, arith, inl, inr, Bool-cases,
}
use holansl_backend.Accounts.Data.{User}
use holansl_backend.Tasks.Data.{Task, TaskReminder, Store}
use holansl_backend.Tasks.Reminders.{
  cancelled_reminder, cancel_one, cancel_each, is_active_of, cancel_active_task_reminders,
}

-- The rows that are still to be cancelled are among those that the loop has before it.
abbrev Pending : List ℕ → List TaskReminder → TaskReminder → Type 0
Pending ids rs x = is_active_of ids x ≡ true → contains x.id (map (λ r. r.id) rs) ≡ true

none-Pending :
    (ids : List ℕ) (xs : List TaskReminder)
    → All (Pending ids []) xs
    → All (λ r. is_active_of ids r ≡ false) xs
none-Pending ids [] h = tt
none-Pending ids (x ∷ xs) h = (
  elim (Bool-cases (is_active_of ids x)) [ inl e ↦ absurd (ground (arith, h.0 e)) | inr e ↦ e ],
  none-Pending ids xs h.1,
)

module _ (now : ℕ) (actor : User) (reason : String) where
  cancel_one-parts :
      (r : TaskReminder) (s : Store)
      → ((cancel_one now actor reason r s).reminders
          ≡ update (λ x. x.id == r.id) (λ _. cancelled_reminder now actor r) s.reminders)
        × ((cancel_one now actor reason r s).tasks ≡ s.tasks)
        × ((cancel_one now actor reason r s).batches ≡ s.batches)
  unfolding cancel_one
  cancel_one-parts r s = (ground arith, ground arith, ground arith)

  cancel_each-keeps :
      (rs : List TaskReminder) (s : Store)
      → ((cancel_each now actor reason rs s).tasks ≡ s.tasks)
        × ((cancel_each now actor reason rs s).batches ≡ s.batches)
  unfolding cancel_each
  cancel_each-keeps [] s = (refl, refl)
  cancel_each-keeps (r ∷ rs) s =
      let s' = cancel_one now actor reason r s in
      let rest = cancel_each-keeps rs s' in
      let one = cancel_one-parts r s in (rest.0 ∙ one.1, rest.1 ∙ one.2)

  -- A property of rows that a cancelled row has in any case.
  cancel_each-All :
      (P : TaskReminder → Type 0)
      → ((r : TaskReminder) → P (cancelled_reminder now actor r))
      → (rs : List TaskReminder) (s : Store) → All P s.reminders
      → All P (cancel_each now actor reason rs s).reminders
  unfolding cancel_each
  cancel_each-All P new [] s h = h
  cancel_each-All P new (r ∷ rs) s h =
      let s' = cancel_one now actor reason r s in
      cancel_each-All P new rs s' (
        rw (cancel_one-parts r s).0 (
          All-update P (λ x. x.id == r.id) (λ _. cancelled_reminder now actor r) s.reminders
            (λ _ _ _. new r) h))

  Pending-update :
      (ids : List ℕ) (r : TaskReminder) (rs xs : List TaskReminder)
      → All (Pending ids (r ∷ rs)) xs
      → All (Pending ids rs) (update (λ x. x.id == r.id) (λ _. cancelled_reminder now actor r) xs)
  Pending-update ids r rs [] h = tt
  Pending-update ids r rs (x ∷ xs) h = (
    elim (Bool-cases (x.id == r.id)) [
      | inl e ↦ rw e (λ a. ground arith)
      | inr e ↦ rw e (λ a. ground (arith, h.0 a, e))
    ],
    Pending-update ids r rs xs h.1,
  )

  cancel_each-none :
      (ids : List ℕ) (rs : List TaskReminder) (s : Store)
      → All (Pending ids rs) s.reminders
      → All (Pending ids []) (cancel_each now actor reason rs s).reminders
  unfolding cancel_each
  cancel_each-none ids [] s h = h
  cancel_each-none ids (r ∷ rs) s h =
      cancel_each-none ids rs (cancel_one now actor reason r s)
        (rw (cancel_one-parts r s).0 (Pending-update ids r rs s.reminders h))

Pending-cons :
    (ids : List ℕ) (r : TaskReminder) (rs xs : List TaskReminder)
    → All (Pending ids rs) xs
    → All (Pending ids (r ∷ rs)) xs
Pending-cons ids r rs [] h = tt
Pending-cons ids r rs (x ∷ xs) h = (λ a. ground (arith, h.0 a), Pending-cons ids r rs xs h.1)

Pending-start :
    (ids : List ℕ) (xs : List TaskReminder) → All (Pending ids (select (is_active_of ids) xs)) xs
Pending-start ids [] = tt
Pending-start ids (x ∷ xs) = elim (Bool-cases (is_active_of ids x)) [
  | inl e ↦
      let first : select (is_active_of ids) (x ∷ xs) ≡ x ∷ select (is_active_of ids) xs = rw e in
      subst (λ rs. All (Pending ids rs) (x ∷ xs)) (sym first)
        (
          λ a. ground (arith, ==_refl x.id),
          Pending-cons ids x (select (is_active_of ids) xs) xs (Pending-start ids xs),
        )
  | inr e ↦
      let other : select (is_active_of ids) (x ∷ xs) ≡ select (is_active_of ids) xs = rw e in
      subst (λ rs. All (Pending ids rs) (x ∷ xs)) (sym other)
        (λ a. ground (arith, e, a), Pending-start ids xs)
]

module _ (now : ℕ) (tasks : List Task) (actor : User) (reason : String) (s : Store) where
  abbrev after : Store
  after = cancel_active_task_reminders now tasks actor reason s

  pub cancel_active-keeps : (after.tasks ≡ s.tasks) × (after.batches ≡ s.batches)
  unfolding cancel_active_task_reminders
  cancel_active-keeps =
      cancel_each-keeps now actor reason (select (is_active_of (map (λ t. t.id) tasks)) s.reminders)
        s

  pub cancel_active-All :
      (P : TaskReminder → Type 0)
      → ((r : TaskReminder) → P (cancelled_reminder now actor r))
      → All P s.reminders
      → All P after.reminders
  unfolding cancel_active_task_reminders
  cancel_active-All P new =
      cancel_each-All now actor reason P new
        (select (is_active_of (map (λ t. t.id) tasks)) s.reminders) s

  -- No reminder of one of the tasks is active afterwards, and the tasks and batches are as before.
  pub cancel_active_task_reminders_lem :
      All (λ r. is_active_of (map (λ t. t.id) tasks) r ≡ false) after.reminders
      × (after.tasks ≡ s.tasks)
      × (after.batches ≡ s.batches)
  unfolding cancel_active_task_reminders
  cancel_active_task_reminders_lem =
      let ids = map (λ t. t.id) tasks in
      let rs = select (is_active_of ids) s.reminders in
      (
        none-Pending ids (after.reminders)
            (cancel_each-none now actor reason ids rs s (Pending-start ids s.reminders)),
        cancel_active-keeps.0,
        cancel_active-keeps.1,
      )
