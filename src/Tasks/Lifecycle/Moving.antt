-- ===== src/Tasks/Lifecycle/Moving.antt =====
-- When `transition_task_status` of tasks/services/lifecycle.py is carried out, and what it leaves.
use holansl_backend.Base.{
  ℕ, ◌≡◌, ◌↔◌, refl, ap, subst, true, false, Option, none, some, [], ◌∷◌, String, arith, inl, inr,
  Option-cases, Bool-cases, All, All-find, is_some, ◌==◌, if◌then◌else◌,
}
use holansl_backend.Accounts.Data.{User}
use holansl_backend.Tasks.Data.{
  TaskStatus, TaskActivityType, Task, TaskBatch, Store, ok, is_completed, is_cancelled,
  is_final_status, same_status,
}
use holansl_backend.Tasks.Access.{Site, can_update_task_status}
use holansl_backend.Tasks.Validation.Rules.{IsValid}
use holansl_backend.Tasks.Effects.{
  create_task_activity, create_audit_log, schedule_task_completed_notification,
}
use holansl_backend.Tasks.Reminders.{cancel_active_task_reminders}
use holansl_backend.Tasks.Reminders.Automatic.{cancel_active_task_reminders_lem}
use holansl_backend.Tasks.Lifecycle.{
  can_transition, with_status, transition_row, transition_effects, transition_task_status,
}
use holansl_backend.Tasks.Lifecycle.Outcomes.{
  MayTransition, transition_row_iff, with_status-IsValid,
}
use holansl_backend.Tasks.Lifecycle.Ends.{
  is_ok, Ensures, is_ok-found, IsSignedIn, signed_iff, signed-Ensures, Locked, Stored,
  change_task_iff, change_task-Ensures,
}

schedule_completed-keeps :
    (t : Task) (b : TaskBatch) (s : Store)
    → ((schedule_task_completed_notification t b s).tasks ≡ s.tasks)
      × ((schedule_task_completed_notification t b s).batches ≡ s.batches)
schedule_completed-keeps t b s = elim (Option-cases b.created_by) [
  | inl e ↦ (ground (arith, e), ground (arith, e))
  | inr (u, e) ↦ (ground (arith, e), ground (arith, e))
]

none_of : {A : Type 0} → {o : Option A} → is_some o ≡ false → o ≡ none
none_of h = ground arith

-- The transition table, in words: from a status that is not final to another one, but not to CANCELLED.
can_transition_iff :
    (a b : TaskStatus)
    → (can_transition a b ≡ true)
      ↔ ((is_final_status a ≡ false) × (is_cancelled b ≡ false) × (same_status b a ≡ false))
can_transition_iff a b = (λ h. ground arith, λ h. ground arith)

-- What the change of status asks of the locked rows and the text.
abbrev pub TransitionGuards : Site → User → Option TaskStatus → Task → TaskBatch → Type 0
TransitionGuards site user new_status t b =
    (status : TaskStatus) × (new_status ≡ some status)
    × (can_update_task_status site user t ≡ true)
    × (t.archived_at ≡ none)
    × (b.cancelled_at ≡ none)
    × (is_final_status t.status ≡ false)
    × (is_cancelled status ≡ false)
    × (same_status status t.status ≡ false)

-- What `transition_task_status` asks for.
abbrev pub MaySetStatus : Site → ℕ → Option User → Option TaskStatus → Store → Type 0
MaySetStatus site id actor new_status s =
    (user : User) × IsSignedIn actor user × Locked id s (TransitionGuards site user new_status)

-- The rows before and after a change of status.
abbrev pub MovedRow : ℕ → Option TaskStatus → Task → Task → Type 0
MovedRow now new_status t t' =
    (new_status ≡ some t'.status)
    × (t'.completed_at ≡ (if is_completed t'.status then some now else none))
    × (t'.updated_at ≡ now)
    × (record t' { status = t.status; completed_at = t.completed_at; updated_at = t.updated_at }
        ≡ t)
    × IsValid t'

-- The task that `transition_task_status` leaves.
abbrev pub Moved : ℕ → ℕ → Option User → Option TaskStatus → Store → Task × Store → Type 0
Moved now id actor new_status s x =
    (user : User) × (actor ≡ some user) × Stored id s (MovedRow now new_status) x

transition_effects-keeps :
    (now : ℕ) (user : User) (t : Task) (b : TaskBatch) (s : Store)
    → ((transition_effects now user t b s).tasks ≡ s.tasks)
      × ((transition_effects now user t b s).batches ≡ s.batches)
unfolding transition_effects
transition_effects-keeps now user t b s =
    let text : String = "The reminder was cancelled because the task was completed." in
    let s₁ =
      create_audit_log user "task" "status_change" t.id
        (create_task_activity t user TaskActivityType.status_changed s) in
    let (_, tasks, batches) = cancel_active_task_reminders_lem now (t ∷ []) user text s₁ in
    let (sent, kept) =
      schedule_completed-keeps t b (cancel_active_task_reminders now (t ∷ []) user text s₁) in
    elim (Bool-cases (is_completed t.status)) [
      | inl y ↦ (ground (arith, y, sent, tasks), ground (arith, y, kept, batches))
      | inr n ↦ (ground (arith, n), ground (arith, n))
    ]

unknown_status :
    (site : Site) (now : ℕ) (user : User) (t : Task) (b : TaskBatch)
    → ¬ (is_ok (transition_row site now none user t b) ≡ true)
unfolding transition_row
unknown_status site now user t b h = ground arith

transition_row-accepts :
    (site : Site) (now : ℕ) (user : User) (new_status : Option TaskStatus) (t : Task)
    (b : TaskBatch)
    → IsValid t
    → (is_ok (transition_row site now new_status user t b) ≡ true)
      ↔ TransitionGuards site user new_status t b
transition_row-accepts site now user none t b valid =
    (λ h. absurd (unknown_status site now user t b h), λ (status, own, _, _, _, _, _, _). cc)
transition_row-accepts site now user (some status) t b valid = (
  λ h.
      let (t', made) = is_ok-found (transition_row site now (some status) user t b) h in
      let (may, _, _) = (transition_row_iff site now status user t t' b valid).0 made in
      let (going, known, moves) = (can_transition_iff t.status status).0 may.edge in
      (status, refl, may.allowed, none_of may.in_use, none_of may.open_batch, going, known, moves),
  λ (status', own, allowed, fresh, open_batch, going, known, moves).
      let edge =
        (can_transition_iff t.status status).1
          (going, ground (arith, own, known), ground (arith, own, moves)) in
      let may : MayTransition site user t b status = record {
        allowed = allowed;
        in_use = rw fresh refl;
        open_batch = rw open_batch refl;
        edge = edge;
      } in
      rw
        ((transition_row_iff site now status user t (with_status now status t) b valid).1
          (may, refl, with_status-IsValid now status t valid edge may.in_use))
        refl,
)

transition_row-MovedRow :
    (site : Site) (now : ℕ) (user : User) (new_status : Option TaskStatus) (t t' : Task)
    (b : TaskBatch)
    → IsValid t
    → transition_row site now new_status user t b ≡ ok t'
    → (t'.id ≡ t.id) × MovedRow now new_status t t'
transition_row-MovedRow site now user none t t' b valid made =
    absurd (unknown_status site now user t b (rw made refl))
transition_row-MovedRow site now user (some status) t t' b valid made =
    let (_, same, valid') = (transition_row_iff site now status user t t' b valid).0 made in
    (ap (λ x. x.id) same, rw same (refl, refl, refl, refl, subst IsValid same valid'))

-- Over tables of valid tasks `transition_task_status` is carried out exactly when the actor is signed in and
-- active, the text is a known status, the task and its batch are stored, the actor may update the task, it is not
-- archived and its batch not cancelled, its status is not final, and the new one is another and not
-- CANCELLED. Then the stored task has the new status, the completion time now if it is COMPLETED and none
-- otherwise, and is valid; no other column of it changes but the time of the update, and no other task
-- and no batch.
pub transition_task_status_iff :
    (site : Site) (now id : ℕ) (actor : Option User) (new_status : Option TaskStatus) (s : Store)
    → All IsValid s.tasks
    → ((is_ok (transition_task_status site now id actor new_status s) ≡ true)
        ↔ MaySetStatus site id actor new_status s)
      × Ensures
          (Moved now id actor new_status s)
          (transition_task_status site now id actor new_status s)
unfolding transition_task_status
transition_task_status_iff site now id actor new_status s v = (
  signed_iff actor _ (λ user. Locked id s (TransitionGuards site user new_status))
      (λ user.
        change_task_iff id (transition_row site now new_status user) _ s
          (TransitionGuards site user new_status)
          (λ t b found.
            transition_row-accepts site now user new_status t b
              (All-find IsValid (λ x. x.id == id) s.tasks v found))),
  signed-Ensures actor _ (λ _ x. Stored id s (MovedRow now new_status) x)
      (λ user.
        change_task-Ensures id (transition_row site now new_status user) _ s
          (MovedRow now new_status)
          (λ t t' b found made.
            transition_row-MovedRow site now user new_status t t' b
              (All-find IsValid (λ x. x.id == id) s.tasks v found) made)
          (λ t b x. transition_effects-keeps now user t b x)),
)
