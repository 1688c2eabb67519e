-- ===== src/Tasks/Lifecycle/Cancelling.antt =====
-- When `cancel_task` of tasks/services/lifecycle.py is carried out, and what it leaves.
use holansl_backend.Base.{
  ℕ, ◌≡◌, ◌↔◌, refl, ap, subst, ◌∙◌, true, false, Option, none, some, [], ◌∷◌, String, arith, inl,
  inr, Option-cases, All, All-find, ◌==◌,
}
use holansl_backend.Accounts.Data.{User}
use holansl_backend.Tasks.Data.{
  cancelled, TaskActivityType, Task, TaskBatch, Store, is_final_status,
}
use holansl_backend.Tasks.Access.{Site, can_cancel_task}
use holansl_backend.Tasks.Validation.{is_blank}
use holansl_backend.Tasks.Validation.Rules.{IsValid}
use holansl_backend.Tasks.Effects.{
  create_task_activity, create_audit_log, schedule_task_cancelled_notification,
}
use holansl_backend.Tasks.Reminders.{cancel_active_task_reminders}
use holansl_backend.Tasks.Reminders.Automatic.{cancel_active_task_reminders_lem}
use holansl_backend.Tasks.Lifecycle.{with_cancellation, cancel_row, cancel_effects, cancel_task}
use holansl_backend.Tasks.Lifecycle.Outcomes.{
  cancel_row_iff, clean_reason_lem, with_cancellation-IsValid,
}
use holansl_backend.Tasks.Lifecycle.Ends.{
  is_ok, Ensures, is_ok-found, IsSignedIn, signed_iff, signed-Ensures, Reasoned, reasoned_iff,
  reasoned-Ensures, Locked, Stored, change_task_iff, change_task-Ensures,
}

-- What the cancellation asks of the locked rows.
abbrev pub CancelGuards : Site → User → Task → TaskBatch → Type 0
CancelGuards site user t b =
    (can_cancel_task site user t b ≡ true)
    × (t.archived_at ≡ none)
    × (is_final_status t.status ≡ false)

-- What `cancel_task` asks for.
abbrev pub MayCancel : Site → ℕ → Option User → Option String → Store → Type 0
MayCancel site id actor reason s =
    (user : User) × IsSignedIn actor user
    × Reasoned reason (λ _. Locked id s (CancelGuards site user))

-- The rows before and after a cancellation.
abbrev pub CancelledRow : ℕ → User → String → Task → Task → Type 0
CancelledRow now user reason t t' =
    (t'.status ≡ cancelled)
    × (t'.completed_at ≡ none)
    × (t'.cancelled_at ≡ some now)
    × (t'.cancelled_by ≡ some user.id)
    × (t'.cancellation_reason ≡ reason)
    × (t'.updated_at ≡ now)
    × (record t' {
      status = t.status;
      completed_at = t.completed_at;
      cancelled_at = t.cancelled_at;
      cancelled_by = t.cancelled_by;
      cancellation_reason = t.cancellation_reason;
      updated_at = t.updated_at;
    }
        ≡ t)
    × IsValid t'

-- The task that it leaves.
abbrev pub Cancelled : ℕ → ℕ → Option User → Option String → Store → Task × Store → Type 0
Cancelled now id actor reason s x =
    (user : User) × (actor ≡ some user)
    × Reasoned reason (λ r. Stored id s (CancelledRow now user r) x)

schedule_cancelled-keeps :
    (t : Task) (s : Store)
    → ((schedule_task_cancelled_notification t s).tasks ≡ s.tasks)
      × ((schedule_task_cancelled_notification t s).batches ≡ s.batches)
schedule_cancelled-keeps t s = elim (Option-cases t.assigned_to) [
  | inl e ↦ (ground (arith, e), ground (arith, e))
  | inr (u, e) ↦ (ground (arith, e), ground (arith, e))
]

cancel_effects-keeps :
    (now : ℕ) (user : User) (t : Task) (b : TaskBatch) (s : Store)
    → ((cancel_effects now user t b s).tasks ≡ s.tasks)
      × ((cancel_effects now user t b s).batches ≡ s.batches)
unfolding cancel_effects
cancel_effects-keeps now user t b s =
    let text : String = "The reminder was cancelled because the task was cancelled." in
    let s₁ =
      create_audit_log user "task" "cancel" t.id
        (create_task_activity t user TaskActivityType.task_cancelled s) in
    let (_, tasks, batches) = cancel_active_task_reminders_lem now (t ∷ []) user text s₁ in
    let (sent, kept) =
      schedule_cancelled-keeps t (cancel_active_task_reminders now (t ∷ []) user text s₁) in
    (sent ∙ tasks, kept ∙ batches)

cancel_row-accepts :
    (site : Site) (now : ℕ) (user : User) (r : String) (t : Task) (b : TaskBatch)
    → IsValid t
    → is_blank r ≡ false
    → (is_ok (cancel_row site now user r t b) ≡ true) ↔ CancelGuards site user t b
cancel_row-accepts site now user r t b valid blank = (
  λ h.
      let (t', made) = is_ok-found (cancel_row site now user r t b) h in
      let (may, fresh, going, _, _) = (cancel_row_iff site now user r t t' b valid blank).0 made in
      (may, ground arith, going),
  λ (may, fresh, going).
      rw
        ((cancel_row_iff site now user r t (with_cancellation now user r t) b valid blank).1
          (may, rw fresh refl, going, refl, with_cancellation-IsValid now user r t valid blank))
        refl,
)

-- Over tables of valid tasks `cancel_task` is carried out exactly when the actor is signed in and active, a
-- reason is given that is not blank, the task and its batch are stored, the actor may cancel the task, and it is
-- neither archived nor final. Then the stored task is CANCELLED at the time, by the actor and for the stripped
-- reason, without a completion time, and valid; no other column of it changes but the time of the
-- update, and no other task and no batch.
pub cancel_task_iff :
    (site : Site) (now id : ℕ) (actor : Option User) (reason : Option String) (s : Store)
    → All IsValid s.tasks
    → ((is_ok (cancel_task site now id actor reason s) ≡ true) ↔ MayCancel site id actor reason s)
      × Ensures (Cancelled now id actor reason s) (cancel_task site now id actor reason s)
unfolding cancel_task
cancel_task_iff site now id actor reason s v = (
  signed_iff actor _ (λ user. Reasoned reason (λ _. Locked id s (CancelGuards site user)))
      (λ user.
        reasoned_iff reason _ (λ _. Locked id s (CancelGuards site user))
          (λ r clean full.
            change_task_iff id (cancel_row site now user r) _ s (CancelGuards site user)
              (λ t b found.
                cancel_row-accepts site now user r t b
                  (All-find IsValid (λ x. x.id == id) s.tasks v found)
                  (clean_reason_lem reason r clean).0))),
  signed-Ensures actor _ (λ user x. Reasoned reason (λ r. Stored id s (CancelledRow now user r) x))
      (λ user.
        reasoned-Ensures reason _ (λ r x. Stored id s (CancelledRow now user r) x)
          (λ r clean.
            change_task-Ensures id (cancel_row site now user r) _ s (CancelledRow now user r)
              (λ t t' b found made.
                let valid : IsValid t = All-find IsValid (λ x. x.id == id) s.tasks v found in
                let (_, _, _, same, valid') =
                  (cancel_row_iff site now user r t t' b valid
                      (clean_reason_lem reason r clean).0).0
                    made in
                (
                  ap (λ x. x.id) same,
                  rw same (refl, refl, refl, refl, refl, refl, refl, subst IsValid same valid'),
                ))
              (λ t b x. cancel_effects-keeps now user t b x))),
)
