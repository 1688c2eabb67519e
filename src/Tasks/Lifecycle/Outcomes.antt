-- ===== src/Tasks/Lifecycle/Outcomes.antt =====
-- The checks of the four services of tasks/services/lifecycle.py on one task, and the rows they make.
use holansl_backend.Base.{
  ℕ, ◌≡◌, ◌↔◌, sym, subst, ◌∙◌, true, false, Option, none, some, String, arith, is_some, is_empty,
  strip, is_empty-strip-strip,
}
use holansl_backend.Accounts.Data.{User}
use holansl_backend.Tasks.Data.{
  TaskStatus, Task, TaskBatch, ok, is_cancelled, is_final_status, same_status,
}
use holansl_backend.Tasks.Access.{
  Site, can_update_task_status, can_cancel_task, can_archive_task, can_restore_task,
}
use holansl_backend.Tasks.Validation.{is_blank}
use holansl_backend.Tasks.Validation.Rules.{IsValid, full_clean_task_iff}
use holansl_backend.Tasks.Effects.{clean_reason}
use holansl_backend.Tasks.Lifecycle.{
  can_transition, with_status, transition_row, with_cancellation, cancel_row, with_archive,
  archive_row, without_archive, restore_row,
}

pub with_status-IsValid :
    (now : ℕ) (status : TaskStatus) (t : Task)
    → IsValid t
    → can_transition t.status status ≡ true
    → is_some t.archived_at ≡ false
    → IsValid (with_status now status t)
with_status-IsValid now status t v h k = ground arith

pub with_cancellation-IsValid :
    (now : ℕ) (user : User) (reason : String) (t : Task)
    → IsValid t
    → is_blank reason ≡ false
    → IsValid (with_cancellation now user reason t)
with_cancellation-IsValid now user reason t v h = ground arith

pub with_archive-IsValid :
    (now : ℕ) (user : User) (t : Task)
    → IsValid t
    → is_final_status t.status ≡ true
    → IsValid (with_archive now user t)
with_archive-IsValid now user t v h = ground arith

pub without_archive-IsValid : (now : ℕ) (t : Task) → IsValid t → IsValid (without_archive now t)
without_archive-IsValid now t v = ground arith

-- The table leads from active statuses to other statuses, and never to CANCELLED.
pub can_transition-moves :
    (a b : TaskStatus)
    → can_transition a b ≡ true
    → (is_cancelled b ≡ false) × (same_status b a ≡ false) × (is_final_status a ≡ false)
can_transition-moves a b h = ground arith

-- What `transition_task_status` asks of the locked rows.
pub record MayTransition (site : Site) (user : User) (t : Task) (b : TaskBatch)
    (status : TaskStatus) : Type 0 where
  pub allowed : can_update_task_status site user t ≡ true
  pub in_use : is_some t.archived_at ≡ false
  pub open_batch : is_some b.cancelled_at ≡ false
  pub edge : can_transition t.status status ≡ true

-- A valid task goes to a known status exactly when the actor may update it, neither the task is
-- archived nor its batch cancelled, and the transition table allows the change; the row is then the
-- one of `with_status`, and valid.
pub transition_row_iff :
    (site : Site) (now : ℕ) (status : TaskStatus) (user : User) (t t' : Task) (b : TaskBatch)
    → IsValid t
    → (transition_row site now (some status) user t b ≡ ok t')
      ↔ (MayTransition site user t b status × (t' ≡ with_status now status t) × IsValid t')
unfolding transition_row
transition_row_iff site now status user t t' b v = (
  λ h.
      let may : MayTransition site user t b status = ground arith in
      let made : t' ≡ with_status now status t = ground arith in
      (
        may,
        made,
        subst IsValid (sym made) (with_status-IsValid now status t v may.edge may.in_use),
      ),
  λ (may, made, _).
      let clean =
        (full_clean_task_iff (with_status now status t)).1
          (with_status-IsValid now status t v may.edge may.in_use) in
      let (kept, moves, _) = can_transition-moves t.status status may.edge in ground (arith, clean),
)

-- A valid task is cancelled for a reason that is not blank exactly when the actor may cancel it and
-- it is neither archived nor final; the row is then the one of `with_cancellation`, and valid.
pub cancel_row_iff :
    (site : Site) (now : ℕ) (user : User) (reason : String) (t t' : Task) (b : TaskBatch)
    → IsValid t
    → is_blank reason ≡ false
    → (cancel_row site now user reason t b ≡ ok t') ↔ (
        (can_cancel_task site user t b ≡ true)
        × (is_some t.archived_at ≡ false)
        × (is_final_status t.status ≡ false)
        × (t' ≡ with_cancellation now user reason t)
        × IsValid t')
unfolding cancel_row
cancel_row_iff site now user reason t t' b v r =
    let valid = with_cancellation-IsValid now user reason t v r in
    let clean = (full_clean_task_iff (with_cancellation now user reason t)).1 valid in
    (
      λ h.
          let made : t' ≡ with_cancellation now user reason t = ground arith in
          (ground arith, ground arith, ground arith, made, subst IsValid (sym made) valid),
      λ h. ground (arith, clean),
    )

-- A valid task is archived exactly when the actor may archive it, it is not archived yet, and it is
-- final; the row is then the one of `with_archive`, and valid.
pub archive_row_iff :
    (site : Site) (now : ℕ) (user : User) (t t' : Task) (b : TaskBatch)
    → IsValid t
    → (archive_row site now user t b ≡ ok t') ↔ (
        (can_archive_task site user t b ≡ true)
        × (is_some t.archived_at ≡ false)
        × (is_final_status t.status ≡ true)
        × (t' ≡ with_archive now user t)
        × IsValid t')
unfolding archive_row
archive_row_iff site now user t t' b v = (
  λ h.
      let final : is_final_status t.status ≡ true = ground arith in
      let made : t' ≡ with_archive now user t = ground arith in
      (
        ground arith,
        ground arith,
        final,
        made,
        subst IsValid (sym made) (with_archive-IsValid now user t v final),
      ),
  λ (may, fresh, final, made, _).
      let clean =
        (full_clean_task_iff (with_archive now user t)).1
          (with_archive-IsValid now user t v final) in
      ground (arith, clean),
)

-- A valid task is restored exactly when the actor may restore it, it is archived, and its batch is
-- not; the row is then the one of `without_archive`, and valid.
pub restore_row_iff :
    (site : Site) (now : ℕ) (user : User) (t t' : Task) (b : TaskBatch)
    → IsValid t
    → (restore_row site now user t b ≡ ok t') ↔ (
        (can_restore_task site user t b ≡ true)
        × (is_some t.archived_at ≡ true)
        × (is_some b.archived_at ≡ false)
        × (t' ≡ without_archive now t)
        × IsValid t')
unfolding restore_row
restore_row_iff site now user t t' b v =
    let valid = without_archive-IsValid now t v in
    let clean = (full_clean_task_iff (without_archive now t)).1 valid in
    (
      λ h.
          let made : t' ≡ without_archive now t = ground arith in
          (ground arith, ground arith, ground arith, made, subst IsValid (sym made) valid),
      λ h. ground (arith, clean),
    )

-- A reason that was accepted is not blank, and is the given one stripped.
pub clean_reason_lem :
    (reason : Option String) (r : String)
    → clean_reason reason ≡ ok r
    → (is_blank r ≡ false) × (is_empty r ≡ false)
unfolding clean_reason
clean_reason_lem none r h = cc
clean_reason_lem (some s) r h =
    let made : strip s ≡ r = ground arith in
    let full : is_empty (strip s) ≡ false = ground arith in
    (
      subst (λ x. is_blank x ≡ false) made (is_empty-strip-strip s ∙ full),
      subst (λ x. is_empty x ≡ false) made full,
    )
