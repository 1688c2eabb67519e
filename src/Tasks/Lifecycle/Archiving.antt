-- ===== src/Tasks/Lifecycle/Archiving.antt =====
-- When `archive_task` and `restore_task` of tasks/services/lifecycle.py are carried out, and what they leave.
use holansl_backend.Base.{
  ℕ, ◌≡◌, ◌↔◌, refl, ap, subst, true, Option, none, some, arith, All, All-find, is_some, ◌==◌,
}
use holansl_backend.Accounts.Data.{User}
use holansl_backend.Tasks.Data.{Task, Store, is_final_status}
use holansl_backend.Tasks.Access.{Site, can_archive_task, can_restore_task}
use holansl_backend.Tasks.Validation.Rules.{IsValid}
use holansl_backend.Tasks.Lifecycle.{
  with_archive, archive_row, log_effects, archive_task, without_archive, restore_row, restore_task,
}
use holansl_backend.Tasks.Lifecycle.Outcomes.{
  archive_row_iff, restore_row_iff, with_archive-IsValid, without_archive-IsValid,
}
use holansl_backend.Tasks.Lifecycle.Ends.{
  is_ok, Ensures, is_ok-found, IsSignedIn, signed_iff, signed-Ensures, Locked, Stored,
  change_task_iff, change_task-Ensures,
}

-- The rows are alike in all columns but those of the archive and the time of the update.
abbrev pub SameButArchive : ℕ → Task → Task → Type 0
SameButArchive now t t' =
    (t'.updated_at ≡ now)
    × (record t' {
      archived_at = t.archived_at;
      archived_by = t.archived_by;
      updated_at = t.updated_at;
    }
        ≡ t)

-- What `archive_task` asks for.
abbrev pub MayArchive : Site → ℕ → Option User → Store → Type 0
MayArchive site id actor s =
    (user : User) × IsSignedIn actor user
    × Locked id s (λ t b.
      (can_archive_task site user t b ≡ true)
      × (t.archived_at ≡ none)
      × (is_final_status t.status ≡ true))

-- The task that it leaves.
abbrev pub Archived : ℕ → ℕ → Option User → Store → Task × Store → Type 0
Archived now id actor s x =
    (user : User) × (actor ≡ some user)
    × Stored id s
        (λ t t'.
          (t'.archived_at ≡ some now)
          × (t'.archived_by ≡ some user.id)
          × SameButArchive now t t'
          × IsValid t')
        x

-- Over tables of valid tasks `archive_task` is carried out exactly when the actor is signed in and active, the
-- task and its batch are stored, the actor may archive the task, and it is final and not archived yet. Then
-- the stored task is in the archive, with the time and the actor, and valid; no other column of it changes but
-- the time of the update, and no other task and no batch.
pub archive_task_iff :
    (site : Site) (now id : ℕ) (actor : Option User) (s : Store)
    → All IsValid s.tasks
    → ((is_ok (archive_task site now id actor s) ≡ true) ↔ MayArchive site id actor s)
      × Ensures (Archived now id actor s) (archive_task site now id actor s)
unfolding archive_task log_effects
archive_task_iff site now id actor s v = (
  signed_iff actor _ _ (λ user. change_task_iff id (archive_row site now user) _ s _ (λ t b found.
      let valid : IsValid t = All-find IsValid (λ x. x.id == id) s.tasks v found in
      (
        λ h.
            let (t', made) = is_ok-found (archive_row site now user t b) h in
            let (may, fresh, final, _, _) = (archive_row_iff site now user t t' b valid).0 made in
            (may, ground arith, final),
        λ (may, fresh, final).
            rw
              ((archive_row_iff site now user t (with_archive now user t) b valid).1
                (may, rw fresh refl, final, refl, with_archive-IsValid now user t valid final))
              refl,
      ))),
  signed-Ensures actor _ _ (λ user.
      change_task-Ensures id (archive_row site now user) _ s _
        (λ t t' b found made.
          let valid : IsValid t = All-find IsValid (λ x. x.id == id) s.tasks v found in
          let (_, _, _, same, valid') = (archive_row_iff site now user t t' b valid).0 made in
          (ap (λ x. x.id) same, rw same (refl, refl, (refl, refl), subst IsValid same valid')))
        (λ t b x. (refl, refl))),
)

-- What `restore_task` asks for.
abbrev pub MayRestore : Site → ℕ → Option User → Store → Type 0
MayRestore site id actor s =
    (user : User) × IsSignedIn actor user
    × Locked id s (λ t b.
      (can_restore_task site user t b ≡ true)
      × (is_some t.archived_at ≡ true)
      × (b.archived_at ≡ none))

-- The task that it leaves.
abbrev pub Restored : ℕ → ℕ → Option User → Store → Task × Store → Type 0
Restored now id actor s x =
    (user : User) × (actor ≡ some user)
    × Stored id s
        (λ t t'.
          (t'.archived_at ≡ none) × (t'.archived_by ≡ none) × SameButArchive now t t' × IsValid t')
        x

-- Over tables of valid tasks `restore_task` is carried out exactly when the actor is signed in and active, the
-- task and its batch are stored, the actor may restore the task, it is archived, and its batch is not. Then
-- the stored task is out of the archive, both archive columns being empty, and valid; no other column of it
-- changes but the time of the update, and no other task and no batch.
pub restore_task_iff :
    (site : Site) (now id : ℕ) (actor : Option User) (s : Store)
    → All IsValid s.tasks
    → ((is_ok (restore_task site now id actor s) ≡ true) ↔ MayRestore site id actor s)
      × Ensures (Restored now id actor s) (restore_task site now id actor s)
unfolding restore_task log_effects
restore_task_iff site now id actor s v = (
  signed_iff actor _ _ (λ user. change_task_iff id (restore_row site now user) _ s _ (λ t b found.
      let valid : IsValid t = All-find IsValid (λ x. x.id == id) s.tasks v found in
      (
        λ h.
            let (t', made) = is_ok-found (restore_row site now user t b) h in
            let (may, filed, open_batch, _, _) =
              (restore_row_iff site now user t t' b valid).0 made in
            (may, filed, ground arith),
        λ (may, filed, open_batch).
            rw
              ((restore_row_iff site now user t (without_archive now t) b valid).1
                (may, filed, rw open_batch refl, refl, without_archive-IsValid now t valid))
              refl,
      ))),
  signed-Ensures actor _ _ (λ user.
      change_task-Ensures id (restore_row site now user) _ s _
        (λ t t' b found made.
          let valid : IsValid t = All-find IsValid (λ x. x.id == id) s.tasks v found in
          let (_, _, _, same, valid') = (restore_row_iff site now user t t' b valid).0 made in
          (ap (λ x. x.id) same, rw same (refl, refl, (refl, refl), subst IsValid same valid')))
        (λ t b x. (refl, refl))),
)
