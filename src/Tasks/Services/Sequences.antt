-- ===== src/Tasks/Services/Sequences.antt =====
-- Sequences of requests to tasks/services/lifecycle.py, and the invariant of the store.
use holansl_backend.Base.{
  ℕ, ◌≡◌, subst, Option, List, [], ◌∷◌, arith, inl, inr, ok, Result-cases, >>=-eq-ok,
}
use holansl_backend.Accounts.Data.{User}
use holansl_backend.Tasks.Data.{Store}
use holansl_backend.Tasks.Access.{Site}
use holansl_backend.Tasks.Lifecycle.{
  transition_task_status, cancel_task, archive_task, restore_task,
}
use holansl_backend.Tasks.Lifecycle.Invariant.{IsSound}
use holansl_backend.Tasks.Lifecycle.Preserved.{
  transition_task_status-IsSound, cancel_task-IsSound, archive_task-IsSound, restore_task-IsSound,
}
use holansl_backend.Tasks.Batches.{cancel_task_batch, archive_task_batch, restore_task_batch}
use holansl_backend.Tasks.Batches.Editing.{update_task_batch}
use holansl_backend.Tasks.Batches.Preserved.{
  cancel_task_batch-IsSound, archive_task_batch-IsSound, restore_task_batch-IsSound,
}
use holansl_backend.Tasks.Batches.Edited.{update_task_batch-IsSound}
use holansl_backend.Tasks.Services.{
  Service, transition, cancel, archive, restore, update_batch, cancel_batch, archive_batch,
  restore_batch, Request, serve, serve_all,
}

ok-injective : {s s' : Store} → ok s ≡ ok s' → s ≡ s'
ok-injective h = ground arith

pub serve-IsSound :
    (site : Site) (now : ℕ) (actor : Option User) (call : Service) (s s' : Store)
    → IsSound s
    → serve site now actor call s ≡ ok s'
    → IsSound s'
unfolding serve
serve-IsSound site now actor (transition id status) s s' v h =
    let ((t, after), made, last) =
      >>=-eq-ok (transition_task_status site now id actor status s) _ h in
    subst IsSound (ok-injective last)
      (transition_task_status-IsSound site now id s v actor status t after made)
serve-IsSound site now actor (cancel id reason) s s' v h =
    let ((t, after), made, last) = >>=-eq-ok (cancel_task site now id actor reason s) _ h in
    subst IsSound (ok-injective last)
      (cancel_task-IsSound site now id s v actor reason t after made)
serve-IsSound site now actor (archive id) s s' v h =
    let ((t, after), made, last) = >>=-eq-ok (archive_task site now id actor s) _ h in
    subst IsSound (ok-injective last) (archive_task-IsSound site now id s v actor t after made)
serve-IsSound site now actor (restore id) s s' v h =
    let ((t, after), made, last) = >>=-eq-ok (restore_task site now id actor s) _ h in
    subst IsSound (ok-injective last) (restore_task-IsSound site now id s v actor t after made)
serve-IsSound site now actor (update_batch id changes) s s' v h =
    let ((b, after), made, last) = >>=-eq-ok (update_task_batch site now id actor changes s) _ h in
    subst IsSound (ok-injective last)
      (update_task_batch-IsSound site now id actor changes s b after v made)
serve-IsSound site now actor (cancel_batch id reason) s s' v h =
    let ((b, ts, after), made, last) =
      >>=-eq-ok (cancel_task_batch site now id actor reason s) _ h in
    subst IsSound (ok-injective last)
      (cancel_task_batch-IsSound site now id s v actor reason b ts after made)
serve-IsSound site now actor (archive_batch id) s s' v h =
    let ((b, ts, after), made, last) = >>=-eq-ok (archive_task_batch site now id actor s) _ h in
    subst IsSound (ok-injective last)
      (archive_task_batch-IsSound site now id s v actor b ts after made)
serve-IsSound site now actor (restore_batch id) s s' v h =
    let ((b, ts, after), made, last) = >>=-eq-ok (restore_task_batch site now id actor s) _ h in
    subst IsSound (ok-injective last)
      (restore_task_batch-IsSound site now id s v actor b ts after made)

-- Whatever requests arrive at the eight services on tasks and batches, in whatever order, from whom and
-- when, a sound store stays sound: all tasks valid, and no active reminder of a finished task.
pub serve_all-IsSound : (qs : List Request) (s : Store) → IsSound s → IsSound (serve_all qs s)
unfolding serve_all
serve_all-IsSound [] s v = v
serve_all-IsSound (q ∷ qs) s v = elim (Result-cases (serve q.site q.now q.actor q.service s)) [
  | inr (e, refused) ↦ rw (serve_all, refused) (serve_all-IsSound qs s v)
  | inl (s', made) ↦
      rw (serve_all, made)
        (serve_all-IsSound qs s' (serve-IsSound q.site q.now q.actor q.service s s' v made))
]
