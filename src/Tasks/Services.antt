-- ===== src/Tasks/Services.antt =====
-- The eight services of tasks/services/lifecycle.py one after the other, as requests to them arrive: an
-- exception rolls its transaction back and leaves the store.
pub mod Sequences
mod Tests
use holansl_backend.Base.{ℕ, Option, List, [], ◌∷◌, String, Result, ok, err, ◌>>=◌}
use holansl_backend.Accounts.Data.{User}
use holansl_backend.Tasks.Data.{TaskStatus, Store}
use holansl_backend.Tasks.Access.{Site}
use holansl_backend.Tasks.Lifecycle.{
  transition_task_status, cancel_task, archive_task, restore_task,
}
use holansl_backend.Tasks.Batches.{cancel_task_batch, archive_task_batch, restore_task_batch}
use holansl_backend.Tasks.Batches.Editing.{Change, update_task_batch}

pub data Service : Type 0 where
  transition : ℕ → Option TaskStatus → Service
  cancel : ℕ → Option String → Service
  archive restore : ℕ → Service
  update_batch : ℕ → List Change → Service
  cancel_batch : ℕ → Option String → Service
  archive_batch restore_batch : ℕ → Service

-- A request: the surroundings, the time, the actor and the service.
pub record Request : Type 0 where
  pub site : Site
  pub now : ℕ
  pub actor : Option User
  pub service : Service

unfoldable pub serve : Site → ℕ → Option User → Service → Store → Result Store
serve site now actor (transition id status) s = do
  (t, s') ← transition_task_status site now id actor status s
  ok s'
serve site now actor (cancel id reason) s = do
  (t, s') ← cancel_task site now id actor reason s
  ok s'
serve site now actor (archive id) s = do (t, s') ← archive_task site now id actor s; ok s'
serve site now actor (restore id) s = do (t, s') ← restore_task site now id actor s; ok s'
serve site now actor (update_batch id changes) s = do
  (b, s') ← update_task_batch site now id actor changes s
  ok s'
serve site now actor (cancel_batch id reason) s = do
  (b, ts, s') ← cancel_task_batch site now id actor reason s
  ok s'
serve site now actor (archive_batch id) s = do
  (b, ts, s') ← archive_task_batch site now id actor s
  ok s'
serve site now actor (restore_batch id) s = do
  (b, ts, s') ← restore_task_batch site now id actor s
  ok s'

-- `transaction.atomic`
unfoldable pub serve_all : List Request → Store → Store
unfolding serve
serve_all [] s = s
serve_all (q ∷ qs) s = elim (serve q.site q.now q.actor q.service s) [
  | err e ↦ serve_all qs s
  | ok s' ↦ serve_all qs s'
]
