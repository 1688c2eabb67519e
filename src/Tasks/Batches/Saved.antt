-- ===== src/Tasks/Batches/Saved.antt =====
-- The tables after a service of tasks/services/lifecycle.py saved the rows of its plan for a batch.
use holansl_backend.Base.{
  ℕ, ◌≡◌, refl, Bool, false, List, [], ◌∷◌, map, arith, inl, inr, select, contains, All, All-update,
  ◌==◌,
}
use holansl_backend.Tasks.Data.{Task, TaskBatch, Store, ok, Result-cases}
use holansl_backend.Tasks.Validation.{full_clean_task}
use holansl_backend.Tasks.Validation.Rules.{IsValid, full_clean_task_iff}
use holansl_backend.Tasks.Effects.{lock_batch, save_task, save_batch}
use holansl_backend.Tasks.Lifecycle.Invariant.{is_finished, is_finished-save}
use holansl_backend.Tasks.Batches.{tasks_of, save_tasks, full_clean_tasks, Plan, change_batch}

pub full_clean_tasks-All : (ts : List Task) → full_clean_tasks ts ≡ ok tt → All IsValid ts
unfolding full_clean_tasks
full_clean_tasks-All [] h = tt
full_clean_tasks-All (t ∷ ts) h = elim (Result-cases (full_clean_task t)) [
  | inl (tt, e) ↦ ((full_clean_task_iff t).0 (ground arith), full_clean_tasks-All ts (ground arith))
  | inr (e, refused) ↦ ground arith
]

pub save_tasks-keeps :
    (ts : List Task) (s : Store)
    → ((save_tasks ts s).reminders ≡ s.reminders) × ((save_tasks ts s).batches ≡ s.batches)
unfolding save_tasks
save_tasks-keeps [] s = (refl, refl)
save_tasks-keeps (t ∷ ts) s = save_tasks-keeps ts (save_task t s)

pub save_tasks-All :
    (P : Task → Type 0) (ts : List Task) (s : Store)
    → All P ts
    → All P s.tasks
    → All P (save_tasks ts s).tasks
unfolding save_tasks
save_tasks-All P [] s new old = old
save_tasks-All P (t ∷ ts) s new old =
    save_tasks-All P ts (save_task t s) new.1
      (All-update P (λ x. x.id == t.id) (λ _. t) s.tasks (λ _ _ _. new.0) old)

-- A task is finished in the saved table only if it was, or if a saved row says so.
pub save_tasks-unfinished :
    (k : ℕ) (ts : List Task) (s : Store)
    → is_finished s.tasks k ≡ false
    → is_finished ts k ≡ false
    → is_finished (save_tasks ts s).tasks k ≡ false
unfolding save_tasks
save_tasks-unfinished k [] s old new = old
save_tasks-unfinished k (t ∷ ts) s old new =
    save_tasks-unfinished k ts (save_task t s)
      (is_finished-save k t s.tasks old (ground (arith, new))) (ground (arith, new))

pub is_finished-select :
    (k : ℕ) (p : Task → Bool) (ts : List Task)
    → is_finished ts k ≡ false
    → is_finished (select p ts) k ≡ false
is_finished-select k p [] h = refl
is_finished-select k p (t ∷ ts) h = ground (arith, is_finished-select k p ts)

-- A rewrite of rows that keeps ids and statuses.
pub is_finished-map :
    (k : ℕ) (f : Task → Task) (ts : List Task)
    → ((t : Task) → ((f t).id ≡ t.id) × ((f t).status ≡ t.status))
    → is_finished (map f ts) k ≡ is_finished ts k
is_finished-map k f [] same = refl
is_finished-map k f (t ∷ ts) same = rw ((same t).0, (same t).1, is_finished-map k f ts same) refl

-- A task that no saved row names is not finished by them.
pub is_finished-absent :
    (k : ℕ) (ts : List Task) → contains k (map (λ t. t.id) ts) ≡ false → is_finished ts k ≡ false
is_finished-absent k [] h = refl
is_finished-absent k (t ∷ ts) h = ground (arith, is_finished-absent k ts)

-- What a change of a batch did, in parts.
pub record Changed (id : ℕ) (plan : Plan) (effects : TaskBatch → List Task → Store → Store)
    (s : Store) (b' : TaskBatch) (ts : List Task) (s' : Store) : Type 0 where
  pub batch : TaskBatch
  pub locked : lock_batch id s ≡ ok batch
  pub made : plan batch (tasks_of batch.id s) ≡ ok (b', ts)
  pub left : s' ≡ effects b' ts (save_tasks ts (save_batch b' s))

pub change_batch-Changed :
    (id : ℕ) (plan : Plan) (effects : TaskBatch → List Task → Store → Store) (s : Store)
    (b' : TaskBatch) (ts : List Task) (s' : Store)
    → change_batch id plan effects s ≡ ok (b', ts, s')
    → Changed id plan effects s b' ts s'
unfolding change_batch
change_batch-Changed id plan effects s b' ts s' h = elim (Result-cases (lock_batch id s)) [
  | inl (b, locked) ↦ elim (Result-cases (plan b (tasks_of b.id s))) [
    | inl ((b₁, ts₁), made) ↦ record {
      batch = b;
      locked = locked;
      made = ground arith;
      left = ground arith;
    }
    | inr (e, refused) ↦ ground arith
  ]
  | inr (e, refused) ↦ ground arith
]
