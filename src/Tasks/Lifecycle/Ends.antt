-- ===== src/Tasks/Lifecycle/Ends.antt =====
-- How a service of tasks/services/lifecycle.py ends: when it raises nothing, and what it then leaves.
use holansl_backend.Base.{
  ℕ, ◌≡◌, ◌↔◌, refl, ap, subst, ◌∙◌, Bool, true, false, Option, none, some, List, [], ◌∷◌, String,
  arith, inl, inr, Bool-cases, find, update, is_empty, strip, ◌==◌, ==_iff,
}
use holansl_backend.Accounts.Data.{User}
use holansl_backend.Tasks.Data.{Task, TaskBatch, Store, Result, ok, err, ◌>>=◌, >>=-eq-ok}
use holansl_backend.Tasks.Effects.{require_actor, clean_reason, lock_task, save_task}
use holansl_backend.Tasks.Lifecycle.{change_task}
use holansl_backend.Tasks.Lifecycle.Invariant.{lock_task_lem, change_task-Changed}

abbrev pub is_ok : {B : Type 0} → Result B → Bool
is_ok (ok b) = true
is_ok (err e) = false

-- What is returned, where nothing is raised, has the property.
abbrev pub Ensures : {B : Type 0} → (B → Type 0) → Result B → Type 0
Ensures Q (ok b) = Q b
Ensures Q (err e) = Unit

pub Ensures-ok :
    {B : Type 0} → (Q : B → Type 0) → (r : Result B) → ((b : B) → r ≡ ok b → Q b) → Ensures Q r
Ensures-ok Q (ok b) h = h b refl
Ensures-ok Q (err e) h = tt

pub is_ok-found : {B : Type 0} → (r : Result B) → is_ok r ≡ true → (b : B) × (r ≡ ok b)
is_ok-found (ok b) h = (b, refl)
is_ok-found (err e) h = cc

-- The actor is somebody who is signed in and active.
abbrev pub IsSignedIn : Option User → User → Type 0
IsSignedIn actor user =
    (actor ≡ some user) × (user.is_authenticated ≡ true) × (user.is_active ≡ true)

require_actor_iff :
    (actor : Option User) (user : User) → (require_actor actor ≡ ok user) ↔ IsSignedIn actor user
unfolding require_actor
require_actor_iff none user = (λ h. cc, λ h. cc)
require_actor_iff (some u) user = (λ h. ground arith, λ h. ground arith)

module _ {B : Type 0} (actor : Option User) (next : User → Result B) where
  pub signed_iff :
      (P : User → Type 0)
      → ((user : User) → (is_ok (next user) ≡ true) ↔ P user)
      → (is_ok (require_actor actor >>= next) ≡ true)
        ↔ ((user : User) × IsSignedIn actor user × P user)
  signed_iff P each = (
    λ h.
        let (b, made) = is_ok-found (require_actor actor >>= next) h in
        let (user, first, rest) = >>=-eq-ok (require_actor actor) next made in
        (user, (require_actor_iff actor user).0 first, (each user).0 (rw rest refl)),
    λ (user, signed, p). rw ((require_actor_iff actor user).1 signed) ((each user).1 p),
  )

  pub signed-Ensures :
      (Q : User → B → Type 0)
      → ((user : User) → Ensures (Q user) (next user))
      → Ensures (λ x. (user : User) × (actor ≡ some user) × Q user x) (require_actor actor >>= next)
  signed-Ensures Q each =
      Ensures-ok (λ x. (user : User) × (actor ≡ some user) × Q user x)
        (require_actor actor >>= next)
        (λ x made.
          let (user, first, rest) = >>=-eq-ok (require_actor actor) next made in
          let (own, _, _) = (require_actor_iff actor user).0 first in
          (user, own, subst (Ensures (Q user)) rest (each user)))

clean_reason_iff :
    (reason : Option String) (r : String)
    → (clean_reason reason ≡ ok r) ↔ (
        (text : String) × (reason ≡ some text) × (is_empty (strip text) ≡ false) × (r ≡ strip text))
unfolding clean_reason
clean_reason_iff none r = (λ h. cc, λ (text, h, _, _). cc)
clean_reason_iff (some s) r = (
  λ h. (s, refl, ground arith, ground arith),
  λ (text, own, full, made). ground (arith, own, full, made),
)

-- A reason is given that is not blank, and stripped it has the property.
abbrev pub Reasoned : Option String → (String → Type 0) → Type 0
Reasoned reason P =
    (text : String) × (reason ≡ some text) × (is_empty (strip text) ≡ false) × P (strip text)

module _ {B : Type 0} (reason : Option String) (next : String → Result B) where
  pub reasoned_iff :
      (P : String → Type 0)
      → ((r : String)
          → clean_reason reason ≡ ok r
          → is_empty r ≡ false
          → (is_ok (next r) ≡ true) ↔ P r)
      → (is_ok (clean_reason reason >>= next) ≡ true) ↔ Reasoned reason P
  reasoned_iff P each = (
    λ h.
        let (b, made) = is_ok-found (clean_reason reason >>= next) h in
        let (r, first, rest) = >>=-eq-ok (clean_reason reason) next made in
        let (text, own, full, same) = (clean_reason_iff reason r).0 first in
        (text, own, full, subst P same ((each r first (rw same full)).0 (rw rest refl))),
    λ (text, own, full, p).
        let clean = (clean_reason_iff reason (strip text)).1 (text, own, full, refl) in
        rw clean ((each (strip text) clean full).1 p),
  )

  pub reasoned-Ensures :
      (Q : String → B → Type 0)
      → ((r : String) → clean_reason reason ≡ ok r → Ensures (Q r) (next r))
      → Ensures (λ x. Reasoned reason (λ r. Q r x)) (clean_reason reason >>= next)
  reasoned-Ensures Q each =
      Ensures-ok (λ x. Reasoned reason (λ r. Q r x)) (clean_reason reason >>= next)
        (λ x made.
          let (r, first, rest) = >>=-eq-ok (clean_reason reason) next made in
          let (text, own, full, same) = (clean_reason_iff reason r).0 first in
          (text, own, full, subst (λ r. Q r x) same (subst (Ensures (Q r)) rest (each r first))))

-- The tables have the task with its batch, and they have the property.
abbrev pub Locked : ℕ → Store → (Task → TaskBatch → Type 0) → Type 0
Locked id s P =
    (t : Task) × (b : TaskBatch) × (find (λ x. x.id == id) s.tasks ≡ some t)
    × (find (λ x. x.id == t.batch) s.batches ≡ some b)
    × P t b

-- The returned task is stored in the place of the old one, the other tasks and all batches are as they were,
-- and the property relates the two rows.
abbrev pub Stored : ℕ → Store → (Task → Task → Type 0) → Task × Store → Type 0
Stored id s Q x =
    (t : Task) × (find (λ y. y.id == id) s.tasks ≡ some t)
    × (find (λ y. y.id == id) (x.1).tasks ≡ some x.0)
    × ((x.1).tasks ≡ update (λ y. y.id == id) (λ _. x.0) s.tasks)
    × ((x.1).batches ≡ s.batches)
    × Q t x.0

find-save :
    (id : ℕ) (t' : Task) (ts : List Task) {t : Task}
    → find (λ x. x.id == id) ts ≡ some t
    → t'.id ≡ id
    → find (λ x. x.id == id) (update (λ x. x.id == id) (λ _. t') ts) ≡ some t'
find-save id t' [] h same = cc
find-save id t' (x ∷ ts) h same = elim (Bool-cases (x.id == id)) [
  | inl y ↦ let own : (t'.id == id) ≡ true = (==_iff t'.id id).1 same in rw (y, own) refl
  | inr n ↦ rw (n, n) (find-save id t' ts (rw n at h) same)
]

module _ (id : ℕ) (row : Task → TaskBatch → Result Task)
    (effects : Task → TaskBatch → Store → Store) (s : Store) where
  pub change_task_iff :
      (P : Task → TaskBatch → Type 0)
      → ((t : Task) (b : TaskBatch)
          → find (λ x. x.id == id) s.tasks ≡ some t
          → (is_ok (row t b) ≡ true) ↔ P t b)
      → (is_ok (change_task id row effects s) ≡ true) ↔ Locked id s P
  unfolding change_task lock_task
  change_task_iff P each = (
    λ h.
        let (x, made) = is_ok-found (change_task id row effects s) h in
        let c = change_task-Changed id row effects s x.0 x.1 made in
        let (found, joined, _) = lock_task_lem id s c.task c.batch c.locked in
        (c.task, c.batch, found, joined, (each c.task c.batch found).0 (rw c.made refl)),
    λ (t, b, found, joined, p).
        let (t', made) = is_ok-found (row t b) ((each t b found).1 p) in
        let locked : lock_task id s ≡ ok (t, b) = rw (lock_task, found, joined) refl in
        rw (change_task, locked, made) refl,
  )

  pub change_task-Ensures :
      (Q : Task → Task → Type 0)
      → ((t t' : Task) (b : TaskBatch)
          → find (λ x. x.id == id) s.tasks ≡ some t
          → row t b ≡ ok t'
          → (t'.id ≡ t.id) × Q t t')
      → ((t : Task) (b : TaskBatch) (x : Store)
          → ((effects t b x).tasks ≡ x.tasks) × ((effects t b x).batches ≡ x.batches))
      → Ensures (Stored id s Q) (change_task id row effects s)
  change_task-Ensures Q each keeps =
      Ensures-ok (Stored id s Q) (change_task id row effects s) (λ x made.
        let c = change_task-Changed id row effects s x.0 x.1 made in
        let (found, _, key) = lock_task_lem id s c.task c.batch c.locked in
        let (same, q) = each c.task x.0 c.batch found c.made in
        let (tasks, batches) = keeps x.0 c.batch (save_task x.0 s) in
        let at : (x.0).id ≡ id = same ∙ key in
        let saved : (x.1).tasks ≡ update (λ y. y.id == id) (λ _. x.0) s.tasks =
          ap (λ y. y.tasks) c.left
          ∙ tasks
          ∙ ap (λ k. update (λ y. y.id == k) (λ _. x.0) s.tasks) at in
        (
          c.task,
          found,
          rw saved (find-save id x.0 s.tasks found at),
          saved,
          ap (λ y. y.batches) c.left ∙ batches,
          q,
        ))
