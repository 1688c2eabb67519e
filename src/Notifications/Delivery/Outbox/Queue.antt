-- ===== src/Notifications/Delivery/Outbox/Queue.antt =====
-- The outbox pass of notifications/services/delivery.py: its selection, counters and stale locks.
use mathlib.Core.List.Perm
use mathlib.Core.List.{Perm}
use holansl_backend.Base.{
  ℕ, ◌+◌, ◌-◌, ◌≤◌, ◌<◌, ◌≡◌, refl, Bool, true, false, Option, none, some, arith, inl, inr,
  Bool-cases, List, [], ◌∷◌, map, take, length, length-take-le, select, update, find, All,
  if◌then◌else◌, ◌==◌, is_some,
}
use holansl_backend.Notifications.Data.{DeliveryStatus, Delivery, Store, Settings}
use holansl_backend.Notifications.Delivery.{
  find_delivery, expires_at, is_expired, claim, claim_locked, claim_delivery, Attempt,
  dispatch_delivery,
}
use holansl_backend.Notifications.Delivery.Dispatching.{dispatch_delivery_lem}
use holansl_backend.Notifications.Delivery.Outbox.{
  is_stale, release, release_stale_processing_deliveries, is_due, is_before, insert_ordered, order,
  get_due_delivery_ids, Summary, process_ids, effective_batch_size, process_due_deliveries,
}

-- Each row is due to be tried no later than the rows behind it.
abbrev pub IsOrdered : List Delivery → Type 0
IsOrdered [] = Unit
IsOrdered (d ∷ ds) = All (λ e. d.next_attempt_at ≤ e.next_attempt_at) ds × IsOrdered ds

insert_ordered-All :
    (t : ℕ) (d : Delivery) (ds : List Delivery)
    → t ≤ d.next_attempt_at
    → All (λ e. t ≤ e.next_attempt_at) ds
    → All (λ e. t ≤ e.next_attempt_at) (insert_ordered d ds)
unfolding insert_ordered
insert_ordered-All t d [] h k = (h, tt)
insert_ordered-All t d (e ∷ es) h k = ground (arith, insert_ordered-All t d es h k.1)

All-trans :
    (t u : ℕ) (ds : List Delivery)
    → t ≤ u
    → All (λ e. u ≤ e.next_attempt_at) ds
    → All (λ e. t ≤ e.next_attempt_at) ds
All-trans t u [] h k = tt
All-trans t u (d ∷ ds) h k = (omega arith, All-trans t u ds h k.1)

insert_ordered-IsOrdered :
    (d : Delivery) (ds : List Delivery) → IsOrdered ds → IsOrdered (insert_ordered d ds)
unfolding insert_ordered
insert_ordered-IsOrdered d [] h = (tt, tt)
insert_ordered-IsOrdered d (e ∷ es) h = elim (Bool-cases (is_before d e)) [
  | inl first ↦
      let le : d.next_attempt_at ≤ e.next_attempt_at = ground arith in
      rw (insert_ordered, first) ((le, All-trans d.next_attempt_at e.next_attempt_at es le h.0), h)
  | inr later ↦
      let le : e.next_attempt_at ≤ d.next_attempt_at = ground arith in
      rw (insert_ordered, later)
        (insert_ordered-All e.next_attempt_at d es le h.0, insert_ordered-IsOrdered d es h.1)
]

order-IsOrdered : (ds : List Delivery) → IsOrdered (order ds)
unfolding order
order-IsOrdered [] = tt
order-IsOrdered (d ∷ ds) = insert_ordered-IsOrdered d (order ds) (order-IsOrdered ds)

insert_ordered-perm : (d : Delivery) (ds : List Delivery) → Perm (insert_ordered d ds) (d ∷ ds)
unfolding insert_ordered
insert_ordered-perm d [] = Perm.refl (d ∷ [])
insert_ordered-perm d (e ∷ es) = elim (Bool-cases (is_before d e)) [
  | inl first ↦ rw (insert_ordered, first) (Perm.refl (d ∷ e ∷ es))
  | inr later ↦
      rw (insert_ordered, later)
        (Perm.trans (Perm.cons e (insert_ordered-perm d es)) (Perm.swap d e es))
]

order-perm : (ds : List Delivery) → Perm (order ds) ds
unfolding order
order-perm [] = Perm.refl []
order-perm (d ∷ ds) = Perm.trans (insert_ordered-perm d (order ds)) (Perm.cons d (order-perm ds))

-- The selection of a pass, as the front of the ordered due rows.
abbrev pub Selected : ℕ → ℕ → Store → Type 0
Selected batch_size now s =
    (rows : List Delivery) × (get_due_delivery_ids batch_size now s
      ≡ map (λ d. d.id) (take batch_size rows))
    × Perm rows (select (is_due now s) s.deliveries)
    × IsOrdered rows

-- The ids of a pass are those of the first `batch_size` rows of a list that holds exactly the due
-- rows of the table, each as often as the table does, in the order of their next attempts.
pub get_due_delivery_ids_lem : (batch_size now : ℕ) (s : Store) → Selected batch_size now s
unfolding get_due_delivery_ids
get_due_delivery_ids_lem batch_size now s =
    let due = select (is_due now s) s.deliveries in
    (order due, refl, order-perm due, order-IsOrdered due)

-- The selection and the claim agree: a stored row is selected as due exactly when a claim of it at the
-- same time would be granted.
pub is_due-claim_locked :
    (cfg : Settings) (now : ℕ) (d : Delivery) (s : Store)
    → is_due now s d ≡ is_some (claim_locked cfg now d s).0
unfolding claim_locked
is_due-claim_locked cfg now d s = ground arith

length-map_id : (ds : List Delivery) → length (map (λ d. d.id) ds) ≡ length ds
length-map_id [] = refl
length-map_id (d ∷ ds) = omega (arith, length-map_id ds)

length-get_due_delivery_ids-le :
    (batch_size now : ℕ) (s : Store) → length (get_due_delivery_ids batch_size now s) ≤ batch_size
unfolding get_due_delivery_ids
length-get_due_delivery_ids-le batch_size now s =
    rw length-map_id (length-take-le batch_size (order (select (is_due now s) s.deliveries)))

dispatch_delivery-total :
    (cfg : Settings) (env : Attempt) (id : ℕ) (s : Store)
    → (done : Bool) × (s' : Store) × (dispatch_delivery cfg env id s ≡ some (done, s'))
dispatch_delivery-total cfg env id s = elim (dispatch_delivery_lem cfg env id s) [
  | inl (_, e) ↦ (false, _, e)
  | inr (d, done, s', _, _, e, _, _, _, _) ↦ (done, s', e)
]

-- The calls of `dispatch_delivery` on ids in their order, each on the store that the one before it left; the
-- call number `p` has the surroundings `env p`. The list holds what they returned.
pub data Calls (cfg : Settings) (env : ℕ → Attempt)
    : List ℕ → ℕ → Store → List Bool → Store → Type 0 where
  finished : {p : ℕ} {s : Store} → Calls cfg env [] p s [] s
  called :
      {id p : ℕ} {ids : List ℕ} {s s₁ s' : Store} {done : Bool} {results : List Bool}
      → dispatch_delivery cfg (env p) id s ≡ some (done, s₁)
      → Calls cfg env ids (p + 1) s₁ results s'
      → Calls cfg env (id ∷ ids) p s (done ∷ results) s'

-- How often a list holds a result.
abbrev pub count : Bool → List Bool → ℕ
count b [] = 0
count true (true ∷ xs) = count true xs + 1
count true (false ∷ xs) = count true xs
count false (true ∷ xs) = count false xs
count false (false ∷ xs) = count false xs + 1

-- The loop returns after it has made its calls, with both counters.
process_ids_lem :
    (cfg : Settings) (env : ℕ → Attempt) (ids : List ℕ) (p k : ℕ) (s : Store)
    → (p' : ℕ) × (k' : ℕ) × (s' : Store) × (results : List Bool) × (process_ids cfg env ids p k s
        ≡ some (p', k', s'))
      × Calls cfg env ids p s results s'
      × (p' ≡ p + length ids)
      × (k' ≡ k + count true results)
      × (count true results + count false results ≡ length ids)
unfolding process_ids
process_ids_lem cfg env [] p k s =
    (p, k, s, [], refl, Calls.finished, omega arith, omega arith, omega arith)
process_ids_lem cfg env (id ∷ ids) p k s =
    let (done, s₁, e) = dispatch_delivery-total cfg (env p) id s in
    let (p', k', s', results, r, calls, hp, hk, hl) =
      process_ids_lem cfg env ids (p + 1) (if done then k + 1 else k) s₁ in
    (
      p',
      k',
      s',
      done ∷ results,
      rw (process_ids, e) r,
      Calls.called e calls,
      ground arith,
      ground arith,
      ground arith,
    )

-- The calls and the counters of a pass: the ids are selected once the stale locks are released.
abbrev pub Processed : Settings → ℕ → ℕ → (ℕ → Attempt) → Option ℕ → Store → Type 0
Processed cfg released_at selected_at env batch_size s =
    let s₁ = release_stale_processing_deliveries cfg released_at s in
    let ids = get_due_delivery_ids (effective_batch_size cfg batch_size) selected_at s₁ in
    (sum : Summary) × (s' : Store) × (results : List Bool) × (process_due_deliveries cfg released_at
        selected_at env batch_size s
      ≡ some (sum, s'))
    × Calls cfg env ids 0 s₁ results s'
    × (length ids ≤ effective_batch_size cfg batch_size)
    × (sum.selected ≡ length ids)
    × (sum.processed ≡ length ids)
    × (sum.succeeded ≡ count true results)
    × (sum.failed_or_deferred ≡ count false results)

-- An outbox pass always returns. After the release of stale locks it calls `dispatch_delivery` on
-- each of the due ids that it selected, in their order and each on the store that the call before it left, and
-- it leaves the store of the last call, or of the release if it selected none. It selects at most the
-- effective batch size; it reports how many ids it selected and processed, the calls that returned a
-- success as succeeded, and the others as failed or deferred.
pub process_due_deliveries_lem :
    (cfg : Settings) (released_at selected_at : ℕ) (env : ℕ → Attempt) (batch_size : Option ℕ)
    (s : Store)
    → Processed cfg released_at selected_at env batch_size s
unfolding process_due_deliveries
process_due_deliveries_lem cfg released_at selected_at env batch_size s =
    let s₁ = release_stale_processing_deliveries cfg released_at s in
    let n = effective_batch_size cfg batch_size in
    let ids = get_due_delivery_ids n selected_at s₁ in
    let (p', k', s', results, r, calls, hp, hk, hl) = process_ids_lem cfg env ids 0 0 s₁ in
    (
      record {
        selected = length ids;
        processed = p';
        succeeded = k';
        failed_or_deferred = p' - k';
      },
      s',
      results,
      rw (process_due_deliveries, r),
      calls,
      length-get_due_delivery_ids-le n selected_at s₁,
      refl,
      omega arith,
      omega arith,
      omega arith,
    )

no_stale :
    (cfg : Settings) (now : ℕ) (ds : List Delivery)
    → All (λ d. is_stale cfg now d ≡ false) (update (is_stale cfg now) (release now) ds)
unfolding release
no_stale cfg now [] = tt
no_stale cfg now (d ∷ ds) = (ground arith, no_stale cfg now ds)

find-release :
    (cfg : Settings) (now id : ℕ) (ds : List Delivery) {d : Delivery}
    → find (λ x. x.id == id) ds ≡ some d
    → find (λ x. x.id == id) (update (is_stale cfg now) (release now) ds)
      ≡ some (if is_stale cfg now d then release now d else d)
unfolding release
find-release cfg now id [] e = cc
find-release cfg now id (x ∷ ds) e = elim (Bool-cases (x.id == id)) [
  | inl t ↦ ground (arith, t)
  | inr n ↦ elim (Bool-cases (is_stale cfg now x)) [
    | inl stale ↦ rw (stale, n) (find-release cfg now id ds (rw n at e))
    | inr fresh ↦ rw (fresh, n) (find-release cfg now id ds (rw n at e))
  ]
]

-- The table after a release, and what became of the row `d`.
abbrev pub Released : Settings → ℕ → ℕ → Store → Delivery → Type 0
Released cfg now id s d =
    let s' = release_stale_processing_deliveries cfg now s in
    All (λ x. is_stale cfg now x ≡ false) s'.deliveries
    × (e : Delivery) × (find_delivery id s' ≡ some e)
    × (is_stale cfg now d ≡ false → e ≡ d)
    × (is_stale cfg now d ≡ true
        → (e.status ≡ DeliveryStatus.retrying)
          × (e.locked_at ≡ none)
          × (e.next_attempt_at ≡ now)
          × (e.attempt_count ≡ d.attempt_count))

-- After the release of stale locks no row of the table is stale; a row that was stale is found
-- again as RETRYING, unlocked and due at once, with its attempts as they were, and any other row
-- is found as it was.
pub release_stale_lem :
    (cfg : Settings) (now id : ℕ) (s : Store) {d : Delivery}
    → find_delivery id s ≡ some d
    → Released cfg now id s d
unfolding release_stale_processing_deliveries
release_stale_lem cfg now id s {d} h = (
  no_stale cfg now s.deliveries,
  (if is_stale cfg now d then release now d else d),
  find-release cfg now id s.deliveries h,
  (λ fresh. rw fresh),
  (λ stale. unfold release in rw stale (refl, refl, refl, refl)),
)

-- A claim right after the release gives out `d` beyond its number of attempts.
abbrev pub Reclaimed : Settings → ℕ → ℕ → Store → Delivery → Type 0
Reclaimed cfg now id s d =
    (c : Delivery) × ((claim_delivery cfg now id (release_stale_processing_deliveries cfg now s)).0
      ≡ some c)
    × (c.max_attempts ≡ d.max_attempts)
    × (c.max_attempts < c.attempt_count)

-- A row that is stale after its last attempt, whose time has come and whose notification has not
-- expired, is released and claimed once more: the release does not look at `max_attempts`, and the
-- next claim counts past it.
pub release_reclaims :
    (cfg : Settings) (now id : ℕ) (s : Store) {d : Delivery}
    → find_delivery id s ≡ some d
    → is_stale cfg now d ≡ true
    → d.scheduled_at ≤ now
    → is_expired now (expires_at d s) ≡ false
    → d.max_attempts ≤ d.attempt_count
    → Reclaimed cfg now id s d
unfolding claim_delivery claim_locked claim release_stale_processing_deliveries release
release_reclaims cfg now id s {d} h stale due fresh last =
    let found = find-release cfg now id s.deliveries h in
    (claim cfg now (release now d), ground (arith, found), refl, omega arith)
