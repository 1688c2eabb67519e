-- ===== src/Accounts/Hierarchy/Descendants.antt =====
-- The search of `get_reporting_descendant_profile_ids` in tasks/services/access.py against the relation
-- of standing below a manager.
use holansl_backend.Base.{
  ℕ, zero, suc, ◌≤◌, ◌<◌, ◌≡◌, refl, ap, sym, true, false, not, ◌⊎◌, ◌↔◌, inl, inr, some, List, [],
  ◌∷◌, ◌++◌, arith, ◌==◌, ==_iff, any, select, contains, length, Bool-cases, List-cases, subst,
}
use holansl_backend.Accounts.Data.{StaffProfile}
use holansl_backend.Accounts.Hierarchy.{
  report_ids, difference, descend, get_reporting_descendant_profile_ids,
}
use holansl_backend.Accounts.Hierarchy.Sets.{
  contains-append, contains-difference, reports, report_ids_sound, report_ids_complete,
}

-- `k` reports to `root`, directly or through other profiles.
pub data Below (profiles : List StaffProfile) (root : ℕ) : ℕ → Type 0 where
  direct : {k : ℕ} → reports profiles root k ≡ true → Below profiles root k
  indirect : {m k : ℕ} → Below profiles root m → reports profiles m k ≡ true → Below profiles root k

-- Nobody reports to one of no managers.
nil_reports :
    (profiles : List StaffProfile) (ds : List ℕ) → difference (report_ids profiles []) ds ≡ []
nil_reports [] ds = refl
nil_reports (p ∷ ps) ds = ground (arith, nil_reports ps ds)

-- Counting the profiles outside a growing set.
length-select-le :
    (ds es : List ℕ) (ps : List StaffProfile)
    → length (select (λ p. not (contains p.id (es ++ ds))) ps)
      ≤ length (select (λ p. not (contains p.id ds)) ps)
length-select-le ds es [] = omega arith
length-select-le ds es (p ∷ ps) =
    ground (arith, length-select-le ds es ps, contains-append p.id es ds)

pub length-select-lt :
    (ds es : List ℕ) (k : ℕ) (ps : List StaffProfile)
    → any (λ p. p.id == k) ps ≡ true
    → contains k ds ≡ false
    → contains k es ≡ true
    → length (select (λ p. not (contains p.id (es ++ ds))) ps)
      < length (select (λ p. not (contains p.id ds)) ps)
length-select-lt ds es k [] h old new = cc
length-select-lt ds es k (p ∷ ps) h old new = elim (Bool-cases (p.id == k)) [
  | inl e ↦
      let same = (==_iff p.id k).0 e in
      let at_ds : contains p.id ds ≡ false = subst (λ j. contains j ds ≡ false) (sym same) old in
      let at_es : contains p.id es ≡ true = subst (λ j. contains j es ≡ true) (sym same) new in
      ground (arith, length-select-le ds es ps, contains-append p.id es ds, at_ds, at_es)
  | inr e ↦
      ground (arith, length-select-lt ds es k ps (ground arith) old new, contains-append p.id es ds)
]

reports-any :
    (m k : ℕ) (ps : List StaffProfile) → reports ps m k ≡ true → any (λ p. p.id == k) ps ≡ true
reports-any m k [] h = h
reports-any m k (p ∷ ps) h = ground (arith, reports-any m k ps)

module _ (profiles : List StaffProfile) (root : ℕ) where
  -- `root`, or something that was found
  abbrev Seen : List ℕ → ℕ → Type 0
  Seen ds m = (m ≡ root) ⊎ (contains m ds ≡ true)

  -- What was found lies below; the current managers were seen; whatever reports to somebody seen was
  -- found, unless that manager is a current one.
  record Searched (ds current : List ℕ) : Type 0 where
    found : (k : ℕ) → contains k ds ≡ true → Below profiles root k
    frontier : (m : ℕ) → contains m current ≡ true → (m ≡ root) ⊎ Below profiles root m
    closed :
        (m k : ℕ)
        → Seen ds m
        → reports profiles m k ≡ true
        → (contains k ds ≡ true) ⊎ (contains m current ≡ true)

  -- The answer of the search.
  abbrev pub IsDescendants : List ℕ → Type 0
  IsDescendants ds = (k : ℕ) → (contains k ds ≡ true) ↔ Below profiles root k

  Searched-IsDescendants :
      (ds : List ℕ)
      → ((k : ℕ) → contains k ds ≡ true → Below profiles root k)
      → ((m k : ℕ) → Seen ds m → reports profiles m k ≡ true → contains k ds ≡ true)
      → IsDescendants ds
  Searched-IsDescendants ds found closed k = (found k, into k)
    where
      into : (k : ℕ) → Below profiles root k → contains k ds ≡ true
      into k (direct r) = closed root k (inl refl) r
      into k (indirect {m = m} b r) = closed m k (inr (into m b)) r

  Below-step :
      (m k : ℕ)
      → (m ≡ root) ⊎ Below profiles root m
      → reports profiles m k ≡ true
      → Below profiles root k
  Below-step m k (inl e) r = direct (subst (λ j. reports profiles j k ≡ true) e r)
  Below-step m k (inr b) r = indirect b r

  -- The new managers of a round, and what a new one was found by.
  next-Below :
      (ds current : List ℕ)
      → Searched ds current
      → (k : ℕ) → contains k (difference (report_ids profiles current) ds) ≡ true
      → Below profiles root k
  next-Below ds current inv k h =
      let split = contains-difference k (report_ids profiles current) ds in
      let (m, known, r) = report_ids_sound profiles current k (ground (arith, split)) in
      Below-step m k (inv.frontier m known) r

  -- A report of a current manager is new, or was found before.
  next_covers :
      (ds current : List ℕ) (m k : ℕ)
      → contains m current ≡ true
      → reports profiles m k ≡ true
      → (contains k ds ≡ true) ⊎ (contains k (difference (report_ids profiles current) ds) ≡ true)
  next_covers ds current m k known r =
      let all = report_ids_complete profiles current m k known r in
      ground (arith, all, contains-difference k (report_ids profiles current) ds)

  next_closed :
      (ds current : List ℕ)
      → Searched ds current
      → let next = difference (report_ids profiles current) ds in
        (m k : ℕ)
        → Seen (next ++ ds) m
        → reports profiles m k ≡ true
        → (contains k (next ++ ds) ≡ true) ⊎ (contains m next ≡ true)
  next_closed ds current inv m k seen r =
      let next = difference (report_ids profiles current) ds in
      elim (Bool-cases (contains m next)) [
        | inl new ↦ inr new
        | inr old ↦
            let seen' : Seen ds m = ground (arith, contains-append m next ds) in
            elim (inv.closed m k seen' r) [
              | inl known ↦ inl (ground (arith, contains-append k next ds))
              | inr now ↦
                  inl (ground (arith, contains-append k next ds, next_covers ds current m k now r))
            ]
      ]

  Searched-next :
      (ds current : List ℕ)
      → Searched ds current
      → let next = difference (report_ids profiles current) ds in Searched (next ++ ds) next
  Searched-next ds current inv =
      let next = difference (report_ids profiles current) ds in
      record {
        found = λ k h. elim (Bool-cases (contains k ds)) [
          | inl old ↦ inv.found k old
          | inr new ↦ next-Below ds current inv k (ground (arith, contains-append k next ds))
        ];
        frontier = λ m h. inr (next-Below ds current inv m h);
        closed = next_closed ds current inv;
      }

  Searched-start : Searched [] (root ∷ [])
  Searched-start = record {
    found = λ k h. cc;
    frontier = λ m h. inl (ground arith);
    closed = λ m k seen r. ground arith;
  }

  -- A round that finds nothing new ends the search.
  Searched-end :
      (ds current : List ℕ)
      → Searched ds current
      → difference (report_ids profiles current) ds ≡ []
      → IsDescendants ds
  Searched-end ds current inv none_new = Searched-IsDescendants ds inv.found λ m k seen r.
      elim (inv.closed m k seen r) [
        | inl known ↦ known
        | inr now ↦ elim (next_covers ds current m k now r) [
          | inl known ↦ known
          | inr new ↦ ground (arith, ap (contains k) none_new, new)
        ]
      ]

  -- How many profiles were not found yet.
  abbrev unfound : List ℕ → ℕ
  unfound ds = length (select (λ p. not (contains p.id ds)) profiles)

  next_smaller :
      (ds current : List ℕ) (x : ℕ) (xs : List ℕ)
      → difference (report_ids profiles current) ds ≡ x ∷ xs
      → unfound ((x ∷ xs) ++ ds) < unfound ds
  next_smaller ds current x xs e =
      let new : contains x (difference (report_ids profiles current) ds) ≡ true =
        rw e (ground arith) in
      let split = contains-difference x (report_ids profiles current) ds in
      let (m, known, r) = report_ids_sound profiles current x (ground (arith, split)) in
      length-select-lt ds (x ∷ xs) x profiles (reports-any m x profiles r) (ground (arith, split))
        (ground arith)

  descend_lem :
      (fuel : ℕ) (ds current : List ℕ)
      → Searched ds current
      → unfound ds < fuel
      → (result : List ℕ) × (descend profiles fuel ds current ≡ some result) × IsDescendants result
  unfolding descend
  descend_lem zero ds current inv h = absurd (omega arith)
  descend_lem (suc fuel) ds [] inv h = (ds, refl, Searched-end ds [] inv (nil_reports profiles ds))
  descend_lem (suc fuel) ds (m ∷ ms) inv h =
      let next = difference (report_ids profiles (m ∷ ms)) ds in
      elim (List-cases next) [
        | inl e ↦ (ds, rw (descend, e), Searched-end ds (m ∷ ms) inv e)
        | inr (x, xs, e) ↦
            let (result, r, good) =
              descend_lem fuel ((x ∷ xs) ++ ds) (x ∷ xs)
                (subst (λ n. Searched (n ++ ds) n) e (Searched-next ds (m ∷ ms) inv))
                (omega (arith, next_smaller ds (m ∷ ms) x xs e)) in
            (result, rw (descend, e) r, good)
      ]

pub unfound-nil :
    (profiles : List StaffProfile)
    → length (select (λ p. not (contains p.id [])) profiles) ≡ length profiles
unfound-nil [] = refl
unfound-nil (p ∷ ps) = omega (arith, unfound-nil ps)

-- The search for everybody below a manager returns, also when the reporting lines hold a cycle, and
-- an id is in its result exactly when it is that of a profile which reports to the manager directly or
-- through others.
pub get_reporting_descendant_profile_ids_lem :
    (profiles : List StaffProfile) (root : ℕ)
    → (result : List ℕ) × (get_reporting_descendant_profile_ids profiles root ≡ some result)
      × IsDescendants profiles root result
unfolding get_reporting_descendant_profile_ids
get_reporting_descendant_profile_ids_lem profiles root =
    descend_lem profiles root (suc (length profiles)) [] (root ∷ []) (Searched-start profiles root)
      (omega (arith, unfound-nil profiles))
