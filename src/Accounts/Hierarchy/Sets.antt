-- ===== src/Accounts/Hierarchy/Sets.antt =====
-- Membership in lists of ids, and the profiles that report to one of a set of managers.
use holansl_backend.Base.{
  ℕ, ◌≡◌, refl, ap, Option-cases, Bool, true, not, ◌&&◌, ◌||◌, some, List, [], ◌∷◌, ◌++◌, arith,
  ◌==◌, ==_iff, any, contains, is_value, Bool-cases, inl, inr,
}
use holansl_backend.Accounts.Data.{StaffProfile}
use holansl_backend.Accounts.Hierarchy.{reports_to_in, report_ids, difference}

pub contains-append :
    (k : ℕ) (xs ys : List ℕ) → contains k (xs ++ ys) ≡ (contains k xs || contains k ys)
contains-append k [] ys = refl
contains-append k (x ∷ xs) ys = ground (arith, contains-append k xs ys)

pub contains-difference :
    (k : ℕ) (xs ys : List ℕ)
    → contains k (difference xs ys) ≡ (contains k xs && not (contains k ys))
contains-difference k [] ys = refl
contains-difference k (x ∷ xs) ys = elim (Bool-cases (x == k)) [
  | inl e ↦ ground (arith, contains-difference k xs ys, ap (λ j. contains j ys) ((==_iff x k).0 e))
  | inr e ↦ ground (arith, contains-difference k xs ys, e)
]

-- Some profile with the id `k` reports to the profile `m`.
abbrev pub reports : List StaffProfile → ℕ → ℕ → Bool
reports profiles m k = any (λ p. is_value p.reports_to m && p.id == k) profiles

reports_to_in-some :
    (ms : List ℕ) (p : StaffProfile)
    → reports_to_in ms p ≡ true
    → (m : ℕ) × (p.reports_to ≡ some m) × (contains m ms ≡ true)
reports_to_in-some ms p h = elim (Option-cases p.reports_to) [
  | inl e ↦ ground arith
  | inr (m, e) ↦ (m, e, ground arith)
]

reports_to_in-value :
    (ms : List ℕ) (p : StaffProfile) (m : ℕ)
    → is_value p.reports_to m ≡ true
    → contains m ms ≡ true
    → reports_to_in ms p ≡ true
reports_to_in-value ms p m e h = elim (Option-cases p.reports_to) [
  | inl at ↦ ground arith
  | inr (n, at) ↦
      let same : n ≡ m = ground arith in ground (arith, at, ap (λ j. contains j ms) same)
]

pub report_ids_sound :
    (profiles : List StaffProfile) (ms : List ℕ) (k : ℕ)
    → contains k (report_ids profiles ms) ≡ true
    → (m : ℕ) × (contains m ms ≡ true) × (reports profiles m k ≡ true)
report_ids_sound [] ms k h = cc
report_ids_sound (p ∷ ps) ms k h = elim (Bool-cases (reports_to_in ms p && p.id == k)) [
  | inl e ↦
      let (m, at, known) = reports_to_in-some ms p (ground arith) in (m, known, ground (arith, at))
  | inr e ↦
      let (m, known, r) = report_ids_sound ps ms k (ground arith) in (m, known, ground (arith, r))
]

pub report_ids_complete :
    (profiles : List StaffProfile) (ms : List ℕ) (m k : ℕ)
    → contains m ms ≡ true
    → reports profiles m k ≡ true
    → contains k (report_ids profiles ms) ≡ true
report_ids_complete [] ms m k h r = r
report_ids_complete (p ∷ ps) ms m k h r =
    ground (arith, report_ids_complete ps ms m k, reports_to_in-value ms p m)
