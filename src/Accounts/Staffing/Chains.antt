-- ===== src/Accounts/Staffing/Chains.antt =====
-- The reporting lines that `StaffProfile.clean` of accounts/models.py accepts.
use holansl_backend.Base.{
  ℕ, zero, suc, ◌<◌, ◌≡◌, refl, sym, subst, ◌∙◌, true, false, not, Option, none, some, List, [],
  ◌∷◌, arith, inl, inr, Bool-cases, Option-cases, ◌==◌, ==_iff, is_value, is_some, select, any,
  contains, length, ok,
}
use holansl_backend.Accounts.Data.{StaffProfile, Directory}
use holansl_backend.Accounts.Hierarchy.Descendants.{length-select-lt, unfound-nil}
use holansl_backend.Accounts.Staffing.{find_profile, walk, clean_profile, save_manager}

-- The chain of managers from a profile ends.
pub data Ends (ps : List StaffProfile) : Option ℕ → Type 0 where
  top : Ends ps none
  up :
      {id : ℕ} (p : StaffProfile)
      → find_profile id ps ≡ some p
      → Ends ps p.reports_to
      → Ends ps (some id)

find-any :
    (c : ℕ) (ps : List StaffProfile) (p : StaffProfile)
    → find_profile c ps ≡ some p
    → any (λ x. x.id == c) ps ≡ true
find-any c [] p e = cc
find-any c (x ∷ ps) p e = ground (arith, find-any c ps p)

module _ (ps : List StaffProfile) (self : Option ℕ) where
  -- The profiles that the walk has not met.
  abbrev unmet : List ℕ → ℕ
  unmet visited = length (select (λ p. not (contains p.id visited)) ps)

  walk_returns :
      (fuel : ℕ) (visited : List ℕ) (current : Option ℕ)
      → unmet visited < fuel
      → is_some (walk ps self fuel visited current) ≡ true
  unfolding walk
  walk_returns zero visited current h = absurd (omega arith)
  walk_returns (suc fuel) visited none h = refl
  walk_returns (suc fuel) visited (some c) h = elim (Bool-cases (is_value self c)) [
    | inl e ↦ rw e refl
    | inr e ↦ elim (Bool-cases (contains c visited)) [
      | inl seen ↦ rw (e, seen) refl
      | inr new ↦ elim (Option-cases (find_profile c ps)) [
        | inl gone ↦ rw (e, new, gone) refl
        | inr (p, found) ↦
            let less =
              length-select-lt visited (c ∷ []) c ps (find-any c ps p found) new (ground arith) in
            rw (e, new, found) (walk_returns fuel (c ∷ visited) p.reports_to (omega (arith, less)))
      ]
    ]
  ]

-- The check of a profile with its manager always returns, also when the reporting lines hold a circle,
-- stored or not.
pub clean_profile_returns :
    (d : Directory) (self manager : Option ℕ) → is_some (clean_profile d self manager) ≡ true
unfolding clean_profile
clean_profile_returns d self none = refl
clean_profile_returns d self (some m) =
    let returns =
      walk_returns d.profiles self (suc (suc (length d.profiles))) [] (some m)
        (omega (arith, unfound-nil d.profiles)) in
    elim (Option-cases (find_profile m d.profiles)) [
      | inl gone ↦ ground (arith, returns)
      | inr (boss, found) ↦ ground (arith, returns)
    ]

find-save_manager :
    (c k : ℕ) (manager : Option ℕ) (ps : List StaffProfile)
    → (k == c) ≡ false
    → find_profile c (save_manager k manager ps) ≡ find_profile c ps
find-save_manager c k manager [] h = refl
find-save_manager c k manager (x ∷ ps) h = ground (arith, find-save_manager c k manager ps)

find-save_manager_self :
    (k : ℕ) (manager : Option ℕ) (ps : List StaffProfile) (p : StaffProfile)
    → find_profile k ps ≡ some p
    → find_profile k (save_manager k manager ps) ≡ some (record p { reports_to = manager })
find-save_manager_self k manager [] p h = cc
find-save_manager_self k manager (x ∷ ps) p h = elim (Bool-cases (x.id == k)) [
  | inl e ↦ ground (arith, e)
  | inr e ↦ ground (arith, e, find-save_manager_self k manager ps p)
]

module _ (ps : List StaffProfile) (k : ℕ) (manager : Option ℕ) where
  -- A walk that was accepted passes by the row `k`, so that it ends in the new table too.
  walk-Ends :
      (fuel : ℕ) (visited : List ℕ) (current : Option ℕ)
      → walk ps (some k) fuel visited current ≡ some (ok tt)
      → Ends (save_manager k manager ps) current
  unfolding walk
  walk-Ends zero visited current h = cc
  walk-Ends (suc fuel) visited none h = top
  walk-Ends (suc fuel) visited (some c) h = elim (Bool-cases (k == c)) [
    | inl e ↦ ground (arith, e)
    | inr e ↦ elim (Option-cases (find_profile c ps)) [
      | inl gone ↦ ground (arith, e, gone)
      | inr (p, found) ↦
          let rest : walk ps (some k) fuel (c ∷ visited) p.reports_to ≡ some (ok tt) =
            ground (arith, e, found) in
          up p (find-save_manager c k manager ps e ∙ found)
            (walk-Ends fuel (c ∷ visited) p.reports_to rest)
    ]
  ]

  Ends-save :
      Ends (save_manager k manager ps) manager
      → (current : Option ℕ) → Ends ps current
      → Ends (save_manager k manager ps) current
  Ends-save new none top = top
  Ends-save new (some c) (up p found rest) = elim (Bool-cases (k == c)) [
    | inl e ↦
        let same : k ≡ c = (==_iff k c).0 e in
        subst (λ j. Ends (save_manager k manager ps) (some j)) same
          (up (record p { reports_to = manager })
            (find-save_manager_self k manager ps p
              (subst (λ j. find_profile j ps ≡ some p) (sym same) found))
            new)
    | inr e ↦ up p (find-save_manager c k manager ps e ∙ found) (Ends-save new p.reports_to rest)
  ]

clean_profile-walk :
    (d : Directory) (k : ℕ) (manager : Option ℕ)
    → clean_profile d (some k) manager ≡ some (ok tt)
    → Ends (save_manager k manager d.profiles) manager
unfolding clean_profile
clean_profile-walk d k none h = top
clean_profile-walk d k (some m) h =
    walk-Ends d.profiles k (some m) (suc (suc (length d.profiles))) [] (some m) (ground arith)

-- Once the check of a stored profile accepts its new manager, and the manager is saved, every chain of
-- managers that ended before still ends, so that no circle came about.
pub clean_profile-Ends :
    (d : Directory) (k : ℕ) (manager : Option ℕ)
    → clean_profile d (some k) manager ≡ some (ok tt)
    → (id : ℕ) → Ends d.profiles (some id)
    → Ends (save_manager k manager d.profiles) (some id)
clean_profile-Ends d k manager accepted id before =
    Ends-save d.profiles k manager (clean_profile-walk d k manager accepted) (some id) before
