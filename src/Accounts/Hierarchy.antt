-- ===== src/Accounts/Hierarchy.antt =====
-- The search for everybody below a manager: `get_reporting_descendant_profile_ids` of
-- tasks/services/access.py. A set of ids is a list, and the `while` loop takes fuel; `none` means
-- that the fuel ran out.
pub mod Sets
pub mod Descendants
mod Tests
use holansl_backend.Base.{
  ℕ, zero, suc, Bool, false, not, Option, none, some, List, [], ◌∷◌, ◌++◌, map, select, contains,
  length, is_some,
}
use holansl_backend.Accounts.Data.{StaffProfile}

-- `reports_to_id__in=manager_ids`
abbrev pub reports_to_in : List ℕ → StaffProfile → Bool
reports_to_in manager_ids p = elim p.reports_to [ none ↦ false | some m ↦ contains m manager_ids ]

-- `StaffProfile.objects.filter(reports_to_id__in=manager_ids).values_list("id")`
abbrev pub report_ids : List StaffProfile → List ℕ → List ℕ
report_ids profiles manager_ids = map (λ p. p.id) (select (reports_to_in manager_ids) profiles)

-- `xs - ys`
abbrev pub difference : List ℕ → List ℕ → List ℕ
difference xs ys = select (λ x. not (contains x ys)) xs

-- The `while` loop over `current_manager_ids`, with `descendant_ids`.
pub descend : List StaffProfile → ℕ → List ℕ → List ℕ → Option (List ℕ)
descend profiles zero descendant_ids current = none
descend profiles (suc fuel) descendant_ids [] = some descendant_ids
descend profiles (suc fuel) descendant_ids (m ∷ ms) =
    let next = difference (report_ids profiles (m ∷ ms)) descendant_ids in
    elim next [
      | [] ↦ some descendant_ids
      | x ∷ xs ↦ descend profiles fuel ((x ∷ xs) ++ descendant_ids) (x ∷ xs)
    ]

-- From the profile `root`. One round for each profile is enough.
unfoldable pub get_reporting_descendant_profile_ids : List StaffProfile → ℕ → Option (List ℕ)
unfolding descend
get_reporting_descendant_profile_ids profiles root =
    descend profiles (suc (length profiles)) [] (root ∷ [])
