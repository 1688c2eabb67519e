-- ===== src/Accounts/Hierarchy/Tests.antt =====
-- A reporting tree with a cycle beside it.
use holansl_backend.Base.{ℕ, ◌≡◌, refl, Option, none, some, List, [], ◌∷◌}
use holansl_backend.Accounts.Data.{StaffProfile}
use holansl_backend.Accounts.Hierarchy.{get_reporting_descendant_profile_ids}
use holansl_backend.Accounts.Hierarchy.Descendants.{
  IsDescendants, get_reporting_descendant_profile_ids_lem,
}

abbrev profile : ℕ → Option ℕ → StaffProfile
profile id manager = record {
  id = id;
  user = id;
  department = none;
  reports_to = manager;
  employee_id = "";
  start_date = 0;
  end_date = none;
}

-- 3 and 4 stand below 2, which stands below 1; 5 and 6 report to one another.
abbrev staff : List StaffProfile
staff =
    profile 1 none
    ∷ profile 2 (some 1)
    ∷ profile 3 (some 2)
    ∷ profile 4 (some 2)
    ∷ profile 5 (some 6)
    ∷ profile 6 (some 5)
    ∷ []

below_one : get_reporting_descendant_profile_ids staff 1 ≡ some (3 ∷ 4 ∷ 2 ∷ [])
unfolding get_reporting_descendant_profile_ids
below_one = refl

-- In a cycle a profile is found below itself.
below_five : get_reporting_descendant_profile_ids staff 5 ≡ some (5 ∷ 6 ∷ [])
unfolding get_reporting_descendant_profile_ids
below_five = refl

get_reporting_descendant_profile_ids_lem_example :
    (result : List ℕ) × (get_reporting_descendant_profile_ids staff 5 ≡ some result)
    × IsDescendants staff 5 result
get_reporting_descendant_profile_ids_lem_example = get_reporting_descendant_profile_ids_lem staff 5
