-- ===== src/Tasks/Access/Tests.antt =====
-- A manager, a manager below, and an assignee below both.
use holansl_backend.Base.{ℕ, ◌+◌, ◌≡◌, refl, true, false, Option, none, some, [], ◌∷◌}
use holansl_backend.Accounts.Data.{User, StaffProfile}
use holansl_backend.Accounts.Hierarchy.{get_reporting_descendant_profile_ids}
use holansl_backend.Accounts.Hierarchy.Descendants.{Below, direct, indirect}
use holansl_backend.Tasks.Access.{
  Site, Permission, has_any_permission, get_reporting_descendant_user_ids, can_assign_to_user,
}
use holansl_backend.Tasks.Access.Assignees.{can_assign_to_user-Below}

abbrev user : ℕ → User
user id = record {
  id = id;
  username = "u";
  full_name = "U";
  email = "";
  is_authenticated = true;
  is_active = true;
  is_staff = true;
  is_superuser = false;
}

abbrev profile : ℕ → Option ℕ → StaffProfile
profile id manager = record {
  id = 10 + id;
  user = id;
  department = none;
  reports_to = manager;
  employee_id = "";
  start_date = 0;
  end_date = none;
}

abbrev site : Site
site = record {
  directory = record {
    users = user 1 ∷ user 2 ∷ user 3 ∷ [];
    departments = [];
    profiles = profile 1 none ∷ profile 2 (some 11) ∷ profile 3 (some 12) ∷ [];
    leaderships = [];
    today = 100;
  };
  has_perm = λ _ p. elim p [ Permission.assign_task ↦ true | _ ↦ false ];
}

third-Below : Below site.directory.profiles 11 13
third-Below = indirect {m = 12} (direct refl) refl

-- Nobody assigns upwards.
not_upwards : can_assign_to_user site (user 3) (user 1) ≡ false
unfolding has_any_permission can_assign_to_user get_reporting_descendant_user_ids
    get_reporting_descendant_profile_ids
not_upwards = refl

can_assign_to_user-Below_example : can_assign_to_user site (user 1) (user 3) ≡ true
can_assign_to_user-Below_example =
    can_assign_to_user-Below site (user 1) (user 3) (profile 1 none) (profile 3 (some 12)) refl refl
      refl refl third-Below
