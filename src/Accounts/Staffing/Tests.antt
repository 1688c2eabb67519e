-- ===== src/Accounts/Staffing/Tests.antt =====
-- A reporting line, a circle that is refused, and two primary leaders one after the other.
use holansl_backend.Base.{
  ℕ, ◌≡◌, refl, true, false, Option, none, some, [], ◌∷◌, is_some, validation_error, ok, err,
}
use holansl_backend.Accounts.Data.{User, StaffProfile, DepartmentLeadership, Directory}
use holansl_backend.Accounts.Staffing.{
  clean_profile, save_manager, clean_leadership, put_leadership,
}
use holansl_backend.Accounts.Staffing.Chains.{
  Ends, top, up, clean_profile_returns, clean_profile-Ends,
}
use holansl_backend.Accounts.Staffing.Leaders.{HasOnePrimary, clean_leadership-HasOnePrimary}

abbrev user : ℕ → User
user id = record {
  id = id;
  username = "";
  full_name = "";
  email = "";
  is_authenticated = true;
  is_active = true;
  is_staff = true;
  is_superuser = false;
}

abbrev profile : ℕ → Option ℕ → StaffProfile
profile id manager = record {
  id = id;
  user = id;
  department = some 1;
  reports_to = manager;
  employee_id = "";
  start_date = 10;
  end_date = none;
}

abbrev leader : ℕ → ℕ → ℕ → Option ℕ → DepartmentLeadership
leader id manager start stop = record {
  id = id;
  department = 1;
  manager = manager;
  active_from = start;
  active_until = stop;
  is_primary = true;
}

abbrev staff : Directory
staff = record {
  users = user 1 ∷ user 2 ∷ user 3 ∷ [];
  departments = [];
  profiles = profile 1 none ∷ profile 2 (some 1) ∷ profile 3 none ∷ [];
  leaderships = leader 1 1 20 (some 40) ∷ [];
  today = 50;
}

-- 1 stands above 2 and cannot report to 2.
no_circle :
    clean_profile staff (some 1) (some 2)
    ≡ some (
        err (
          validation_error "reports_to"
            "This reporting relationship would create a circular hierarchy."))
unfolding clean_profile
no_circle = refl

accepted : clean_profile staff (some 3) (some 2) ≡ some (ok tt)
unfolding clean_profile
accepted = refl

clean_profile_returns_example : is_some (clean_profile staff (some 1) (some 2)) ≡ true
clean_profile_returns_example = clean_profile_returns staff (some 1) (some 2)

clean_profile-Ends_example : Ends (save_manager 3 (some 2) staff.profiles) (some 3)
clean_profile-Ends_example =
    clean_profile-Ends staff 3 (some 2) accepted 3 (up (profile 3 none) refl top)

-- The next leader begins on the day after.
successor : clean_leadership staff false (leader 2 2 41 none) ≡ ok tt
unfolding clean_leadership
successor = refl

clean_leadership-HasOnePrimary_example :
    HasOnePrimary (put_leadership false (leader 2 2 41 none) staff.leaderships)
clean_leadership-HasOnePrimary_example =
    clean_leadership-HasOnePrimary staff false (leader 2 2 41 none) (tt, tt) refl successor
