-- ===== src/Accounts/Staffing.antt =====
-- `StaffProfile.clean` and `DepartmentLeadership.clean` of accounts/models.py, and saving a cleaned row. The
-- walk up the reporting line takes fuel; `none` means that the fuel ran out.
pub mod Chains
pub mod Leaders
mod Tests
use holansl_backend.Base.{
  ℕ, zero, suc, Bool, true, false, not, ◌&&◌, ◌||◌, Option, none, some, List, [], ◌∷◌, ◌++◌, ltb,
  leb, ◌==◌, if◌then◌else◌, is_some, is_value, find, select, any, update, contains, length, Error,
  not_found, validation_error, Result, ok, err, check, ◌>>=◌, ◌>>◌,
}
use holansl_backend.Accounts.Data.{User, StaffProfile, DepartmentLeadership, Directory}

abbrev pub find_profile : ℕ → List StaffProfile → Option StaffProfile
find_profile id ps = find (λ p. p.id == id) ps

-- The `while` loop of `StaffProfile.clean`, at the profile `current`. A missing row is the exception of the
-- foreign key's lookup.
unfoldable pub walk :
    List StaffProfile → Option ℕ → ℕ → List ℕ → Option ℕ → Option (Result (Unit {0}))
walk ps self zero visited current = none
walk ps self (suc fuel) visited none = some (ok tt)
walk ps self (suc fuel) visited (some c) =
    let rest : Option (Result (Unit {0})) = elim (find_profile c ps) [
      | none ↦ some (err (not_found "StaffProfile"))
      | some p ↦ walk ps self fuel (c ∷ visited) p.reports_to
    ] in
    if is_value self c
    then some (
        err (
          validation_error "reports_to"
            "This reporting relationship would create a circular hierarchy."))
    else if contains c visited
    then some (
        err (
          validation_error "reports_to"
            "The selected reporting chain already contains a circular relationship."))
    else rest

-- `user.is_active` of the user of a profile
abbrev pub user_is_active : Directory → ℕ → Bool
user_is_active d id = any (λ u. u.id == id && u.is_active) d.users

-- `StaffProfile.clean`: `self` is the key, `none` for a row that is not stored yet.
unfoldable pub clean_profile : Directory → Option ℕ → Option ℕ → Option (Result (Unit {0}))
unfolding walk
clean_profile d self none = some (ok tt)
clean_profile d self (some m) =
    if is_value self m
    then some (err (validation_error "reports_to" "A staff member cannot report to themselves."))
    else elim (find_profile m d.profiles) [
      | none ↦ some (err (not_found "StaffProfile"))
      | some manager ↦
          if not (user_is_active d manager.user)
          then some
              (err (validation_error "reports_to" "The selected reporting manager is inactive."))
          else if elim manager.end_date [ none ↦ false | some e ↦ ltb e d.today ]
          then some (
              err (
                validation_error "reports_to"
                  "The selected reporting manager's employment has ended."))
          else walk d.profiles self (suc (suc (length d.profiles))) [] (some m)
    ]

-- `profile.save()` with the new manager, of a stored row
abbrev pub save_manager : ℕ → Option ℕ → List StaffProfile → List StaffProfile
save_manager id manager ps = update (λ p. p.id == id) (λ p. record p { reports_to = manager }) ps

-- `active_until is None or active_until >= day`
abbrev pub lasts_to : Option ℕ → ℕ → Bool
lasts_to none day = true
lasts_to (some e) day = leb day e

-- The periods of two leaderships have a day in common.
abbrev pub overlaps : DepartmentLeadership → DepartmentLeadership → Bool
overlaps l x = lasts_to l.active_until x.active_from && lasts_to x.active_until l.active_from

-- Two primary leaders of one department at a time.
abbrev pub conflicts : DepartmentLeadership → DepartmentLeadership → Bool
conflicts l x = l.department == x.department && l.is_primary && x.is_primary && overlaps l x

-- `DepartmentLeadership.clean`; `exclude(pk=self.pk)` is left out where `stored` is false.
unfoldable pub clean_leadership : Directory → Bool → DepartmentLeadership → Result (Unit {0})
clean_leadership d stored l = do
  check (lasts_to l.active_until l.active_from)
      (validation_error "active_until" "The end date cannot be before the start date.")
  elim (find_profile l.manager d.profiles) [
    | none ↦ err (not_found "StaffProfile")
    | some manager ↦ do
      check (user_is_active d manager.user || not (lasts_to l.active_until d.today)) (
          validation_error "manager"
            "An inactive staff member cannot be assigned as an active department leader.")
      check (leb manager.start_date l.active_from) (
          validation_error "active_from"
            "The leadership start date cannot be before the manager's employment start date.")
      check (lasts_to manager.end_date l.active_from) (
          validation_error "active_from"
            "The leadership start date cannot be after the manager's employment end date.")
      check (not (any (λ x. not (stored && x.id == l.id) && conflicts l x) d.leaderships)) (
          validation_error "is_primary"
            "This department already has a primary leader during the selected period.")
  ]

-- `leadership.save()` of a new row, and of a stored one
abbrev pub add_leadership :
    DepartmentLeadership → List DepartmentLeadership → List DepartmentLeadership
add_leadership l ls = ls ++ l ∷ []

abbrev pub save_leadership :
    DepartmentLeadership → List DepartmentLeadership → List DepartmentLeadership
save_leadership l ls = update (λ x. x.id == l.id) (λ _. l) ls

abbrev pub put_leadership :
    Bool → DepartmentLeadership → List DepartmentLeadership → List DepartmentLeadership
put_leadership true l ls = save_leadership l ls
put_leadership false l ls = add_leadership l ls
