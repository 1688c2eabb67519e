-- ===== src/Tasks/Access/Assignees.antt =====
-- `can_assign_to_user` of tasks/services/access.py along the reporting lines.
use holansl_backend.Base.{
  ℕ, ◌≡◌, true, ◌&&◌, some, List, [], ◌∷◌, map, arith, find, select, contains, ◌==◌,
}
use holansl_backend.Accounts.Data.{User, StaffProfile}
use holansl_backend.Accounts.Hierarchy.Descendants.{Below, get_reporting_descendant_profile_ids_lem}
use holansl_backend.Tasks.Access.{
  Site, Permission, get_staff_profile, descendant_profile_ids, get_reporting_descendant_user_ids,
  can_assign_to_user,
}

-- The user of a found profile is among the users of the profiles with its id.
found_user :
    (ids : List ℕ) (u : ℕ) (ps : List StaffProfile) (p : StaffProfile)
    → find (λ x. x.user == u) ps ≡ some p
    → contains p.id ids ≡ true
    → contains u (map (λ x. x.user) (select (λ x. contains x.id ids) ps)) ≡ true
found_user ids u [] p e h = cc
found_user ids u (x ∷ ps) p e h = ground (arith, found_user ids u ps p)

module _ (site : Site) (user target : User) (boss p : StaffProfile) where
  -- The search puts everybody below the user's profile among the user's descendants.
  pub Below-descendants :
      get_staff_profile site user ≡ some boss
      → find (λ x. x.user == target.id) site.directory.profiles ≡ some p
      → Below site.directory.profiles boss.id p.id
      → contains target.id (get_reporting_descendant_user_ids site user) ≡ true
  unfolding get_reporting_descendant_user_ids
  Below-descendants own found below =
      let (ids, search, exact) =
        get_reporting_descendant_profile_ids_lem site.directory.profiles boss.id in
      let inside : contains p.id ids ≡ true = (exact p.id).1 below in
      let there = found_user ids target.id site.directory.profiles p found inside in
      rw (get_reporting_descendant_user_ids, own, descendant_profile_ids, search) there

  -- A user with the permission to assign tasks may assign them to every active user whose profile
  -- stands below the user's own one in the reporting lines, however far, if both are active.
  pub can_assign_to_user-Below :
      (user.is_authenticated && user.is_active && target.is_authenticated && target.is_active)
        ≡ true
      → site.has_perm user Permission.assign_task ≡ true
      → get_staff_profile site user ≡ some boss
      → get_staff_profile site target ≡ some p
      → Below site.directory.profiles boss.id p.id
      → can_assign_to_user site user target ≡ true
  unfolding can_assign_to_user
  can_assign_to_user-Below live may own theirs below =
      let found : find (λ x. x.user == target.id) site.directory.profiles ≡ some p =
        ground (arith, theirs, live) in
      let inside = Below-descendants own found below in ground (arith, live, may, theirs, inside)
