-- ===== src/Tasks/Access.antt =====
-- tasks/services/access.py: who may see, assign, manage and update tasks. Django's
-- `user.has_perm` is the field `has_perm` of the site; `None` for a user is not passed here.
pub mod Assignees
mod Tests
use holansl_backend.Base.{
  ℕ, Bool, true, false, not, ◌&&◌, ◌||◌, Option, none, some, List, [], ◌∷◌, ◌++◌, map, leb, ◌==◌,
  if◌then◌else◌, is_value, find, select, any, contains,
}
use holansl_backend.Accounts.Data.{User, StaffProfile, DepartmentLeadership, Directory}
use holansl_backend.Accounts.Hierarchy.{get_reporting_descendant_profile_ids}
use holansl_backend.Tasks.Data.{TaskBatch, Task, is_personal}

-- The permissions of the tasks application that the rules ask for.
pub data Permission : Type 0 where
  assign_task moderate_taskcomment : Permission
  view_department_task assign_department_task manage_department_task : Permission
  view_all_task assign_all_task manage_all_task : Permission

-- The surroundings of an authorisation: the staff directory and Django's permission backend.
pub record Site : Type 0 where
  pub directory : Directory
  pub has_perm : User → Permission → Bool

module _ (site : Site) where
  open site use {directory, has_perm}

  unfoldable pub has_any_permission : User → List Permission → Bool
  has_any_permission user permissions =
      if not user.is_authenticated || not user.is_active
      then false
      else if user.is_superuser
      then true
      else any (has_perm user) permissions

  -- `None` for a visitor, and for a user with no profile
  abbrev pub get_staff_profile : User → Option StaffProfile
  get_staff_profile user =
      if user.is_authenticated then find (λ p. p.user == user.id) directory.profiles else none

  -- `active_from <= today` and `active_until` open or not before today
  abbrev pub is_active_leadership : DepartmentLeadership → Bool
  is_active_leadership l =
      leb l.active_from directory.today
      && elim l.active_until [ none ↦ true | some d ↦ leb directory.today d ]

  unfoldable pub get_managed_department_ids : User → List ℕ
  get_managed_department_ids user = elim (get_staff_profile user) [
    | none ↦ []
    | some profile ↦
        map (λ l. l.department)
          (select (λ l. l.manager == profile.id && is_active_leadership l) directory.leaderships)
  ]

  -- The empty set where the fuel of the search ran out.
  abbrev pub descendant_profile_ids : ℕ → List ℕ
  descendant_profile_ids root =
      elim (get_reporting_descendant_profile_ids directory.profiles root) [
        | none ↦ []
        | some ids ↦ ids
      ]

  unfoldable pub get_reporting_descendant_user_ids : User → List ℕ
  get_reporting_descendant_user_ids user = elim (get_staff_profile user) [
    | none ↦ []
    | some profile ↦
        map (λ p. p.user)
          (select (λ p. contains p.id (descendant_profile_ids profile.id)) directory.profiles)
  ]

  abbrev pub can_view_all_tasks : User → Bool
  can_view_all_tasks user =
      has_any_permission user (Permission.view_all_task ∷ Permission.manage_all_task ∷ [])

  abbrev pub can_assign_across_organisation : User → Bool
  can_assign_across_organisation user =
      has_any_permission user (Permission.assign_all_task ∷ Permission.manage_all_task ∷ [])

  abbrev pub can_manage_all_tasks : User → Bool
  can_manage_all_tasks user = has_any_permission user (Permission.manage_all_task ∷ [])

  abbrev pub can_view_department_tasks : User → Bool
  can_view_department_tasks user =
      has_any_permission user
        (Permission.view_department_task ∷ Permission.manage_department_task ∷ [])

  abbrev pub can_assign_department_tasks : User → Bool
  can_assign_department_tasks user =
      has_any_permission user
        (Permission.assign_department_task ∷ Permission.manage_department_task ∷ [])

  abbrev pub can_manage_department_tasks : User → Bool
  can_manage_department_tasks user =
      has_any_permission user (Permission.manage_department_task ∷ [])

  -- `p.department_id in ids`
  abbrev pub department_in : List ℕ → StaffProfile → Bool
  department_in ids p = elim p.department [ none ↦ false | some d ↦ contains d ids ]

  unfoldable pub get_management_scope_user_ids : User → List ℕ
  unfolding get_managed_department_ids get_reporting_descendant_user_ids
  get_management_scope_user_ids user =
      get_reporting_descendant_user_ids user
      ++ map (λ p. p.user)
          (select (department_in (get_managed_department_ids user)) directory.profiles)

  unfoldable pub can_assign_to_department : User → ℕ → Bool
  unfolding has_any_permission get_managed_department_ids
  can_assign_to_department user department =
      if not user.is_authenticated || not user.is_active
      then false
      else if can_assign_across_organisation user
      then true
      else if not (can_assign_department_tasks user)
      then false
      else contains department (get_managed_department_ids user)

  unfoldable pub can_assign_to_user : User → User → Bool
  unfolding has_any_permission get_managed_department_ids get_reporting_descendant_user_ids
  can_assign_to_user user target =
      if not user.is_authenticated || not user.is_active || not target.is_active
      then false
      else if can_assign_across_organisation user
      then true
      else if not (has_perm user Permission.assign_task)
      then false
      else elim (get_staff_profile target) [
        | none ↦ false
        | some p ↦
            department_in (get_managed_department_ids user) p
            || contains target.id (get_reporting_descendant_user_ids user)
      ]

  -- `task.assigned_to_id in ids`
  abbrev pub assigned_in : List ℕ → Task → Bool
  assigned_in ids t = elim t.assigned_to [ none ↦ false | some u ↦ contains u ids ]

  unfoldable pub can_update_task_status : User → Task → Bool
  unfolding has_any_permission get_management_scope_user_ids
  can_update_task_status user task =
      if not user.is_authenticated
      then false
      else if is_value task.assigned_to user.id
      then true
      else if can_manage_all_tasks user
      then true
      else if not (can_manage_department_tasks user)
      then false
      else assigned_in (get_management_scope_user_ids user) task

  unfoldable pub can_manage_task : User → Task → TaskBatch → Bool
  unfolding has_any_permission get_management_scope_user_ids
  can_manage_task user task batch =
      if not user.is_authenticated
      then false
      else if can_manage_all_tasks user
      then true
      else if is_value batch.created_by user.id
      then has_perm user Permission.assign_task || has_perm user Permission.assign_department_task
      else if not (can_manage_department_tasks user)
      then false
      else assigned_in (get_management_scope_user_ids user) task

  unfoldable pub can_cancel_task : User → Task → TaskBatch → Bool
  unfolding can_manage_task
  can_cancel_task user task batch =
      if not user.is_authenticated || not user.is_active
      then false
      else if is_personal batch.assignment_type && is_value task.assigned_to user.id
      then true
      else can_manage_task user task batch

  unfoldable pub can_archive_task : User → Task → TaskBatch → Bool
  unfolding can_manage_task
  can_archive_task user task batch =
      if not user.is_authenticated || not user.is_active
      then false
      else if is_value task.assigned_to user.id
      then true
      else can_manage_task user task batch

  unfoldable pub can_restore_task : User → Task → TaskBatch → Bool
  unfolding can_archive_task
  can_restore_task user task batch = can_archive_task user task batch

  -- `source_department_id and source_department_id in ids`
  abbrev pub source_in : List ℕ → TaskBatch → Bool
  source_in ids b = elim b.source_department [ none ↦ false | some d ↦ contains d ids ]

  unfoldable pub can_manage_batch : User → TaskBatch → List Task → Bool
  unfolding has_any_permission get_managed_department_ids get_management_scope_user_ids
  can_manage_batch user batch tasks =
      if not user.is_authenticated
      then false
      else if can_manage_all_tasks user
      then true
      else if is_value batch.created_by user.id
      then has_perm user Permission.assign_task
        || has_perm user Permission.assign_department_task
        || is_personal batch.assignment_type
      else if not (can_manage_department_tasks user)
      then false
      else if source_in (get_managed_department_ids user) batch
      then true
      else any (λ t. t.batch == batch.id && assigned_in (get_management_scope_user_ids user) t)
          tasks
