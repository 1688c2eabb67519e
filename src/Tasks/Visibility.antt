-- ===== src/Tasks/Visibility.antt =====
-- The query sets of tasks/services/access.py: which tasks a user sees, and who may comment. A scope
-- that the source does not name is `none`, as it takes the same way as no scope.
pub mod Narrowing
pub mod Oversight
mod Tests
use holansl_backend.Base.{
  ℕ, Bool, true, false, not, ◌&&◌, ◌||◌, Option, none, some, List, [], ◌∷◌, ◌==◌, if◌then◌else◌,
  is_some, is_value, select, any, contains,
}
use holansl_backend.Accounts.Data.{User}
use holansl_backend.Tasks.Data.{Task, TaskBatch, Store, Error, permission_denied, Result, ok, err}
use holansl_backend.Tasks.Access.{
  Site, Permission, has_any_permission, get_managed_department_ids, get_management_scope_user_ids,
  can_view_all_tasks, can_view_department_tasks, assigned_in, can_manage_task,
}

pub data Scope : Type 0 where
  my created department all : Scope

-- `include_archived`: `False` hides the archive, `True` and `None` do not.
abbrev pub archive_filter : Option Bool → List Task → List Task
archive_filter (some false) ts = select (λ t. not (is_some t.archived_at)) ts
archive_filter _ ts = ts

-- `batch__created_by=user`
abbrev pub is_created_by : User → List TaskBatch → Task → Bool
is_created_by user batches t = any (λ b. b.id == t.batch && is_value b.created_by user.id) batches

-- `assigned_to=user`
abbrev pub is_mine : User → Task → Bool
is_mine user t = is_value t.assigned_to user.id

module _ (site : Site) where
  -- `Q(assigned_to_id__in=managed_user_ids) | Q(assigned_department_id__in=managed_department_ids)`
  unfoldable pub is_managed : User → Task → Bool
  is_managed user t =
      assigned_in site (get_management_scope_user_ids site user) t || elim t.assigned_department [
        | none ↦ false
        | some d ↦ contains d (get_managed_department_ids site user)
      ]

  -- `visibility`, which widens with the permission for departments
  unfoldable pub is_related : User → List TaskBatch → Task → Bool
  unfolding is_managed
  is_related user batches t =
      is_mine user t
      || is_created_by user batches t
      || can_view_department_tasks site user && is_managed user t

  unfoldable pub visible_tasks_for : User → Option Scope → Option Bool → Store → Result (List Task)
  visible_tasks_for user scope include_archived s =
      let queryset = archive_filter include_archived s.tasks in
      if not user.is_authenticated || not user.is_active then ok [] else elim scope [
        | some sc ↦ elim sc [
          | my ↦ ok (select (is_mine user) queryset)
          | created ↦ ok (select (is_created_by user s.batches) queryset)
          | all ↦
              if not (can_view_all_tasks site user)
              then err
                  (permission_denied "You do not have permission to view all organisation tasks.")
              else ok queryset
          | department ↦
              if not (can_view_department_tasks site user)
              then err (permission_denied "You do not have permission to view department tasks.")
              else ok (select (is_managed user) queryset)
        ]
        | none ↦
            if can_view_all_tasks site user
            then ok queryset
            else ok (select (is_related user s.batches) queryset)
      ]

  -- `filter(pk=task.pk).exists()` on what is visible with the archive; no exception is possible here.
  unfoldable pub can_view_task : User → ℕ → Store → Bool
  unfolding visible_tasks_for
  can_view_task user id s = elim (visible_tasks_for user none (some true) s) [
    | ok ts ↦ any (λ t. t.id == id) ts
    | err e ↦ false
  ]

  unfoldable pub can_comment_on_task : User → Task → Store → Bool
  unfolding can_view_task
  can_comment_on_task user t s = can_view_task user t.id s && not (is_some t.archived_at)

-- The columns of a comment that the rules read.
pub record TaskComment : Type 0 where
  pub id : ℕ
  pub task : ℕ
  pub author : Option ℕ
  pub removed_at : Option ℕ

module _ (site : Site) where
  -- `t` is the comment's task.
  unfoldable pub can_edit_task_comment : User → TaskComment → Task → Store → Bool
  can_edit_task_comment user c t s =
      if not user.is_authenticated || not user.is_active || is_some c.removed_at
      then false
      else if not (is_value c.author user.id)
      then false
      else can_comment_on_task site user t s

  -- `b` is the batch of the comment's task `t`.
  unfoldable pub can_remove_task_comment : User → TaskComment → Task → TaskBatch → Store → Bool
  can_remove_task_comment user c t b s =
      if not user.is_authenticated || not user.is_active || is_some c.removed_at
      then false
      else if user.is_superuser
      then true
      else if is_value c.author user.id
      then can_view_task site user t.id s
      else if site.has_perm user Permission.moderate_taskcomment
      then can_view_task site user t.id s
      else can_manage_task site user t b
