-- ===== src/Tasks/Visibility/Oversight.antt =====
-- The rules on actions in tasks/services/access.py next to the query of the visible tasks.
use holansl_backend.Base.{
  ℕ, ◌≡◌, subst, Bool, true, false, ◌&&◌, ◌||◌, some, List, [], ◌∷◌, arith, find, any, select, inl,
  inr, Bool-cases, is_value, ◌==◌, is_some,
}
use holansl_backend.Accounts.Data.{User}
use holansl_backend.Tasks.Data.{Task, TaskBatch, Store, ok}
use holansl_backend.Tasks.Effects.{lock_task}
use holansl_backend.Tasks.Access.{
  Site, has_any_permission, can_view_all_tasks, can_manage_all_tasks, can_view_department_tasks,
  can_manage_department_tasks, get_management_scope_user_ids, assigned_in, can_update_task_status,
  can_manage_task, can_cancel_task, can_archive_task, can_restore_task,
}
use holansl_backend.Tasks.Lifecycle.Invariant.{lock_task_lem}
use holansl_backend.Tasks.Visibility.{
  is_created_by, is_related, can_view_task, TaskComment, can_comment_on_task, can_edit_task_comment,
  can_remove_task_comment,
}

find-any :
    (id : ℕ) (q : Task → Bool) (ts : List Task) (t : Task)
    → find (λ x. x.id == id) ts ≡ some t
    → q t ≡ true
    → any (λ x. x.id == id) (select q ts) ≡ true
find-any id q [] t e h = cc
find-any id q (x ∷ ts) t e h = ground (arith, find-any id q ts t)

find-any_all :
    (id : ℕ) (ts : List Task) (t : Task)
    → find (λ x. x.id == id) ts ≡ some t
    → any (λ x. x.id == id) ts ≡ true
find-any_all id [] t e = cc
find-any_all id (x ∷ ts) t e = ground (arith, find-any_all id ts t)

find-created :
    (user : User) (t : Task) (bs : List TaskBatch) (b : TaskBatch)
    → find (λ x. x.id == t.batch) bs ≡ some b
    → is_value b.created_by user.id ≡ true
    → is_created_by user bs t ≡ true
find-created user t [] b e h = cc
find-created user t (x ∷ bs) b e h = ground (arith, find-created user t bs b)

module _ (site : Site) (user : User) where
  manage-view_all : can_manage_all_tasks site user ≡ true → can_view_all_tasks site user ≡ true
  unfolding has_any_permission
  manage-view_all h = ground arith

  manage-view_department :
      can_manage_department_tasks site user ≡ true → can_view_department_tasks site user ≡ true
  unfolding has_any_permission
  manage-view_department h = ground arith

  superuser-view_all :
      (user.is_authenticated && user.is_active) ≡ true
      → user.is_superuser ≡ true
      → can_view_all_tasks site user ≡ true
  unfolding has_any_permission
  superuser-view_all live h = ground arith

  module _ (id : ℕ) (s : Store) (t : Task) (b : TaskBatch) (locked : lock_task id s ≡ ok (t, b))
      (live : (user.is_authenticated && user.is_active) ≡ true) where
    can_view-all : can_view_all_tasks site user ≡ true → can_view_task site user id s ≡ true
    unfolding can_view_task
    can_view-all h =
        let (found, _, _) = lock_task_lem id s t b locked in
        ground (arith, live, h, find-any_all id s.tasks t found)

    can_view-related : is_related site user s.batches t ≡ true → can_view_task site user id s ≡ true
    unfolding can_view_task
    can_view-related h =
        let (found, _, _) = lock_task_lem id s t b locked in
        let related = is_related site user s.batches in
        elim (Bool-cases (can_view_all_tasks site user)) [
          | inl wide ↦ ground (arith, live, wide, find-any_all id s.tasks t found)
          | inr narrow ↦ ground (arith, live, narrow, find-any id related s.tasks t found h)
        ]

    can_view-mine : is_value t.assigned_to user.id ≡ true → can_view_task site user id s ≡ true
    unfolding is_related
    can_view-mine h = can_view-related (ground (arith, h))

    can_view-created : is_value b.created_by user.id ≡ true → can_view_task site user id s ≡ true
    unfolding is_related
    can_view-created h =
        let (_, batch, _) = lock_task_lem id s t b locked in
        can_view-related (ground (arith, find-created user t s.batches b batch h))

    can_view-managed :
        can_manage_department_tasks site user ≡ true
        → assigned_in site (get_management_scope_user_ids site user) t ≡ true
        → can_view_task site user id s ≡ true
    unfolding is_related
    can_view-managed may h =
        let sees = manage-view_department may in can_view-related (ground (arith, sees, h))

    can_view-update :
        can_update_task_status site user t ≡ true → can_view_task site user id s ≡ true
    unfolding can_update_task_status
    can_view-update h = elim (Bool-cases (is_value t.assigned_to user.id)) [
      | inl mine ↦ can_view-mine mine
      | inr other ↦ elim (Bool-cases (can_manage_all_tasks site user)) [
        | inl wide ↦ can_view-all (manage-view_all wide)
        | inr narrow ↦
            can_view-managed (ground (arith, h, other, narrow, live))
              (ground (arith, h, other, narrow, live))
      ]
    ]

    can_view-manage : can_manage_task site user t b ≡ true → can_view_task site user id s ≡ true
    unfolding can_manage_task
    can_view-manage h = elim (Bool-cases (can_manage_all_tasks site user)) [
      | inl wide ↦ can_view-all (manage-view_all wide)
      | inr narrow ↦ elim (Bool-cases (is_value b.created_by user.id)) [
        | inl made ↦ can_view-created made
        | inr other ↦
            can_view-managed (ground (arith, h, other, narrow, live))
              (ground (arith, h, other, narrow, live))
      ]
    ]

    -- An active user whom the rules allow to change the status of a stored task, or to manage, cancel,
    -- archive or restore it, also sees the task.
    pub can_view_task-acts :
        (can_update_task_status site user t
            || can_manage_task site user t b
            || can_cancel_task site user t b
            || can_archive_task site user t b
            || can_restore_task site user t b)
          ≡ true
        → can_view_task site user id s ≡ true
    unfolding can_cancel_task can_archive_task can_restore_task
    can_view_task-acts h = elim (Bool-cases (is_value t.assigned_to user.id)) [
      | inl mine ↦ can_view-mine mine
      | inr other ↦ elim (Bool-cases (can_update_task_status site user t)) [
        | inl may ↦ can_view-update may
        | inr cannot ↦ can_view-manage (ground (arith, h, other, cannot))
      ]
    ]

    -- An active user who may comment on a stored task, or edit or remove one of its comments, sees the
    -- task; a comment is edited only by its author, on a task outside the archive, and neither a removed
    -- comment nor another's comment is edited.
    pub can_view_task-comments :
        (c : TaskComment)
        → (can_comment_on_task site user t s
            || can_edit_task_comment site user c t s
            || can_remove_task_comment site user c t b s)
          ≡ true
        → (can_view_task site user id s ≡ true)
          × (can_edit_task_comment site user c t s ≡ true
              → (is_some c.removed_at ≡ false)
                × (is_value c.author user.id ≡ true)
                × (is_some t.archived_at ≡ false))
    unfolding can_comment_on_task can_edit_task_comment can_remove_task_comment
    can_view_task-comments c h =
        let (_, _, same) = lock_task_lem id s t b locked in
        let sees : can_view_task site user t.id s ≡ true → can_view_task site user id s ≡ true =
          subst (λ k. can_view_task site user k s ≡ true) same in
        (
          elim (Bool-cases (can_view_task site user t.id s)) [
            | inl e ↦ sees e
            | inr e ↦ elim (Bool-cases user.is_superuser) [
              | inl super ↦ can_view-all (superuser-view_all live super)
              | inr plain ↦ can_view-manage (ground (arith, h, e, plain))
            ]
          ],
          λ edits. (ground (arith, edits), ground (arith, edits), ground (arith, edits)),
        )
