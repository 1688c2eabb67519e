-- ===== src/Tasks/Visibility/Tests.antt =====
-- What the assignee of the sample store sees, and the theorems at these inputs.
use holansl_backend.Base.{◌≡◌, refl, true, false, none, some, List, [], ◌∷◌, is_some, is_value}
use holansl_backend.Tasks.Data.{TaskAssignmentType, Task, ok, err, permission_denied}
use holansl_backend.Tasks.Access.{has_any_permission, can_update_task_status}
use holansl_backend.Tasks.Effects.{lock_task}
use holansl_backend.Tasks.Samples.{worker, site, batch, going, done, store}
use holansl_backend.Tasks.Visibility.{
  my, all, is_related, visible_tasks_for, can_view_task, TaskComment, can_comment_on_task,
  can_edit_task_comment,
}
use holansl_backend.Tasks.Visibility.Narrowing.{IsSelectionOf, visible_tasks_for-narrows}
use holansl_backend.Tasks.Visibility.Oversight.{can_view_task-acts, can_view_task-comments}

mine : visible_tasks_for site worker (some my) (some false) store ≡ ok (going ∷ done ∷ [])
unfolding visible_tasks_for
mine = refl

-- The whole organisation is not for everybody.
not_all :
    visible_tasks_for site worker (some all) none store
    ≡ err (permission_denied "You do not have permission to view all organisation tasks.")
unfolding visible_tasks_for has_any_permission
not_all = refl

locked : lock_task 1 store ≡ ok (going, batch TaskAssignmentType.personal)
unfolding lock_task
locked = refl

updates : can_update_task_status site worker going ≡ true
unfolding can_update_task_status
updates = refl

abbrev comment : TaskComment
comment = record { id = 1; task = 1; author = some 7; removed_at = none }

comments_own : can_comment_on_task site worker going store ≡ true
unfolding can_comment_on_task has_any_permission is_related
comments_own = refl

visible_tasks_for-narrows_example :
    (vs : List Task) × (visible_tasks_for site worker none (some false) store ≡ ok vs)
    × IsSelectionOf (going ∷ done ∷ []) vs
visible_tasks_for-narrows_example =
    visible_tasks_for-narrows site worker (some false) store my (going ∷ done ∷ []) mine

can_view_task-acts_example : can_view_task site worker 1 store ≡ true
unfolding can_update_task_status
can_view_task-acts_example =
    can_view_task-acts site worker 1 store going (batch TaskAssignmentType.personal) locked refl
      refl

can_view_task-comments_example :
    (can_view_task site worker 1 store ≡ true)
    × (can_edit_task_comment site worker comment going store ≡ true
        → (is_some comment.removed_at ≡ false)
          × (is_value comment.author worker.id ≡ true)
          × (is_some going.archived_at ≡ false))
unfolding can_comment_on_task has_any_permission is_related
can_view_task-comments_example =
    can_view_task-comments site worker 1 store going (batch TaskAssignmentType.personal) locked refl
      comment refl
