-- ===== src/Tasks/Visibility/Narrowing.antt =====
-- The scopes of `visible_tasks_for` in tasks/services/access.py next to the query without a scope.
use holansl_backend.Base.{
  ◌≡◌, refl, sym, ◌∙◌, Bool, true, ◌&&◌, Option, none, some, List, [], ◌∷◌, arith, select, inl, inr,
  Bool-cases,
}
use holansl_backend.Accounts.Data.{User}
use holansl_backend.Tasks.Data.{Task, Store, ok}
use holansl_backend.Tasks.Access.{Site, can_view_all_tasks, can_view_department_tasks}
use holansl_backend.Tasks.Visibility.{
  Scope, my, created, department, all, archive_filter, is_mine, is_created_by, is_managed,
  is_related, visible_tasks_for,
}

-- The first list is a selection from the second, in its order.
abbrev pub IsSelectionOf : List Task → List Task → Type 0
IsSelectionOf ts vs = (p : Task → Bool) × (ts ≡ select p vs)

select_all : (ts : List Task) → select (λ _. true) ts ≡ ts
select_all [] = refl
select_all (t ∷ ts) = rw (select_all ts) refl

select-select :
    (p q : Task → Bool)
    → ((t : Task) → p t ≡ true → q t ≡ true)
    → (ts : List Task) → select p ts ≡ select p (select q ts)
select-select p q h [] = refl
select-select p q h (t ∷ ts) = elim (Bool-cases (p t)) [
  | inl e ↦ ground (arith, select-select p q h ts, e, h t e)
  | inr e ↦ ground (arith, select-select p q h ts, e)
]

module _ (site : Site) (user : User) (include_archived : Option Bool) (s : Store) where
  abbrev Narrows : List Task → Type 0
  Narrows ts =
      (vs : List Task) × (visible_tasks_for site user none include_archived s ≡ ok vs)
      × IsSelectionOf ts vs

  select-Narrows :
      (p : Task → Bool) (ts : List Task)
      → (user.is_authenticated && user.is_active) ≡ true
      → ((t : Task) → p t ≡ true → is_related site user s.batches t ≡ true)
      → ts ≡ select p (archive_filter include_archived s.tasks)
      → Narrows ts
  unfolding visible_tasks_for
  select-Narrows p ts live implied e =
      let queryset = archive_filter include_archived s.tasks in
      let related = is_related site user s.batches in
      elim (Bool-cases (can_view_all_tasks site user)) [
        | inl wide ↦ (queryset, ground (arith, wide, live), (p, e))
        | inr narrow ↦ (
          select related queryset,
          ground (arith, narrow, live),
          (p, e ∙ select-select p related implied queryset),
        )
      ]

  -- Whatever a user sees under a scope, `my`, `created`, `department` or `all`, the user sees without a
  -- scope, which then raises no exception: the tasks of the scope are a selection from the others.
  pub visible_tasks_for-narrows :
      (scope : Scope) (ts : List Task)
      → visible_tasks_for site user (some scope) include_archived s ≡ ok ts
      → (vs : List Task) × (visible_tasks_for site user none include_archived s ≡ ok vs)
        × IsSelectionOf ts vs
  unfolding visible_tasks_for is_related
  visible_tasks_for-narrows scope ts h =
      elim (Bool-cases (user.is_authenticated && user.is_active)) [
        | inr off ↦ ([], ground (arith, off), (λ _. true, ground (arith, off)))
        | inl live ↦ narrow scope ts h live
      ]
    where
      narrow :
          (scope : Scope) (ts : List Task)
          → visible_tasks_for site user (some scope) include_archived s ≡ ok ts
          → (user.is_authenticated && user.is_active) ≡ true
          → Narrows ts
      narrow my ts h live =
          select-Narrows (is_mine user) ts live (λ t e. ground (arith, e)) (ground (arith, live))
      narrow created ts h live =
          select-Narrows (is_created_by user s.batches) ts live (λ t e. ground (arith, e))
            (ground (arith, live))
      narrow department ts h live =
          let may : can_view_department_tasks site user ≡ true = ground (arith, live) in
          select-Narrows (is_managed site user) ts live (λ t e. ground (arith, e, may))
            (ground (arith, live))
      narrow all ts h live =
          let may : can_view_all_tasks site user ≡ true = ground (arith, live) in
          let whole : ts ≡ archive_filter include_archived s.tasks = ground (arith, live) in
          (
            archive_filter include_archived s.tasks,
            ground (arith, live, may),
            (λ _. true, whole ∙ sym (select_all (archive_filter include_archived s.tasks))),
          )
