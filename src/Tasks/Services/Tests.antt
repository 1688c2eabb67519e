-- ===== src/Tasks/Services/Tests.antt =====
-- A completion, a change that is refused after it, and an archiving.
use holansl_backend.Base.{ℕ, ◌≡◌, refl, none, some, List, [], ◌∷◌, map, strip}
use holansl_backend.Tasks.Data.{TaskStatus, completed}
use holansl_backend.Tasks.Access.{can_update_task_status, can_archive_task}
use holansl_backend.Tasks.Validation.{full_clean_task}
use holansl_backend.Tasks.Effects.{require_actor, lock_task}
use holansl_backend.Tasks.Reminders.{cancel_active_task_reminders}
use holansl_backend.Tasks.Lifecycle.{
  transition_row, transition_effects, change_task, transition_task_status, archive_row, log_effects,
  archive_task,
}
use holansl_backend.Tasks.Lifecycle.Invariant.{IsSound}
use holansl_backend.Tasks.Samples.{worker, site, store, store-IsSound}
use holansl_backend.Tasks.Services.{Service, transition, archive, Request, serve_all}
use holansl_backend.Tasks.Services.Sequences.{serve_all-IsSound}

abbrev request : ℕ → Service → Request
request now service = record { site = site; now = now; actor = some worker; service = service }

abbrev requests : List Request
requests =
    request 50 (transition 1 (some completed))
    ∷ request 60 (transition 1 (some TaskStatus.to_do))
    ∷ request 70 (archive 1)
    ∷ []

archived_times :
    map (λ t. t.archived_at) (serve_all requests store).tasks ≡ some 70 ∷ none ∷ some 30 ∷ []
unfolding require_actor lock_task can_update_task_status can_archive_task full_clean_task strip
    transition_row transition_effects change_task transition_task_status
    cancel_active_task_reminders archive_row log_effects archive_task serve_all
archived_times = refl

serve_all-IsSound_example : IsSound (serve_all requests store)
serve_all-IsSound_example = serve_all-IsSound requests store store-IsSound
