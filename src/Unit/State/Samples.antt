-- ===== src/Unit/State/Samples.antt =====
-- crates/rinit-core/src/unit/state: the theorems on the state machine at concrete scripts.
use rinit.Unit.State.Stopping.{stop_holds}
use rinit.Prelude.{false, ◌⊎◌, suc, ◌≤◌, ◌≡◌, refl, List, [], ◌∷◌, All}
use rinit.Prelude.Int.{pos}
use rinit.Prelude.Duration.{zero_duration}
use rinit.Unit.State.{
  UnitState, inactive, starting, active, restart_wait, failed, start_limit_hit, failure, simple,
  always, Event, start, start_up_complete, stop, exit, backoff_elapsed, reset_failed, deactivating,
  stop_complete, cancel_backoff_and_stop, Transition, Effect, spawn_process, schedule_backoff,
  transition, drive,
}
use rinit.Unit.State.Lifecycle.{launches}
use rinit.Unit.State.Drive.{spawns, ends_count, no_double_launch, AtRest, failed_rest, stays_down}

-- A unit that comes up, crashes, waits and is launched again.
abbrev crash_and_retry : List Event
crash_and_retry = start ∷ start_up_complete ∷ exit (failure (pos 1)) ∷ backoff_elapsed ∷ []

abbrev retried : UnitState × List Effect
retried =
    (starting, spawn_process ∷ Effect.none ∷ schedule_backoff zero_duration ∷ spawn_process ∷ [])

no_double_launch_example : spawns retried.1 ≤ suc (ends_count simple crash_and_retry)
unfolding drive transition
no_double_launch_example = no_double_launch always simple crash_and_retry retried refl

retried_spawns : spawns retried.1 ≡ 2
unfolding spawns launches
retried_spawns = refl

retried_ends : ends_count simple crash_and_retry ≡ 1
unfolding ends_count
retried_ends = refl

abbrev to_retry : Transition
to_retry = record { from = active; to = restart_wait; effect = schedule_backoff zero_duration }

stays_down_example : AtRest inactive × All (λ f. f ≡ Effect.none) (Effect.none ∷ Effect.none ∷ [])
unfolding drive transition
stays_down_example =
    stays_down always simple (failed start_limit_hit) (reset_failed ∷ stop ∷ [])
      (inactive, Effect.none ∷ Effect.none ∷ []) failed_rest ((λ e. cc), ((λ e. cc), tt)) refl

stop_holds_example :
    ((inactive ≡ inactive) ⊎ ((inactive ≡ deactivating) × (stop_complete ∷ stop ∷ [] ≡ [])))
    × All (λ f. launches f ≡ false) (cancel_backoff_and_stop ∷ Effect.none ∷ Effect.none ∷ [])
unfolding drive transition launches
stop_holds_example =
    stop_holds always simple restart_wait (stop_complete ∷ stop ∷ [])
      (inactive, cancel_backoff_and_stop ∷ Effect.none ∷ Effect.none ∷ [])
      ((λ e. cc), ((λ e. cc), tt)) refl
