-- ===== src/Unit/State.antt =====
-- crates/rinit-core/src/unit/state: the states of a unit, the events that move it, and the
-- transition table; `RestartPolicy` and `ServiceKind` are those of unit/config.rs.
use rinit.Prelude.{Bool, true, false, not, if◌then◌else◌, List, [], ◌∷◌, ◌++◌, Result, ok, err}
use rinit.Prelude.{◌>>=◌}
use rinit.Prelude.Int.{ℤ}
use rinit.Prelude.Duration.{Duration, zero_duration}
pub mod Lifecycle
pub mod Drive
pub mod Stopping
mod Samples

pub data FailedReason : Type 0 where
  start_failure start_limit_hit : FailedReason

pub data UnitState : Type 0 where
  inactive starting active active_exited deactivating restart_wait : UnitState
  failed : FailedReason → UnitState

unfoldable pub is_satisfied : UnitState → Bool
is_satisfied active = true
is_satisfied active_exited = true
is_satisfied _ = false

unfoldable pub is_live : UnitState → Bool
is_live active = true
is_live starting = true
is_live restart_wait = true
is_live _ = false

-- The codes are i32 values.
pub data ExitOutcome : Type 0 where
  success : ExitOutcome
  failure : ℤ → ExitOutcome
  signalled : ℤ → ExitOutcome
  timed_out : ExitOutcome

unfoldable pub is_success : ExitOutcome → Bool
is_success success = true
is_success _ = false

unfoldable pub is_failure : ExitOutcome → Bool
unfolding is_success
is_failure o = not (is_success o)

unfoldable pub is_abnormal : ExitOutcome → Bool
is_abnormal (signalled _) = true
is_abnormal timed_out = true
is_abnormal _ = false

pub data ServiceKind : Type 0 where
  simple oneshot notify forking : ServiceKind

-- `never` is the source's `No`, a word that is taken here.
pub data RestartPolicy : Type 0 where
  never always on_success on_failure on_abnormal : RestartPolicy

unfoldable pub wants_restart : RestartPolicy → ExitOutcome → Bool
unfolding is_success is_failure is_abnormal
wants_restart never o = false
wants_restart always o = true
wants_restart on_success o = is_success o
wants_restart on_failure o = is_failure o
wants_restart on_abnormal o = is_abnormal o

pub data Event : Type 0 where
  start start_up_complete start_up_failed stop stop_complete backoff_elapsed : Event
  exit : ExitOutcome → Event
  start_limit_tripped reset_failed : Event

pub data Effect : Type 0 where
  none spawn_process send_stop_signal cancel_backoff_and_start cancel_backoff_and_stop : Effect
  clear_start_limit_and_start : Effect
  schedule_backoff : Duration → Effect

pub record Transition : Type 0 where
  pub from : UnitState
  pub to : UnitState
  pub effect : Effect

pub data TransitionError : Type 0 where
  not_allowed : UnitState → Event → TransitionError

-- Where a running process's end leads.
unfoldable pub exited : RestartPolicy → ExitOutcome → UnitState × Effect
unfolding wants_restart is_success
exited p o =
    if wants_restart p o
    then (restart_wait, schedule_backoff zero_duration)
    else if is_success o
    then (inactive, none)
    else (failed start_failure, none)

unfoldable pub started : ServiceKind → UnitState × Effect
started oneshot = (active_exited, none)
started _ = (active, none)

-- The exhaustive match; its last arm, which lists what is left, is the last clause.
unfoldable pub next :
    UnitState → Event → RestartPolicy → ServiceKind → Result TransitionError (UnitState × Effect)
unfolding exited started
next inactive start p k = ok (starting, spawn_process)
next inactive stop p k = ok (inactive, none)
next starting start p k = ok (starting, none)
next active start p k = ok (active, none)
next active_exited start p k = ok (active_exited, none)
next starting start_up_complete p k = ok (started k)
next starting start_up_failed p k = ok (failed start_failure, none)
next active (exit o) p k = ok (exited p o)
next active stop p k = ok (deactivating, send_stop_signal)
next active_exited stop p k = ok (inactive, none)
next starting stop p k = ok (deactivating, send_stop_signal)
next deactivating stop_complete p k = ok (inactive, none)
next restart_wait backoff_elapsed p k = ok (starting, spawn_process)
next restart_wait start_limit_tripped p k = ok (failed start_limit_hit, none)
next restart_wait start p k = ok (starting, cancel_backoff_and_start)
next restart_wait stop p k = ok (deactivating, cancel_backoff_and_stop)
next (failed _) start p k = ok (starting, clear_start_limit_and_start)
next (failed _) reset_failed p k = ok (inactive, none)
next (failed _) stop p k = ok (inactive, none)
next s e p k = err (not_allowed s e)

unfoldable pub transition :
    UnitState → Event → RestartPolicy → ServiceKind → Result TransitionError Transition
unfolding next
transition s e p k = next s e p k >>= λ (to, eff). ok (record { from = s; to = to; effect = eff })

-- The loop of `drive` over its two variables.
unfoldable pub drive_loop :
    RestartPolicy
    → ServiceKind
    → UnitState
    → List Effect
    → List Event
    → Result TransitionError (UnitState × List Effect)
drive_loop p k current effects [] = ok (current, effects)
drive_loop p k current effects (e ∷ es) =
    transition current e p k >>= λ t. drive_loop p k t.to (effects ++ t.effect ∷ []) es

unfoldable pub drive :
    UnitState
    → List Event
    → RestartPolicy
    → ServiceKind
    → Result TransitionError (UnitState × List Effect)
unfolding drive_loop
drive s es p k = drive_loop p k s [] es
