-- ===== src/Unit/State/Lifecycle.antt =====
-- crates/rinit-core/src/unit/state/transition.rs: the steps of a unit's life, beside the table.
use rinit.Prelude.{Result, Bool, true, false, ◌≡◌, ◌≢◌, ◌↔◌, ok, err, arith}
use rinit.Unit.State.{
  FailedReason, start_failure, start_limit_hit, UnitState, inactive, starting, active,
  active_exited, deactivating, restart_wait, failed, Event, start, start_up_complete,
  start_up_failed, stop, stop_complete, backoff_elapsed, exit, start_limit_tripped, Effect,
  RestartPolicy, always, on_success, on_failure, on_abnormal, ServiceKind, oneshot, ExitOutcome,
  success, failure, signalled, timed_out, transition, Transition, TransitionError, not_allowed,
  reset_failed, spawn_process, cancel_backoff_and_start, cancel_backoff_and_stop,
  clear_start_limit_and_start, send_stop_signal, schedule_backoff,
}
use rinit.Prelude.Int.{ℤ}
use rinit.Prelude.Duration.{zero_duration}

-- The outcomes after which a policy brings a unit back, each listed.
pub data Restarts : RestartPolicy → ExitOutcome → Type 0 where
  always_any : {o : ExitOutcome} → Restarts always o
  success_clean : Restarts on_success success
  failure_code : {n : ℤ} → Restarts on_failure (failure n)
  failure_signal : {n : ℤ} → Restarts on_failure (signalled n)
  failure_late : Restarts on_failure timed_out
  abnormal_signal : {n : ℤ} → Restarts on_abnormal (signalled n)
  abnormal_late : Restarts on_abnormal timed_out

-- A state that a start is asked to bring up, and what it asks of the caller.
pub data Startable : UnitState → Effect → Type 0 where
  fresh : Startable inactive spawn_process
  waiting : Startable restart_wait cancel_backoff_and_start
  broken : {r : FailedReason} → Startable (failed r) clear_start_limit_and_start

-- A state in which a start has nothing to do.
pub data Up : UnitState → Type 0 where
  coming : Up starting
  running : Up active
  done : Up active_exited

-- A state from which a stop leads through `deactivating`, and what it asks of the caller.
pub data Stoppable : UnitState → Effect → Type 0 where
  coming : Stoppable starting send_stop_signal
  running : Stoppable active send_stop_signal
  waiting : Stoppable restart_wait cancel_backoff_and_stop

-- A state that has nothing to take down.
pub data Idle : UnitState → Type 0 where
  off : Idle inactive
  done : Idle active_exited
  broken : {r : FailedReason} → Idle (failed r)

-- One step of a unit's life under a policy and a kind: the state and the event, the new state and
-- what the caller is asked to do.
pub data Step (p : RestartPolicy) (k : ServiceKind)
    : UnitState → Event → UnitState → Effect → Type 0 where
  launch : {s : UnitState} {f : Effect} → Startable s f → Step p k s start starting f
  already : {s : UnitState} → Up s → Step p k s start s Effect.none
  come_up : k ≢ oneshot → Step p k starting start_up_complete active Effect.none
  complete : k ≡ oneshot → Step p k starting start_up_complete active_exited Effect.none
  fail : Step p k starting start_up_failed (failed start_failure) Effect.none
  retry :
      {o : ExitOutcome}
      → Restarts p o
      → Step p k active (exit o) restart_wait (schedule_backoff zero_duration)
  finish : ¬ Restarts p success → Step p k active (exit success) inactive Effect.none
  crash :
      {o : ExitOutcome}
      → ¬ Restarts p o
      → o ≢ success
      → Step p k active (exit o) (failed start_failure) Effect.none
  halt : {s : UnitState} {f : Effect} → Stoppable s f → Step p k s stop deactivating f
  settle : {s : UnitState} → Idle s → Step p k s stop inactive Effect.none
  gone : Step p k deactivating stop_complete inactive Effect.none
  relaunch : Step p k restart_wait backoff_elapsed starting spawn_process
  trip : Step p k restart_wait start_limit_tripped (failed start_limit_hit) Effect.none
  forgive : {r : FailedReason} → Step p k (failed r) reset_failed inactive Effect.none

module _ (p : RestartPolicy) (k : ServiceKind) where
  -- What the table answers, as a step.
  abbrev Answered : UnitState → Event → Result TransitionError Transition → Type 0
  Answered s e (ok t) = (t.from ≡ s) × Step p k s e t.to t.effect
  Answered s e (err x) = Unit

-- The effects by which a process comes into being.
unfoldable pub launches : Effect → Bool
launches Effect.spawn_process = true
launches Effect.cancel_backoff_and_start = true
launches Effect.clear_start_limit_and_start = true
launches _ = false

-- An accepted event makes the caller launch a process exactly when it takes the unit into
-- `starting` from another state; the transition names the state that it left.
launches_on_entry :
    (s : UnitState) (e : Event) (p : RestartPolicy) (k : ServiceKind) (t : Transition)
    → transition s e p k ≡ ok t
    → (t.from ≡ s) × ((launches t.effect ≡ true) ↔ ((t.to ≡ starting) × (s ≢ starting)))
unfolding transition launches
launches_on_entry s e p k t h = grind arith

-- A refused event is reported with the state that refused it and the event itself.
pub refusal_names :
    (s : UnitState) (e : Event) (p : RestartPolicy) (k : ServiceKind) (x : TransitionError)
    → transition s e p k ≡ err x
    → x ≡ not_allowed s e
unfolding transition
refusal_names s e p k x h = ground arith
