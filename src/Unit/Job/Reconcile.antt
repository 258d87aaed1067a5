-- ===== src/Unit/Job/Reconcile.antt =====
-- crates/rinit-core/src/unit/job.rs: `reconcile`, beside the transition table.
use rinit.Prelude.{◌≡◌, Option, none, some, arith, Result, ok, err}
use rinit.Unit.Name.{UnitName}
use rinit.Unit.State.{
  UnitState, Event, start, stop, Effect, Transition, TransitionError, RestartPolicy, ServiceKind,
  transition,
}
use rinit.Unit.Job.{
  JobTarget, started, stopped, MergedTarget, JobQueue, target_of, action, reconcile,
}

-- The event that a target asks for.
unfoldable pub event_of : JobTarget → Event
event_of started = start
event_of stopped = stop

-- The effect of an accepted event.
unfoldable pub effect_of : Result TransitionError Transition → Option Effect
effect_of (ok t) = some t.effect
effect_of (err _) = none

action-transition :
    (t : JobTarget) (s : UnitState) (p : RestartPolicy) (k : ServiceKind)
    → action t s ≡ effect_of (transition s (event_of t) p k)
unfolding action effect_of event_of transition
action-transition t s p k = ground arith

-- For a unit with a target, `reconcile` answers with the effect of the start or the stop that the
-- target stands for, as the transition table has it in the actual state, and with nothing where
-- the table refuses that event.
pub reconcile-transition :
    (q : JobQueue) (u : UnitName) (s : UnitState) (p : RestartPolicy) (k : ServiceKind)
    (m : MergedTarget)
    → target_of q u ≡ some m
    → reconcile q u s ≡ effect_of (transition s (event_of m.target) p k)
unfolding reconcile
reconcile-transition q u s p k m e = rw (e, reconcile) (action-transition m.target s p k)
