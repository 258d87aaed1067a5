-- ===== src/Unit/Job/Samples.antt =====
-- crates/rinit-core/src/unit/job.rs: the theorems on requests at concrete queues.
use rinit.Prelude.{◌≡◌, refl, some, [], ◌∷◌, codes, text_eq}
use rinit.Unit.Name.{UnitName, service, name_eq}
use rinit.Unit.State.{active, never, simple, transition, start, Effect}
use rinit.Unit.Job.{
  user_start, user_stop, dependency, shutdown_stop, started, stopped, Job, MergedTarget, merged_of,
  supersedes, outranks, submit, target_of, forget, reconcile, JobQueue,
}
use rinit.Unit.Job.Greatest.{Deciding, target_is_greatest, shutdown_holds}
use rinit.Unit.Job.Leading.{submit_all}
use rinit.Unit.Job.Reconcile.{effect_of, reconcile-transition}

abbrev web : UnitName
web = record { canonical = codes "web.service"; ty = service }

abbrev db : UnitName
db = record { canonical = codes "db.service"; ty = service }

abbrev ask_start : Job
ask_start = record { unit = web; target = started; source = user_start; at = 9 }

abbrev ask_stop : Job
ask_stop = record { unit = web; target = stopped; source = user_stop; at = 4 }

abbrev needed : Job
needed = record { unit = db; target = started; source = dependency; at = 7 }

abbrev halting : Job
halting = record { unit = web; target = stopped; source = shutdown_stop; at = 1 }

-- An older stop beats a newer start, and the start that follows loses.
target_is_greatest_example :
    Deciding web (merged_of ask_stop) (ask_start ∷ needed ∷ ask_stop ∷ ask_start ∷ [])
unfolding submit_all target_of name_eq text_eq submit outranks
target_is_greatest_example =
    target_is_greatest (ask_start ∷ needed ∷ ask_stop ∷ ask_start ∷ []) web (merged_of ask_stop)
      refl

shutdown_holds_example :
    target_of (submit_all ((web, merged_of halting) ∷ []) (ask_start ∷ ask_stop ∷ [])) web
    ≡ some (merged_of halting)
unfolding target_of name_eq text_eq
shutdown_holds_example =
    shutdown_holds ((web, merged_of halting) ∷ []) web (merged_of halting)
      (ask_start ∷ ask_stop ∷ []) refl refl ((λ e. cc), ((λ e. cc), tt))

reconcile-transition_example :
    reconcile ((web, merged_of ask_start) ∷ []) web active
    ≡ effect_of (transition active start never simple)
unfolding target_of name_eq text_eq rinit.Unit.Job.Reconcile.event_of
reconcile-transition_example =
    reconcile-transition ((web, merged_of ask_start) ∷ []) web active never simple
      (merged_of ask_start) refl

-- A start of an active unit asks for nothing.
reconcile_active : reconcile ((web, merged_of ask_start) ∷ []) web active ≡ some Effect.none
unfolding reconcile name_eq text_eq
reconcile_active = refl
