-- ===== src/Unit/Job/Greatest.antt =====
-- crates/rinit-core/src/unit/job.rs: what the queue remembers of all requests submitted to it.
use rinit.Prelude.{◌≡◌, refl, sym, ap, ◌∙◌, ◌≢◌, none, some, List, [], ◌∷◌, ◌++◌, arith, All}
use rinit.Unit.Name.{UnitName}
use mathlib.Core.Logic.{⊎_elim}
use rinit.Unit.Job.{
  shutdown_stop, rank, Job, MergedTarget, JobQueue, merged_of, outranks, target_of,
}
use rinit.Unit.Job.Precedence.{Beats, outranks-Beats, Beats-outranks}
use rinit.Unit.Job.Merge.{merge}
use rinit.Unit.Job.Leading.{
  submit_all, winner, target_of-submit_all, Level, Over, Leading, winner-Holding, winner-none,
}

-- One request of the list that beats those for the unit before it, and that none behind it beats.
pub record Deciding (u : UnitName) (m : MergedTarget) (js : List Job) : Type 0 where
  pub earlier : List Job
  pub job : Job
  pub later : List Job
  pub listed : js ≡ earlier ++ job ∷ later
  pub for_unit : job.unit ≡ u
  pub holds : merged_of job ≡ m
  pub greatest : All (λ k. k.unit ≡ u → Beats job (merged_of k)) earlier
  pub unbeaten : All (λ k. k.unit ≡ u → ¬ Beats k m) later

Over-Beats :
    (u : UnitName) (j : Job) (js : List Job)
    → Over u j js
    → All (λ k. k.unit ≡ u → Beats j (merged_of k)) js
Over-Beats u j [] h = tt
Over-Beats u j (k ∷ ks) h = ((λ e. outranks-Beats j (merged_of k) (h.0 e)), Over-Beats u j ks h.1)

Level-Beats :
    (u : UnitName) (m : MergedTarget) (js : List Job)
    → Level u m js
    → All (λ k. k.unit ≡ u → ¬ Beats k m) js
Level-Beats u m [] h = tt
Level-Beats u m (k ∷ ks) h =
    ((λ e b. let lost = h.0 e in let won = Beats-outranks k m b in cc), Level-Beats u m ks h.1)

Leading-Deciding :
    (u : UnitName) (m : MergedTarget) (js : List Job) → Leading u m js → Deciding u m js
Leading-Deciding u m js d = record {
  earlier = d.earlier;
  job = d.job;
  later = d.later;
  listed = d.listed;
  for_unit = d.for_unit;
  holds = d.holds;
  greatest = Over-Beats u d.job d.earlier d.greatest;
  unbeaten = Level-Beats u m d.later d.unbeaten;
}

-- After any requests to an empty queue, a unit's target is that of one of them: a request for the
-- unit that beats all of the requests for it before that one, and that none behind it beats. A
-- request beats another where its source prevails (a shutdown over a user's stop, that over a
-- user's start, and that over a dependency), or where the sources are the same and it is later.
pub target_is_greatest :
    (js : List Job) (u : UnitName) (m : MergedTarget)
    → target_of (submit_all [] js) u ≡ some m
    → Deciding u m js
unfolding target_of
target_is_greatest js u m e =
    ⊎_elim (λ held. absurd (cc held.0)) (λ d. Leading-Deciding u m js d.0)
      (winner-Holding none u m js (sym (target_of-submit_all [] u js) ∙ e))

-- After any requests to an empty queue, a unit has no target only if none of them was for it.
pub no_target :
    (js : List Job) (u : UnitName)
    → target_of (submit_all [] js) u ≡ none
    → All (λ j. j.unit ≢ u) js
unfolding target_of
no_target js u e = winner-none u js (sym (target_of-submit_all [] u js) ∙ e)

merge_below :
    (c : MergedTarget) (j : Job)
    → c.source ≡ shutdown_stop
    → j.source ≢ shutdown_stop
    → merge (some c) j ≡ c
unfolding outranks rank
merge_below c j e ne = ground arith

winner_below :
    (c : MergedTarget) (u : UnitName) (js : List Job)
    → c.source ≡ shutdown_stop
    → All (λ j. j.source ≢ shutdown_stop) js
    → winner (some c) u js ≡ some c
unfolding winner
winner_below c u [] e h = refl
winner_below c u (j ∷ js) e h = ground (arith, merge_below c j e h.0, winner_below c u js e h.1)

-- What a shutdown asked of a unit is not undone by any later requests that are not a shutdown's,
-- however new they are.
pub shutdown_holds :
    (q : JobQueue) (u : UnitName) (m : MergedTarget) (js : List Job)
    → target_of q u ≡ some m
    → m.source ≡ shutdown_stop
    → All (λ j. j.source ≢ shutdown_stop) js
    → target_of (submit_all q js) u ≡ some m
shutdown_holds q u m js has e h =
    target_of-submit_all q u js ∙ ap (λ o. winner o u js) has ∙ winner_below m u js e h
