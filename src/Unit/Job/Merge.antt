-- ===== src/Unit/Job/Merge.antt =====
-- crates/rinit-core/src/unit/job.rs: what one request, or forgetting a unit, makes of the queue.
use rinit.Prelude.{
  ◌≡◌, refl, ap, ◌∙◌, Bool, true, Option, none, some, [], ◌∷◌, arith, if◌then◌else◌,
}
use rinit.Unit.Name.{UnitName, name_eq, name_eq_iff}
use rinit.Unit.Job.{
  Job, supersedes, MergedTarget, JobQueue, merged_of, outranks, submit, target_of, forget,
}

-- The holder of a unit's target after a request for that unit.
abbrev pub merge : Option MergedTarget → Job → MergedTarget
merge none j = merged_of j
merge (some current) j = if outranks j current then merged_of j else current

abbrev pub wins : Option MergedTarget → Job → Bool
wins none j = true
wins (some current) j = outranks j current

module _ (j : Job) (u : UnitName) where
  -- A request changes the target of its own unit alone: it takes it where the unit had none or where
  -- it beats the holder, and else the holder keeps it.
  pub target_of-submit :
      (q : JobQueue)
      → target_of (submit q j).0 u
        ≡ (if name_eq j.unit u then some (merge (target_of q u) j) else target_of q u)
  unfolding submit target_of
  target_of-submit [] = refl
  target_of-submit ((v, c) ∷ q) =
      ground
        (arith, target_of-submit q, name_eq_iff v j.unit, name_eq_iff v u, name_eq_iff j.unit u)

submit-won : (q : JobQueue) (j : Job) → (submit q j).1 ≡ wins (target_of q j.unit) j
unfolding submit target_of
submit-won [] j = refl
submit-won ((v, c) ∷ q) j = ground (arith, submit-won q j)

outranks-supersedes :
    (j : Job) (u : UnitName) (c : MergedTarget)
    → outranks j c
      ≡ supersedes j (record { unit = u; target = c.target; source = c.source; at = c.at })
unfolding outranks supersedes
outranks-supersedes j u c = ground arith

-- Where a unit has a target, held by some job, `submit` reports that a request for the unit won
-- exactly when the request supersedes that job; then the request holds the target, and else the old
-- holder keeps it.
submit-supersedes :
    (q : JobQueue) (j held : Job)
    → target_of q j.unit ≡ some (merged_of held)
    → ((submit q j).1 ≡ supersedes j held)
      × (target_of (submit q j).0 j.unit
          ≡ some (if supersedes j held then merged_of j else merged_of held))
submit-supersedes q j held e = (
  submit-won q j ∙ ap (λ o. wins o j) e ∙ outranks-supersedes j held.unit (merged_of held),
  ground (
    arith,
    target_of-submit j j.unit q,
    name_eq_iff j.unit j.unit,
    outranks-supersedes j held.unit (merged_of held),
  ),
)

-- Forgetting a unit clears its target and leaves those of all others.
target_of-forget :
    (q : JobQueue) (u v : UnitName)
    → target_of (forget q u) v ≡ (if name_eq u v then none else target_of q v)
unfolding forget target_of
target_of-forget [] u v = ground arith
target_of-forget ((w, t) ∷ q) u v =
    ground (arith, target_of-forget q u v, name_eq_iff w u, name_eq_iff w v, name_eq_iff u v)
