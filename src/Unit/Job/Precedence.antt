-- ===== src/Unit/Job/Precedence.antt =====
-- crates/rinit-core/src/unit/job.rs: the order of requests, beside the tests of the code.
use rinit.Prelude.{◌<◌, ◌≡◌, ◌⊎◌, inl, inr, true, arith}
use rinit.Unit.Job.{
  RequestSource, dependency, user_start, user_stop, shutdown_stop, rank, Job, MergedTarget,
  outranks,
}

-- The sources of which the first prevails, each pair listed.
pub data Prevails : RequestSource → RequestSource → Type 0 where
  shutdown_over_stop : Prevails shutdown_stop user_stop
  shutdown_over_start : Prevails shutdown_stop user_start
  shutdown_over_dependency : Prevails shutdown_stop dependency
  stop_over_start : Prevails user_stop user_start
  stop_over_dependency : Prevails user_stop dependency
  start_over_dependency : Prevails user_start dependency

-- A request beats a target by its source, or where the sources are the same by a later time.
abbrev pub Beats : Job → MergedTarget → Type 0
Beats j m = Prevails j.source m.source ⊎ ((j.source ≡ m.source) × (m.at < j.at))

ruleset pairs = (
  shutdown_over_stop, shutdown_over_start, shutdown_over_dependency, stop_over_start,
  stop_over_dependency, start_over_dependency,
)

rank-Prevails : (a b : RequestSource) → rank b < rank a → Prevails a b
unfolding rank
rank-Prevails a b h = grind (arith, pairs)

Prevails-rank : {a b : RequestSource} → Prevails a b → rank b < rank a
unfolding rank
Prevails-rank shutdown_over_stop = omega arith
Prevails-rank shutdown_over_start = omega arith
Prevails-rank shutdown_over_dependency = omega arith
Prevails-rank stop_over_start = omega arith
Prevails-rank stop_over_dependency = omega arith
Prevails-rank start_over_dependency = omega arith

rank-same : (a b : RequestSource) → rank a ≡ rank b → a ≡ b
unfolding rank
rank-same a b h = ground arith

outranks-cases :
    (j : Job) (m : MergedTarget)
    → outranks j m ≡ true
    → (rank m.source < rank j.source) ⊎ ((rank j.source ≡ rank m.source) × (m.at < j.at))
unfolding outranks
outranks-cases j m h = ground arith

pub outranks-Beats : (j : Job) (m : MergedTarget) → outranks j m ≡ true → Beats j m
outranks-Beats j m h = elim (outranks-cases j m h) [
  | inl above ↦ inl (rank-Prevails j.source m.source above)
  | inr (level, newer) ↦ inr (rank-same j.source m.source level, newer)
]

pub Beats-outranks : (j : Job) (m : MergedTarget) → Beats j m → outranks j m ≡ true
unfolding outranks
Beats-outranks j m (inl p) = ground (arith, Prevails-rank p)
Beats-outranks j m (inr (same, newer)) = ground arith
