-- ===== src/Unit/Job.antt =====
-- crates/rinit-core/src/unit/job.rs: the requests for units, and how they are merged.
use rinit.Prelude.{
  ℕ, zero, suc, ◌+◌, ◌-◌, ◌*◌, ◌/◌, ◌%◌, ◌^◌, ◌≤◌, ◌<◌, min, max, ◌≡◌, refl, sym, ap, ◌∙◌, ◌≢◌, ◌↔◌,
  ◌⊎◌, inl, inr, Bool, true, false, not, ◌&&◌, ◌||◌, Option, none, some, List, [], ◌∷◌, ◌++◌, map,
  Memᴰ, arith, ltb, leb, ◌==◌, ==_iff, if◌then◌else◌, ltb→lt, lt→ltb, leb→le, Bool-cases,
  Option-cases, length, get_elem?, take, drop, length-append, length-drop, take-append, drop-append,
  List-cases, All, All-append, All-drop, Text, codes, text_eq, text_eq_iff, Result, ok, err, ◌>>=◌,
  ◌>>◌, Result-cases,
}
use rinit.Unit.Name.{UnitName, name_eq}
use rinit.Unit.State.{
  UnitState, inactive, starting, active, active_exited, deactivating, restart_wait, failed, Effect,
}
pub mod Merge
pub mod Precedence
pub mod Leading
pub mod Greatest
pub mod Reconcile
mod Samples

-- A time in milliseconds.
abbrev pub Millis : Type 0
Millis = ℕ

pub data RequestSource : Type 0 where
  dependency user_start user_stop shutdown_stop : RequestSource

-- The derived order: a later constructor is the greater.
unfoldable pub rank : RequestSource → ℕ
rank dependency = 0
rank user_start = 1
rank user_stop = 2
rank shutdown_stop = 3

pub data JobTarget : Type 0 where
  started stopped : JobTarget

pub record Job : Type 0 where
  pub unit : UnitName
  pub target : JobTarget
  pub source : RequestSource
  pub at : Millis

unfoldable pub supersedes : Job → Job → Bool
unfolding rank
supersedes j other =
    if ltb (rank other.source) (rank j.source)
    then true
    else if ltb (rank j.source) (rank other.source)
    then false
    else ltb other.at j.at

pub record MergedTarget : Type 0 where
  pub target : JobTarget
  pub source : RequestSource
  pub at : Millis

-- The vector `merged`.
abbrev pub JobQueue : Type 0
JobQueue = List (UnitName × MergedTarget)

abbrev pub merged_of : Job → MergedTarget
merged_of j = record { target = j.target; source = j.source; at = j.at }

unfoldable pub outranks : Job → MergedTarget → Bool
unfolding rank
outranks j current =
    ltb (rank current.source) (rank j.source)
    || rank j.source == rank current.source && ltb current.at j.at

-- The new queue, and whether the request won. The first entry of the unit is the one in question;
-- a unit that has none gets one at the end.
unfoldable pub submit : JobQueue → Job → JobQueue × Bool
unfolding outranks name_eq
submit [] j = ((j.unit, merged_of j) ∷ [], true)
submit ((u, current) ∷ q) j =
    let (rest, won) = submit q j in
    if name_eq u j.unit
    then if outranks j current then ((u, merged_of j) ∷ q, true) else ((u, current) ∷ q, false)
    else ((u, current) ∷ rest, won)

unfoldable pub target_of : JobQueue → UnitName → Option MergedTarget
target_of [] unit = none
target_of ((u, t) ∷ q) unit = if name_eq u unit then some t else target_of q unit

unfoldable pub forget : JobQueue → UnitName → JobQueue
forget [] unit = []
forget ((u, t) ∷ q) unit = if name_eq u unit then forget q unit else (u, t) ∷ forget q unit

-- The action that a target asks for in a state.
unfoldable pub action : JobTarget → UnitState → Option Effect
action started active = some Effect.none
action started active_exited = some Effect.none
action started restart_wait = some Effect.cancel_backoff_and_start
action started (failed _) = some Effect.clear_start_limit_and_start
action started deactivating = none
action started inactive = some Effect.spawn_process
action started starting = some Effect.none
action stopped inactive = some Effect.none
action stopped active_exited = some Effect.none
action stopped (failed _) = some Effect.none
action stopped restart_wait = some Effect.cancel_backoff_and_stop
action stopped active = some Effect.send_stop_signal
action stopped starting = some Effect.send_stop_signal
action stopped deactivating = none

unfoldable pub reconcile : JobQueue → UnitName → UnitState → Option Effect
unfolding action target_of
reconcile q unit actual = elim (target_of q unit) [
  | none ↦ none
  | some merged ↦ action merged.target actual
]
