-- ===== src/Unit/Cgroup.antt =====
-- crates/rinit-core/src/unit/cgroup.rs: the files that a unit's limits become, and the controllers that
-- they need.
use rinit.Prelude.{
  ℕ, zero, suc, ◌+◌, ◌-◌, ◌*◌, ◌/◌, ◌%◌, ◌^◌, ◌≤◌, ◌<◌, min, max, ◌≡◌, refl, sym, ap, ◌∙◌, ◌≢◌, ◌↔◌,
  ◌⊎◌, inl, inr, Bool, true, false, not, ◌&&◌, ◌||◌, Option, none, some, List, [], ◌∷◌, ◌++◌, map,
  Memᴰ, arith, ltb, leb, ◌==◌, ==_iff, if◌then◌else◌, ltb→lt, lt→ltb, leb→le, Bool-cases,
  Option-cases, length, get_elem?, take, drop, length-append, length-drop, take-append, drop-append,
  List-cases, All, All-append, All-drop, Text, codes, text_eq, text_eq_iff, Result, ok, err, ◌>>=◌,
  ◌>>◌, Result-cases,
}
use rinit.Prelude.Splits.{words_by}
use rinit.Prelude.Printed.{decimal}
use rinit.Unit.Name.{UnitName, is_whitespace}
use rinit.Unit.Config.{UnitConfig, CpuQuota, percent, quota_period, SizeBytes}
pub mod Setup
pub mod Plan
pub mod Placement
mod Samples

abbrev pub group : Text
group = codes "rinit"

abbrev pub default_period_us : ℕ
default_period_us = 100000

abbrev pub wanted_controllers : List Text
wanted_controllers = codes "cpu" ∷ codes "memory" ∷ codes "pids" ∷ []

pub record CgroupLimits : Type 0 where
  pub cpu_max : Option CpuQuota
  pub memory_max : Option SizeBytes
  pub memory_high : Option SizeBytes
  pub tasks_max : Option ℕ

unfoldable pub from_config : UnitConfig → CgroupLimits
from_config config = record {
  cpu_max = config.cgroup_cpu_max;
  memory_max = config.cgroup_memory_max;
  memory_high = config.cgroup_memory_high;
  tasks_max = config.cgroup_tasks_max;
}

abbrev pub is_none : {A : Type 0} → Option A → Bool
is_none none = true
is_none (some _) = false

unfoldable pub is_empty : CgroupLimits → Bool
is_empty l =
    is_none l.cpu_max && is_none l.memory_max && is_none l.memory_high && is_none l.tasks_max

-- A percentage is at most 100 where it was parsed, so the product stays within a u64.
unfoldable pub cpu_max_value : CpuQuota → Text
cpu_max_value (percent p) =
    decimal (p * (default_period_us / 100)) ++ b' ' ∷ decimal default_period_us
cpu_max_value (quota_period q p) = decimal q ++ b' ' ∷ decimal p

-- A file to write: its controller, its name and what goes in it.
abbrev pub File : Type 0
File = Text × Text × Text

abbrev pub file_of : {A : Type 0} → Text → Text → (A → Text) → Option A → List File
file_of controller name show none = []
file_of controller name show (some v) = (controller, name, show v) ∷ []

unfoldable pub files : CgroupLimits → List File
unfolding cpu_max_value
files l =
    file_of (codes "cpu") (codes "cpu.max") cpu_max_value l.cpu_max
    ++ file_of (codes "memory") (codes "memory.max") (λ v. decimal v.bytes) l.memory_max
    ++ file_of (codes "memory") (codes "memory.high") (λ v. decimal v.bytes) l.memory_high
    ++ file_of (codes "pids") (codes "pids.max") decimal l.tasks_max

unfoldable pub path_for : UnitName → Text
path_for unit = group ++ b'/' ∷ unit.canonical

unfoldable pub lists_word : Text → List Text → Bool
lists_word name [] = false
lists_word name (w ∷ ws) = text_eq w name || lists_word name ws

unfoldable pub has_controller : Text → Text → Bool
unfolding lists_word
has_controller available name = lists_word name (words_by is_whitespace available)

unfoldable pub names_in : Text → List Text → List Text
unfolding has_controller
names_in available [] = []
names_in available (n ∷ ns) =
    let rest = names_in available ns in if has_controller available n then n ∷ rest else rest

-- The loop that writes the line.
unfoldable pub add_names : Text → List Text → Text
add_names line [] = line
add_names [] (n ∷ ns) = add_names (b'+' ∷ n) ns
add_names (c ∷ line) (n ∷ ns) = add_names ((c ∷ line) ++ b' ' ∷ b'+' ∷ n) ns

unfoldable pub controllers_to_enable : Text → Option Text
unfolding names_in add_names
controllers_to_enable available = elim (names_in available wanted_controllers) [
  | [] ↦ none
  | n ∷ ns ↦ some (add_names [] (n ∷ ns))
]
