-- ===== src/Unit/Cgroup/Plan.antt =====
-- crates/rinit-core/src/unit/cgroup.rs: what the files say, where they are and which controllers are
-- enabled.
use rinit.Prelude.{
  ℕ, ◌*◌, ◌/◌, ◌≤◌, ◌≡◌, refl, ap, ◌∙◌, ◌↔◌, Bool, true, false, Option, none, some, List, [], ◌∷◌,
  ◌++◌, arith, if◌then◌else◌, All, All-append, Text, codes, text_eq, ok,
}
use mathlib.Core.Option as Opt
use rinit.Prelude.Word.{u64_max}
use rinit.Prelude.Slices.{
  split_once, split_once-append, split_on, join_with, split_on-join_with, contains, all,
}
use rinit.Prelude.Decimal.{parse_word}
use rinit.Prelude.Printed.{decimal, parse_word-decimal, contains-decimal}
use rinit.Unit.Name.{UnitName, is_name_char}
use rinit.Unit.Name.{parse as parse_name}
use rinit.Unit.Name.Canonical.{parse-IsCanonical}
use rinit.Unit.Config.{CpuQuota, percent, quota_period, SizeBytes}
use rinit.Unit.Cgroup.{
  group, default_period_us, CgroupLimits, is_empty, cpu_max_value, File, file_of, files, path_for,
  names_in, add_names, has_controller, controllers_to_enable,
}

-- What was written to a file of this name.
unfoldable pub content_of : Text → List File → Option Text
content_of name [] = none
content_of name ((c, f, v) ∷ fs) = if text_eq f name then some v else content_of name fs

-- The number, and the pair of numbers, that a file holds, as a reader of the file finds them.
unfoldable pub number_in : Option Text → Option ℕ
number_in none = none
number_in (some v) = parse_word u64_max v

both : Option ℕ → Option ℕ → Option (ℕ × ℕ)
both (some a) (some b) = some (a, b)
both _ _ = none

pair_of : Option (Text × Text) → Option (ℕ × ℕ)
unfolding both
pair_of none = none
pair_of (some (a, b)) = both (parse_word u64_max a) (parse_word u64_max b)

unfoldable pub pair_in : Option Text → Option (ℕ × ℕ)
unfolding pair_of
pair_in none = none
pair_in (some v) = pair_of (split_once b' ' v)

-- Runtime and period in microseconds: a percentage is one of the default period.
unfoldable pub microseconds : CpuQuota → ℕ × ℕ
microseconds (percent p) = (p * default_period_us / 100, default_period_us)
microseconds (quota_period q p) = (q, p)

unfoldable pub QuotaFits : Option CpuQuota → Type 0
QuotaFits none = Unit
QuotaFits (some (percent p)) = p ≤ 100
QuotaFits (some (quota_period q p)) = (q ≤ u64_max) × (p ≤ u64_max)

unfoldable pub SizeFits : Option SizeBytes → Type 0
SizeFits none = Unit
SizeFits (some v) = v.bytes ≤ u64_max

unfoldable pub CountFits : Option ℕ → Type 0
CountFits none = Unit
CountFits (some n) = n ≤ u64_max

-- Limits within the machine's words, as the parser of unit files makes them.
pub record Fits (l : CgroupLimits) : Type 0 where
  pub cpu_max : QuotaFits l.cpu_max
  pub memory_max : SizeFits l.memory_max
  pub memory_high : SizeFits l.memory_high
  pub tasks_max : CountFits l.tasks_max

-- The name of a file begins with its controller and a dot.
abbrev pub IsNamed : File → Type 0
IsNamed (c, f, v) = (a : Text) × (split_once b'.' f ≡ some (c, a))

-- The files of limits, read back.
pub record IsFaithful (l : CgroupLimits) : Type 0 where
  pub cpu : pair_in (content_of (codes "cpu.max") (files l)) ≡ Opt.map microseconds l.cpu_max
  pub hard :
      number_in (content_of (codes "memory.max") (files l)) ≡ Opt.map (λ v. v.bytes) l.memory_max
  pub soft :
      number_in (content_of (codes "memory.high") (files l)) ≡ Opt.map (λ v. v.bytes) l.memory_high
  pub tasks : number_in (content_of (codes "pids.max") (files l)) ≡ l.tasks_max
  pub none_iff : (files l ≡ []) ↔ (is_empty l ≡ true)
  pub controllers : All IsNamed (files l)

pair_in-decimals :
    (a b : ℕ)
    → a ≤ u64_max
    → b ≤ u64_max
    → pair_in (some (decimal a ++ b' ' ∷ decimal b)) ≡ some (a, b)
unfolding pair_in both
pair_in-decimals a b h i =
    rw (split_once-append b' ' (decimal a) (decimal b) (contains-decimal b' ' a refl))
      (rw (parse_word-decimal u64_max a h, parse_word-decimal u64_max b i))

pair_in-cpu_max_value :
    (q : CpuQuota) → QuotaFits (some q) → pair_in (some (cpu_max_value q)) ≡ some (microseconds q)
unfolding cpu_max_value microseconds QuotaFits
pair_in-cpu_max_value (quota_period q p) h = pair_in-decimals q p h.0 h.1
pair_in-cpu_max_value (percent p) h =
    pair_in-decimals (p * (default_period_us / 100)) default_period_us (omega arith) (omega arith)
    ∙ ap (λ n. some (n, default_period_us)) (omega arith)

-- Each file by its name.
contents :
    (l : CgroupLimits)
    → (content_of (codes "cpu.max") (files l) ≡ Opt.map cpu_max_value l.cpu_max)
      × (content_of (codes "memory.max") (files l) ≡ Opt.map (λ v. decimal v.bytes) l.memory_max)
      × (content_of (codes "memory.high") (files l) ≡ Opt.map (λ v. decimal v.bytes) l.memory_high)
      × (content_of (codes "pids.max") (files l) ≡ Opt.map decimal l.tasks_max)
      × ((files l ≡ []) ↔ (is_empty l ≡ true))
unfolding content_of files text_eq is_empty
contents l = ground arith

file_of_controller :
    {A : Type 0} (c f : Text) (show : A → Text) (o : Option A) (a : Text)
    → split_once b'.' f ≡ some (c, a)
    → All IsNamed (file_of c f show o)
file_of_controller c f show none a h = tt
file_of_controller c f show (some v) a h = ((a, h), tt)

file_controllers : (l : CgroupLimits) → All IsNamed (files l)
unfolding files split_once
file_controllers l =
    let cpu =
      file_of_controller (codes "cpu") (codes "cpu.max") cpu_max_value l.cpu_max (codes "max")
        refl in
    let hard =
      file_of_controller (codes "memory") (codes "memory.max") (λ v. decimal v.bytes) l.memory_max
        (codes "max") refl in
    let soft =
      file_of_controller (codes "memory") (codes "memory.high") (λ v. decimal v.bytes) l.memory_high
        (codes "high") refl in
    let pids =
      file_of_controller (codes "pids") (codes "pids.max") decimal l.tasks_max (codes "max") refl in
    All-append IsNamed _ _ (All-append IsNamed _ _ (All-append IsNamed _ _ cpu hard) soft) pids

quota_read :
    (o : Option CpuQuota) → QuotaFits o → pair_in (Opt.map cpu_max_value o) ≡ Opt.map microseconds o
unfolding pair_in
quota_read none h = refl
quota_read (some q) h = pair_in-cpu_max_value q h

size_read :
    (o : Option SizeBytes)
    → SizeFits o
    → number_in (Opt.map (λ v. decimal v.bytes) o) ≡ Opt.map (λ v. v.bytes) o
unfolding number_in SizeFits
size_read none h = refl
size_read (some v) h = parse_word-decimal u64_max v.bytes h

count_read : (o : Option ℕ) → CountFits o → number_in (Opt.map decimal o) ≡ o
unfolding number_in CountFits
count_read none h = refl
count_read (some n) h = parse_word-decimal u64_max n h

-- Limits within a u64 are read back from the files that they become, a percentage as that share of
-- the default period; there are no files exactly if there are no limits; and the controller of each
-- file is what its name has before the dot.
pub files-IsFaithful : (l : CgroupLimits) → Fits l → IsFaithful l
files-IsFaithful l h =
    let (cpu, hard, soft, tasks, empty) = contents l in
    record {
      cpu = ap pair_in cpu ∙ quota_read l.cpu_max h.cpu_max;
      hard = ap number_in hard ∙ size_read l.memory_max h.memory_max;
      soft = ap number_in soft ∙ size_read l.memory_high h.memory_high;
      tasks = ap number_in tasks ∙ count_read l.tasks_max h.tasks_max;
      none_iff = empty;
      controllers = file_controllers l;
    }

no_slash : (s : Text) → all is_name_char s ≡ true → contains b'/' s ≡ false
unfolding all is_name_char contains
no_slash [] h = refl
no_slash (c ∷ s) h = ground (arith, no_slash s)

-- The path of a unit whose name was parsed has two parts, the group and the name, so it stays
-- inside the group.
split_on-path_for :
    (text : Text) (unit : UnitName)
    → parse_name text ≡ ok unit
    → split_on b'/' (path_for unit) ≡ group ∷ unit.canonical ∷ []
unfolding path_for join_with contains
split_on-path_for text unit h =
    let canonical = parse-IsCanonical text unit h in
    split_on-join_with b'/' group (unit.canonical ∷ [])
      (refl, (no_slash unit.canonical canonical.chars, tt))

-- What is enabled, for which controllers are there.
abbrev line_of : Bool → Bool → Bool → Option Text
line_of true true true = some (codes "+cpu +memory +pids")
line_of true true false = some (codes "+cpu +memory")
line_of true false true = some (codes "+cpu +pids")
line_of true false false = some (codes "+cpu")
line_of false true true = some (codes "+memory +pids")
line_of false true false = some (codes "+memory")
line_of false false true = some (codes "+pids")
line_of false false false = none

-- The line that enables controllers has a word for each of cpu, memory and pids that the kernel
-- lists, in this order and behind a plus sign, and there is no line if it lists none of them.
controllers_to_enable_exact :
    (available : Text)
    → controllers_to_enable available
      ≡ line_of
          (has_controller available (codes "cpu"))
          (has_controller available (codes "memory"))
          (has_controller available (codes "pids"))
unfolding controllers_to_enable names_in add_names
controllers_to_enable_exact available = ground arith
