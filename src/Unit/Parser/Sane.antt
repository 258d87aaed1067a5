-- ===== src/Unit/Parser/Sane.antt =====
-- crates/rinit-core/src/unit/parser.rs: what each directive keeps of a configuration.
use rinit.Prelude.{
  ℕ, ◌≤◌, ◌<◌, ◌≡◌, ap, ◌∙◌, inl, inr, true, Option, none, some, List, [], ◌∷◌, arith, Option-cases,
  Text, ok, ◌>>=◌, Bool-cases, ltb, leb, ◌==◌, ◌&&◌, ◌||◌,
}
use rinit.Unit.Name.{UnitName}
use rinit.Unit.Config.{
  UnitConfig, SizeBytes, CpuQuota, percent, quota_period, percentage, quota_of, quota_words,
  plain_number, parse_cpu_quota,
}
use rinit.Prelude.Slices.{strip_suffix, trim_by}
use rinit.Prelude.Splits.{words_by}
use rinit.Prelude.Decimal.{parse_word}
use rinit.Prelude.Word.{u32_max, u64_max}
use rinit.Unit.Name.{is_whitespace}
use rinit.Unit.Parser.{rejected}
use rinit.Unit.Parser.Lexing.{join_tokens}
use rinit.Unit.Parser.Values.{number, refuse_zero, size, is_absolute, require_absolute}
use rinit.Unit.Parser.Directives.{
  Setting, start_limit_burst, health_interval_sec, health_timeout_sec, cgroup_tasks_max,
  cgroup_memory_max, cgroup_memory_high, cgroup_cpu_max, working_directory, burst_of, path_of,
  set_value,
}
use mathlib.Core.Option as Opt
use mathlib.Core.Path.{subst}
use rinit.Prelude.{bind-eq-ok}

abbrev pub Limited : Option SizeBytes → Type 0
Limited none = Unit
Limited (some v) = 0 < v.bytes

abbrev pub Counted : Option ℕ → Type 0
Counted none = Unit
Counted (some n) = 0 < n

-- A share of the processor is a percentage from 1 to 100, or a runtime in a period, neither of them 0.
abbrev pub Shared : Option CpuQuota → Type 0
Shared none = Unit
Shared (some (percent p)) = (0 < p) × (p ≤ 100)
Shared (some (quota_period quota period)) = (0 < quota) × (0 < period)

-- What holds of every configuration while it is read.
pub record IsSane (name : UnitName) (c : UnitConfig) : Type 0 where
  pub named : c.name ≡ name
  pub burst_positive : 0 < c.start_limit_burst
  pub burst_bounded : c.start_limit_burst ≤ 1000000
  pub health_interval : 0 < c.health_interval_sec
  pub health_timeout : 0 < c.health_timeout_sec
  pub memory_max : Limited c.cgroup_memory_max
  pub memory_high : Limited c.cgroup_memory_high
  pub cpu_max : Shared c.cgroup_cpu_max
  pub tasks : Counted c.cgroup_tasks_max
  pub directory : is_absolute c.working_directory ≡ true

number-positive :
    (line : ℕ) (key : Text) (tokens : List Text) (n : ℕ)
    → number line key tokens rejected ≡ ok n
    → 0 < n
unfolding number refuse_zero
number-positive line key tokens n h = ground arith

burst_of-bounds :
    (line : ℕ) (key : Text) (tokens : List Text) (n b : ℕ)
    → burst_of line key tokens n ≡ ok b
    → (b ≡ n) × (b ≤ 1000000)
unfolding burst_of
burst_of-bounds line key tokens n b h = ground arith

size-positive :
    (line : ℕ) (key text : Text) (v : SizeBytes) → size line key text ≡ ok v → 0 < v.bytes
unfolding size
size-positive line key text v h = ground arith

percentage-Shared : (o : Option ℕ) → Shared (percentage o)
unfolding percentage
percentage-Shared none = tt
percentage-Shared (some p) = elim (Bool-cases (ltb 0 p && leb p 100)) [
  | inl good ↦ rw good (ground arith)
  | inr bad ↦ rw bad tt
]

quota_of-Shared : (o p : Option ℕ) → Shared (quota_of o p)
unfolding quota_of
quota_of-Shared (some quota) (some period) = elim (Bool-cases (quota == 0 || period == 0)) [
  | inl zero ↦ rw zero tt
  | inr good ↦ rw good (ground arith)
]
quota_of-Shared (some quota) none = tt
quota_of-Shared none p = tt

quota_words-Shared : (ws : List Text) → Shared (quota_words ws)
unfolding quota_words
quota_words-Shared [] = tt
quota_words-Shared (q ∷ []) = tt
quota_words-Shared (q ∷ p ∷ []) = quota_of-Shared (parse_word u64_max q) (parse_word u64_max p)
quota_words-Shared (q ∷ p ∷ r ∷ ws) = tt

parse_cpu_quota-Shared : (text : Text) → Shared (parse_cpu_quota text)
unfolding parse_cpu_quota plain_number
parse_cpu_quota-Shared text =
    let t = trim_by is_whitespace text in
    elim (Option-cases (strip_suffix (b'%' ∷ []) t)) [
      | inl words ↦ rw (words, parse_cpu_quota) (quota_words-Shared (words_by is_whitespace t))
      | inr (pct, share) ↦
          rw (share, parse_cpu_quota)
            (percentage-Shared (plain_number u32_max (trim_by is_whitespace pct)))
    ]

path_of-absolute :
    (line : ℕ) (key : Text) (tokens : List Text) (path : Text)
    → path_of line key tokens ≡ ok (some path)
    → is_absolute path ≡ true
unfolding path_of require_absolute
path_of-absolute line key [] path h = cc
path_of-absolute line key (t ∷ ts) path h = ground arith

pub set_value-IsSane :
    (name : UnitName) (s : Setting) (c d : UnitConfig) (line : ℕ) (key : Text) (tokens : List Text)
    → IsSane name c
    → set_value s c line key tokens ≡ ok d
    → IsSane name d
unfolding set_value
set_value-IsSane name start_limit_burst c d line key tokens h e =
    let (n, read, later) =
      bind-eq-ok (number line key tokens rejected)
        (λ n. burst_of line key tokens n >>= λ b. ok (record c { start_limit_burst = b })) e in
    let (b, bounded, made) =
      bind-eq-ok (burst_of line key tokens n) (λ b. ok (record c { start_limit_burst = b }))
        later in
    ground
      (arith, number-positive line key tokens n read, burst_of-bounds line key tokens n b bounded)
set_value-IsSane name health_interval_sec c d line key tokens h e =
    let (n, read, made) =
      bind-eq-ok (number line key tokens rejected) (λ n. ok (record c { health_interval_sec = n }))
        e in
    ground (arith, number-positive line key tokens n read)
set_value-IsSane name health_timeout_sec c d line key tokens h e =
    let (n, read, made) =
      bind-eq-ok (number line key tokens rejected) (λ n. ok (record c { health_timeout_sec = n }))
        e in
    ground (arith, number-positive line key tokens n read)
set_value-IsSane name cgroup_tasks_max c d line key tokens h e =
    let (n, read, made) =
      bind-eq-ok (number line key tokens rejected)
        (λ n. ok (record c { cgroup_tasks_max = some n })) e in
    ground (arith, number-positive line key tokens n read)
set_value-IsSane name cgroup_memory_max c d line key tokens h e =
    let (v, read, made) =
      bind-eq-ok (size line key (join_tokens tokens))
        (λ v. ok (record c { cgroup_memory_max = some v })) e in
    ground (arith, size-positive line key (join_tokens tokens) v read)
set_value-IsSane name cgroup_memory_high c d line key tokens h e =
    let (v, read, made) =
      bind-eq-ok (size line key (join_tokens tokens))
        (λ v. ok (record c { cgroup_memory_high = some v })) e in
    ground (arith, size-positive line key (join_tokens tokens) v read)
set_value-IsSane name cgroup_cpu_max c d line key tokens h e =
    elim (Option-cases (parse_cpu_quota (join_tokens tokens))) [
      | inl bad ↦ absurd (ground arith)
      | inr (quota, read) ↦
          let shared = subst Shared read (parse_cpu_quota-Shared (join_tokens tokens)) in
          ground (arith, shared)
    ]
set_value-IsSane name working_directory c d line key tokens h e =
    let (o, read, made) =
      bind-eq-ok (path_of line key tokens)
        (λ o. ok (record c { working_directory = Opt.get_or o c.working_directory })) e in
    elim (Option-cases o) [
      | inl unset ↦ ground arith
      | inr (path, set) ↦ ground (arith, path_of-absolute line key tokens path (read ∙ ap ok set))
    ]
set_value-IsSane name _ c d line key tokens h e = ground arith
