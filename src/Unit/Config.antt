-- ===== src/Unit/Config.antt =====
-- crates/rinit-core/src/unit/config.rs: the configuration of a unit, and the values that its
-- directives take.
use rinit.Prelude.{
  ℕ, ◌*◌, Bool, true, false, ◌&&◌, ◌||◌, Option, none, some, List, [], ◌∷◌, ◌++◌, map, ltb, leb,
  ◌==◌, if◌then◌else◌, Text, codes, text_eq,
}
use rinit.Prelude.Word.{u32_max, u64_max}
use rinit.Prelude.Duration.{Duration, from_secs}
use rinit.Prelude.Slices.{all, strip_prefix, strip_suffix, trim_by}
use rinit.Prelude.Splits.{words_by, to_ascii_lower}
use rinit.Prelude.Decimal.{is_digit, parse_word}
use rinit.Unit.Name.{UnitName, UnitType, service, target, is_whitespace, name_eq}
use rinit.Unit.State.{
  ServiceKind, simple, oneshot, notify, forking, RestartPolicy, never, always, on_success,
  on_failure, on_abnormal,
}
use mathlib.Core.Option as Opt

unfoldable pub parse_service_kind : Text → Option ServiceKind
parse_service_kind s =
    if text_eq s (codes "simple")
    then some simple
    else if text_eq s (codes "oneshot")
    then some oneshot
    else if text_eq s (codes "notify")
    then some notify
    else if text_eq s (codes "forking")
    then some forking
    else none

unfoldable pub parse_restart_policy : Text → Option RestartPolicy
parse_restart_policy s =
    if text_eq s (codes "no")
    then some never
    else if text_eq s (codes "always")
    then some always
    else if text_eq s (codes "on-success")
    then some on_success
    else if text_eq s (codes "on-failure")
    then some on_failure
    else if text_eq s (codes "on-abnormal")
    then some on_abnormal
    else none

pub record ExecCommand : Type 0 where
  pub argv : List Text

abbrev pub empty_command : ExecCommand
empty_command = record { argv = [] }

unfoldable pub is_empty_command : ExecCommand → Bool
is_empty_command c = elim c.argv [ [] ↦ true | _ ∷ _ ↦ false ]

pub record SizeBytes : Type 0 where
  pub bytes : ℕ

-- `strip_suffix` of a letter in either case.
abbrev strip_letter : ℕ → ℕ → Text → Option Text
strip_letter upper lower s = elim (strip_suffix (upper ∷ []) s) [
  | some r ↦ some r
  | none ↦ strip_suffix (lower ∷ []) s
]

-- The digits, and what they count.
unfoldable pub split_scale : Text → Text × ℕ
split_scale s = elim (strip_letter b'K' b'k' s) [
  | some r ↦ (r, 1024)
  | none ↦ elim (strip_letter b'M' b'm' s) [
    | some r ↦ (r, 1024 * 1024)
    | none ↦ elim (strip_letter b'G' b'g' s) [ some r ↦ (r, 1024 * 1024 * 1024) | none ↦ (s, 1) ]
  ]
]

scaled : ℕ → Option ℕ → Option SizeBytes
scaled scale none = none
scaled scale (some n) =
    if leb (n * scale) u64_max then some (record { bytes = n * scale }) else none

-- The digits of a size, trimmed: a number with no sign.
unfoldable pub plain_number : ℕ → Text → Option ℕ
plain_number top [] = none
plain_number top (c ∷ s) = if all is_digit (c ∷ s) then parse_word top (c ∷ s) else none

unfoldable pub parse_size : Text → Option SizeBytes
unfolding split_scale scaled plain_number
parse_size s = elim (trim_by is_whitespace s) [
  | [] ↦ none
  | c ∷ r ↦
      let (digits, scale) = split_scale (c ∷ r) in
      scaled scale (plain_number u64_max (trim_by is_whitespace digits))
]

pub data CpuQuota : Type 0 where
  percent : ℕ → CpuQuota
  quota_period : ℕ → ℕ → CpuQuota

unfoldable pub percentage : Option ℕ → Option CpuQuota
percentage none = none
percentage (some p) = if ltb 0 p && leb p 100 then some (percent p) else none

unfoldable pub quota_of : Option ℕ → Option ℕ → Option CpuQuota
quota_of (some quota) (some period) =
    if quota == 0 || period == 0 then none else some (quota_period quota period)
quota_of _ _ = none

unfoldable pub quota_words : List Text → Option CpuQuota
unfolding quota_of
quota_words (q ∷ p ∷ []) = quota_of (parse_word u64_max q) (parse_word u64_max p)
quota_words _ = none

unfoldable pub parse_cpu_quota : Text → Option CpuQuota
unfolding percentage quota_words plain_number
parse_cpu_quota s =
    let t = trim_by is_whitespace s in
    elim (strip_suffix (b'%' ∷ []) t) [
      | some pct ↦ percentage (plain_number u32_max (trim_by is_whitespace pct))
      | none ↦ quota_words (words_by is_whitespace t)
    ]

pub record Cap : Type 0 where
  pub name : Text

unfoldable pub is_cap_char : ℕ → Bool
is_cap_char c = leb b'a' c && leb c b'z' || is_digit c || c == b'_'

normalised : Text → Option Cap
unfolding is_cap_char
normalised [] = none
normalised (c ∷ s) =
    let low = map to_ascii_lower (c ∷ s) in
    if all is_cap_char low then some (record { name = low }) else none

unfoldable pub parse_cap : Text → Option Cap
unfolding normalised
parse_cap s =
    let t = trim_by is_whitespace s in
    elim (strip_prefix (codes "CAP_") t) [
      | some r ↦ normalised r
      | none ↦ normalised (Opt.get_or (strip_prefix (codes "cap_") t) t)
    ]

pub record Dependencies : Type 0 where
  pub requires : List UnitName
  pub wants : List UnitName
  pub after : List UnitName
  pub before : List UnitName
  pub conflicts : List UnitName

unfoldable pub has_name : UnitName → List UnitName → Bool
has_name name [] = false
has_name name (u ∷ us) = name_eq u name || has_name name us

unfoldable pub push_new : List UnitName → List UnitName → List UnitName
push_new out [] = out
push_new out (u ∷ us) = push_new (if has_name u out then out else out ++ u ∷ []) us

-- Every unit that a directive names, once.
unfoldable pub all_referenced : Dependencies → List UnitName
unfolding push_new
all_referenced d = push_new [] (d.requires ++ (d.wants ++ (d.after ++ (d.before ++ d.conflicts))))

pub record UnitConfig : Type 0 where
  pub name : UnitName
  pub kind : UnitType
  pub description : Text
  pub documentation : Text
  pub deps : Dependencies
  pub service_kind : ServiceKind
  pub exec_start : ExecCommand
  pub exec_start_pre : List ExecCommand
  pub exec_start_post : List ExecCommand
  pub exec_stop : ExecCommand
  pub socket_activate : Option Text
  pub idle_timeout_sec : ℕ
  pub sockets : List Text
  pub needs_socket : List Text
  pub tty_path : Option Text
  pub tty_reset : Bool
  pub pid_file : Option Text
  pub restart : RestartPolicy
  pub restart_sec : ℕ
  pub start_limit_burst : ℕ
  pub start_limit_interval_sec : ℕ
  pub timeout_start_sec : ℕ
  pub timeout_stop_sec : ℕ
  pub user : Text
  pub group : Text
  pub no_new_privileges : Bool
  pub capability_bounding_set : Option (List Cap)
  pub ambient_capabilities : Option (List Cap)
  pub environment : List (Text × Text)
  pub environment_file : Text
  pub working_directory : Text
  pub health_check : ExecCommand
  pub health_interval_sec : ℕ
  pub health_timeout_sec : ℕ
  pub health_restart_on_failure : Bool
  pub cgroup_memory_max : Option SizeBytes
  pub cgroup_memory_high : Option SizeBytes
  pub cgroup_cpu_max : Option CpuQuota
  pub cgroup_tasks_max : Option ℕ

abbrev pub no_dependencies : Dependencies
no_dependencies = record { requires = []; wants = []; after = []; before = []; conflicts = [] }

-- Every default applied.
unfoldable pub new_config : UnitName → UnitConfig
new_config name = record {
  name = name;
  kind = name.ty;
  description = [];
  documentation = [];
  deps = no_dependencies;
  service_kind = simple;
  exec_start = empty_command;
  exec_start_pre = [];
  exec_start_post = [];
  exec_stop = empty_command;
  socket_activate = none;
  idle_timeout_sec = 0;
  sockets = [];
  needs_socket = [];
  tty_path = none;
  tty_reset = true;
  pid_file = none;
  restart = never;
  restart_sec = 2;
  start_limit_burst = 5;
  start_limit_interval_sec = 10;
  timeout_start_sec = 30;
  timeout_stop_sec = 10;
  user = [];
  group = [];
  no_new_privileges = false;
  capability_bounding_set = none;
  ambient_capabilities = none;
  environment = [];
  environment_file = [];
  working_directory = codes "/";
  health_check = empty_command;
  health_interval_sec = 30;
  health_timeout_sec = 10;
  health_restart_on_failure = false;
  cgroup_memory_max = none;
  cgroup_memory_high = none;
  cgroup_cpu_max = none;
  cgroup_tasks_max = none;
}

unfoldable pub is_target : UnitConfig → Bool
is_target c = elim c.kind [ service ↦ false | target ↦ true ]

unfoldable pub restart_delay : UnitConfig → Duration
restart_delay c = from_secs c.restart_sec
