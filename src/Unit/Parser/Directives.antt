-- ===== src/Unit/Parser/Directives.antt =====
-- crates/rinit-core/src/unit/parser.rs: the directives by section and key, and what each sets.
use rinit.Prelude.{
  ℕ, Option, none, some, List, [], ◌∷◌, ◌++◌, ltb, if◌then◌else◌, Text, codes, text_eq, Result, ok,
  err, ◌>>=◌,
}
use rinit.Prelude.Word.{u32_max}
use rinit.Unit.Name.{UnitType, service, target}
use rinit.Unit.Config.{
  UnitConfig, ExecCommand, is_empty_command, parse_service_kind, parse_restart_policy,
  parse_cpu_quota,
}
use rinit.Unit.Parser.{
  ParseError, invalid_value, said, Section, unit_section, service_section, allowed, rejected,
  Parser,
}
use rinit.Unit.Parser.Lexing.{join_tokens}
use rinit.Unit.Parser.Values.{command, number, boolean, caps, size, require_absolute, unit_names}
use rinit.Unit.Parser.Values.{environment as environment_of}
use mathlib.Core.Option as Opt

-- A directive that sets a field of the configuration.
pub data Setting : Type 0 where
  description documentation requires wants after before conflicts service_type exec_start : Setting
  exec_stop exec_start_pre exec_start_post health_check restart restart_sec start_limit_burst :
      Setting
  start_limit_interval_sec timeout_start_sec timeout_stop_sec health_interval_sec : Setting
  health_timeout_sec user group no_new_privileges health_restart_on_failure : Setting
  capability_bounding_set ambient_capabilities environment environment_file working_directory :
      Setting
  socket_activate idle_timeout_sec sockets needs_socket tty_path tty_reset pid_file : Setting
  cgroup_memory_max cgroup_memory_high cgroup_cpu_max cgroup_tasks_max : Setting

-- `[Unit] Type=` sets none: it is compared with the suffix at the end.
pub data Directive : Type 0 where
  unit_type : Directive
  setting : Setting → Directive

abbrev pub unit_table : List (Text × Directive)
unit_table =
    (codes "Description", setting description)
    ∷ (codes "Documentation", setting documentation)
    ∷ (codes "Type", unit_type)
    ∷ (codes "Requires", setting requires)
    ∷ (codes "Wants", setting wants)
    ∷ (codes "After", setting after)
    ∷ (codes "Before", setting before)
    ∷ (codes "Conflicts", setting conflicts)
    ∷ []

abbrev pub service_table : List (Text × Directive)
service_table =
    (codes "Type", setting service_type)
    ∷ (codes "ExecStart", setting exec_start)
    ∷ (codes "ExecStop", setting exec_stop)
    ∷ (codes "ExecStartPre", setting exec_start_pre)
    ∷ (codes "ExecStartPost", setting exec_start_post)
    ∷ (codes "HealthCheck", setting health_check)
    ∷ (codes "Restart", setting restart)
    ∷ (codes "RestartSec", setting restart_sec)
    ∷ (codes "StartLimitBurst", setting start_limit_burst)
    ∷ (codes "StartLimitIntervalSec", setting start_limit_interval_sec)
    ∷ (codes "TimeoutStartSec", setting timeout_start_sec)
    ∷ (codes "TimeoutStopSec", setting timeout_stop_sec)
    ∷ (codes "HealthIntervalSec", setting health_interval_sec)
    ∷ (codes "HealthTimeoutSec", setting health_timeout_sec)
    ∷ (codes "User", setting user)
    ∷ (codes "Group", setting group)
    ∷ (codes "NoNewPrivileges", setting no_new_privileges)
    ∷ (codes "HealthRestartOnFailure", setting health_restart_on_failure)
    ∷ (codes "CapabilityBoundingSet", setting capability_bounding_set)
    ∷ (codes "AmbientCapabilities", setting ambient_capabilities)
    ∷ (codes "Environment", setting environment)
    ∷ (codes "EnvironmentFile", setting environment_file)
    ∷ (codes "WorkingDirectory", setting working_directory)
    ∷ (codes "SocketActivate", setting socket_activate)
    ∷ (codes "IdleTimeoutSec", setting idle_timeout_sec)
    ∷ (codes "Sockets", setting sockets)
    ∷ (codes "NeedsSocket", setting needs_socket)
    ∷ (codes "TTYPath", setting tty_path)
    ∷ (codes "TTYReset", setting tty_reset)
    ∷ (codes "PIDFile", setting pid_file)
    ∷ (codes "CgroupMemoryMax", setting cgroup_memory_max)
    ∷ (codes "CgroupMemoryHigh", setting cgroup_memory_high)
    ∷ (codes "CgroupCPUMax", setting cgroup_cpu_max)
    ∷ (codes "CgroupTasksMax", setting cgroup_tasks_max)
    ∷ []

unfoldable pub find_key : Text → List (Text × Directive) → Option Directive
find_key key [] = none
find_key key ((k, d) ∷ rows) = if text_eq k key then some d else find_key key rows

-- The pattern of the match on section and key.
unfoldable pub directive_of : Section → Text → Option Directive
unfolding find_key
directive_of unit_section key = find_key key unit_table
directive_of service_section key = find_key key service_table

abbrev expected_kind : Text
expected_kind = codes "expected 'simple', 'oneshot', 'notify' or 'forking'"

abbrev expected_policy : Text
expected_policy = codes "expected 'no', 'always', 'on-success', 'on-failure' or 'on-abnormal'"

unfoldable pub burst_of : ℕ → Text → List Text → ℕ → Result ParseError ℕ
burst_of line key tokens n =
    if ltb u32_max n
    then err (invalid_value line key (join_tokens tokens) (said (codes "must fit in 32 bits")))
    else if ltb 1000000 n
    then err (
        invalid_value line key (join_tokens tokens)
          (said (codes "is larger than the supported maximum of 1000000")))
    else ok n

-- A directive with an absolute path for its value; no value leaves it unset.
unfoldable pub path_of : ℕ → Text → List Text → Result ParseError (Option Text)
path_of line key [] = ok none
path_of line key (t ∷ ts) =
    let path = join_tokens (t ∷ ts) in require_absolute line key path >>= λ _. ok (some path)

abbrev pub or_else : Option Text → Option Text → Option Text
or_else none old = old
or_else (some path) old = some path

abbrev pub add_path : Option Text → List Text → List Text
add_path none paths = paths
add_path (some path) paths = paths ++ path ∷ []

abbrev pub add_command : ExecCommand → List ExecCommand → List ExecCommand
add_command cmd cmds = if is_empty_command cmd then cmds else cmds ++ cmd ∷ []

unfoldable pub set_value :
    Setting → UnitConfig → ℕ → Text → List Text → Result ParseError UnitConfig
unfolding burst_of path_of
set_value description c line key tokens = ok (record c { description = join_tokens tokens })
set_value documentation c line key tokens = ok (record c { documentation = join_tokens tokens })
set_value requires c line key tokens = unit_names line key tokens >>= λ us.
    ok (record c { deps = record c.deps { requires = c.deps.requires ++ us } })
set_value wants c line key tokens = unit_names line key tokens >>= λ us.
    ok (record c { deps = record c.deps { wants = c.deps.wants ++ us } })
set_value after c line key tokens = unit_names line key tokens >>= λ us.
    ok (record c { deps = record c.deps { after = c.deps.after ++ us } })
set_value before c line key tokens = unit_names line key tokens >>= λ us.
    ok (record c { deps = record c.deps { before = c.deps.before ++ us } })
set_value conflicts c line key tokens = unit_names line key tokens >>= λ us.
    ok (record c { deps = record c.deps { conflicts = c.deps.conflicts ++ us } })
set_value service_type c line key tokens =
    let declared = join_tokens tokens in
    elim (parse_service_kind declared) [
      | none ↦ err (invalid_value line key declared (said expected_kind))
      | some k ↦ ok (record c { service_kind = k })
    ]
set_value exec_start c line key tokens = ok (record c { exec_start = command tokens })
set_value exec_stop c line key tokens = ok (record c { exec_stop = command tokens })
set_value exec_start_pre c line key tokens =
    ok (record c { exec_start_pre = add_command (command tokens) c.exec_start_pre })
set_value exec_start_post c line key tokens =
    ok (record c { exec_start_post = add_command (command tokens) c.exec_start_post })
set_value health_check c line key tokens = ok (record c { health_check = command tokens })
set_value restart c line key tokens =
    let declared = join_tokens tokens in
    elim (parse_restart_policy declared) [
      | none ↦ err (invalid_value line key declared (said expected_policy))
      | some r ↦ ok (record c { restart = r })
    ]
set_value restart_sec c line key tokens =
    number line key tokens allowed >>= λ n. ok (record c { restart_sec = n })
set_value start_limit_burst c line key tokens = number line key tokens rejected >>= λ n.
    burst_of line key tokens n >>= λ b. ok (record c { start_limit_burst = b })
set_value start_limit_interval_sec c line key tokens =
    number line key tokens allowed >>= λ n. ok (record c { start_limit_interval_sec = n })
set_value timeout_start_sec c line key tokens =
    number line key tokens allowed >>= λ n. ok (record c { timeout_start_sec = n })
set_value timeout_stop_sec c line key tokens =
    number line key tokens allowed >>= λ n. ok (record c { timeout_stop_sec = n })
set_value health_interval_sec c line key tokens =
    number line key tokens rejected >>= λ n. ok (record c { health_interval_sec = n })
set_value health_timeout_sec c line key tokens =
    number line key tokens rejected >>= λ n. ok (record c { health_timeout_sec = n })
set_value user c line key tokens = ok (record c { user = join_tokens tokens })
set_value group c line key tokens = ok (record c { group = join_tokens tokens })
set_value no_new_privileges c line key tokens =
    boolean line key tokens >>= λ b. ok (record c { no_new_privileges = b })
set_value health_restart_on_failure c line key tokens =
    boolean line key tokens >>= λ b. ok (record c { health_restart_on_failure = b })
set_value capability_bounding_set c line key tokens =
    caps line key tokens >>= λ cs. ok (record c { capability_bounding_set = some cs })
set_value ambient_capabilities c line key tokens =
    caps line key tokens >>= λ cs. ok (record c { ambient_capabilities = some cs })
set_value environment c line key tokens = environment_of line key tokens >>= λ extra.
    ok (record c { environment = c.environment ++ extra })
set_value environment_file c line key tokens = path_of line key tokens >>= λ o.
    ok (record c { environment_file = Opt.get_or o c.environment_file })
set_value working_directory c line key tokens = path_of line key tokens >>= λ o.
    ok (record c { working_directory = Opt.get_or o c.working_directory })
set_value socket_activate c line key tokens =
    path_of line key tokens >>= λ o. ok (record c { socket_activate = or_else o c.socket_activate })
set_value idle_timeout_sec c line key tokens =
    number line key tokens allowed >>= λ n. ok (record c { idle_timeout_sec = n })
set_value sockets c line key tokens =
    path_of line key tokens >>= λ o. ok (record c { sockets = add_path o c.sockets })
set_value needs_socket c line key tokens =
    path_of line key tokens >>= λ o. ok (record c { needs_socket = add_path o c.needs_socket })
set_value tty_path c line key tokens =
    path_of line key tokens >>= λ o. ok (record c { tty_path = or_else o c.tty_path })
set_value tty_reset c line key tokens =
    boolean line key tokens >>= λ b. ok (record c { tty_reset = b })
set_value pid_file c line key tokens =
    path_of line key tokens >>= λ o. ok (record c { pid_file = or_else o c.pid_file })
set_value cgroup_memory_max c line key tokens =
    size line key (join_tokens tokens) >>= λ v. ok (record c { cgroup_memory_max = some v })
set_value cgroup_memory_high c line key tokens =
    size line key (join_tokens tokens) >>= λ v. ok (record c { cgroup_memory_high = some v })
set_value cgroup_cpu_max c line key tokens =
    let text = join_tokens tokens in
    elim (parse_cpu_quota text) [
      | none ↦ err (invalid_value line key text (said (codes "expected '50%' or 'quota period'")))
      | some q ↦ ok (record c { cgroup_cpu_max = some q })
    ]
set_value cgroup_tasks_max c line key tokens =
    number line key tokens rejected >>= λ n. ok (record c { cgroup_tasks_max = some n })

unfoldable pub declared_type : ℕ → Text → List Text → Result ParseError UnitType
declared_type line key tokens =
    let declared = join_tokens tokens in
    if text_eq declared (codes "service")
    then ok service
    else if text_eq declared (codes "target")
    then ok target
    else err (invalid_value line key declared (said (codes "expected 'service' or 'target'")))

-- The lines that the check across directives reports.
unfoldable pub noted : Setting → ℕ → Parser → Parser
noted service_type line p = record p { service_type_line = some line }
noted restart line p = record p { restart_line = some line }
noted _ line p = p

unfoldable pub apply_directive :
    Directive → Parser → ℕ → Text → List Text → Result ParseError Parser
unfolding set_value declared_type noted
apply_directive unit_type p line key tokens =
    declared_type line key tokens >>= λ t. ok (record p { declared_unit_type = some t })
apply_directive (setting s) p line key tokens =
    set_value s p.cfg line key tokens >>= λ c. ok (record (noted s line p) { cfg = c })
