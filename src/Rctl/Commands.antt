-- ===== src/Rctl/Commands.antt =====
-- crates/rctl/src/parse.rs: the commands.
use rinit.Prelude.{List, [], ◌∷◌, if◌then◌else◌, Text, codes, text_eq, Result, ok, err, ◌>>=◌}
use rinit.Control.Requests.{
  list_formatted, start, stop, restart, reset_failed, reload, reboot, poweroff,
}
use rinit.Rctl.{
  Parsed, help, version, request, UsageError, no_command, unknown_command, required_unit,
  ensure_no_arguments,
}
use rinit.Rctl.Options.{parse_list, parse_status, parse_log}

-- The commands by name.
pub data Word : Type 0 where
  to_help to_version to_list to_status to_log to_start to_stop to_restart : Word
  to_reset_failed to_reload to_reboot to_poweroff unknown : Word

abbrev word_table : List (Text × Word)
word_table =
    (codes "-h", to_help)
    ∷ (codes "--help", to_help)
    ∷ (codes "-V", to_version)
    ∷ (codes "--version", to_version)
    ∷ (codes "list", to_list)
    ∷ (codes "status", to_status)
    ∷ (codes "log", to_log)
    ∷ (codes "start", to_start)
    ∷ (codes "stop", to_stop)
    ∷ (codes "restart", to_restart)
    ∷ (codes "reset-failed", to_reset_failed)
    ∷ (codes "reload", to_reload)
    ∷ (codes "reboot", to_reboot)
    ∷ (codes "poweroff", to_poweroff)
    ∷ []

unfoldable pub word_in : Text → List (Text × Word) → Word
word_in text [] = unknown
word_in text ((t, w) ∷ rows) = if text_eq t text then w else word_in text rows

unfoldable pub run_word : Word → Text → List Text → Result UsageError Parsed
unfolding parse_list parse_status parse_log required_unit ensure_no_arguments
run_word to_help command rest = ok help
run_word to_version command rest = ok version
run_word to_list command rest = parse_list rest >>= λ f. ok (request (list_formatted f))
run_word to_status command rest = parse_status rest >>= λ r. ok (request r)
run_word to_log command rest = parse_log rest
run_word to_start command rest = required_unit rest >>= λ u. ok (request (start u))
run_word to_stop command rest = required_unit rest >>= λ u. ok (request (stop u))
run_word to_restart command rest = required_unit rest >>= λ u. ok (request (restart u))
run_word to_reset_failed command rest = required_unit rest >>= λ u. ok (request (reset_failed u))
run_word to_reload command rest = ensure_no_arguments rest >>= λ _. ok (request reload)
run_word to_reboot command rest = ensure_no_arguments rest >>= λ _. ok (request reboot)
run_word to_poweroff command rest = ensure_no_arguments rest >>= λ _. ok (request poweroff)
run_word unknown command rest = err (unknown_command command)

unfoldable pub command_line : List Text → Result UsageError Parsed
unfolding word_in run_word
command_line [] = err no_command
command_line (command ∷ rest) = run_word (word_in command word_table) command rest
