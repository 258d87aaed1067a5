-- ===== src/Control/Codes.antt =====
-- crates/rinit-core/src/control.rs: the codes on the wire, and the errors of the protocol.
use rinit.Prelude.{Text, codes, text_eq}
use rinit.Prelude.{ℕ, ◌<◌, ◌≡◌, Option, none, some, arith, ◌==◌, if◌then◌else◌}

pub data StatusFormat : Type 0 where
  systemd plain short json card : StatusFormat

unfoldable pub status_format_byte : StatusFormat → ℕ
status_format_byte StatusFormat.systemd = 0
status_format_byte StatusFormat.plain = 1
status_format_byte StatusFormat.short = 2
status_format_byte StatusFormat.json = 3
status_format_byte StatusFormat.card = 4

unfoldable pub status_format_from_byte : ℕ → Option StatusFormat
status_format_from_byte b =
    if b == 0
    then some StatusFormat.systemd
    else if b == 1
    then some StatusFormat.plain
    else if b == 2
    then some StatusFormat.short
    else if b == 3
    then some StatusFormat.json
    else if b == 4
    then some StatusFormat.card
    else none

unfoldable pub status_format_named : Text → Option StatusFormat
status_format_named value =
    if text_eq value (codes "systemd")
    then some StatusFormat.systemd
    else if text_eq value (codes "plain")
    then some StatusFormat.plain
    else if text_eq value (codes "short")
    then some StatusFormat.short
    else if text_eq value (codes "json")
    then some StatusFormat.json
    else if text_eq value (codes "card")
    then some StatusFormat.card
    else none

pub data ListFormat : Type 0 where
  table plain short json : ListFormat

unfoldable pub list_format_byte : ListFormat → ℕ
list_format_byte ListFormat.table = 0
list_format_byte ListFormat.plain = 1
list_format_byte ListFormat.short = 2
list_format_byte ListFormat.json = 3

unfoldable pub list_format_from_byte : ℕ → Option ListFormat
list_format_from_byte b =
    if b == 0
    then some ListFormat.table
    else if b == 1
    then some ListFormat.plain
    else if b == 2
    then some ListFormat.short
    else if b == 3
    then some ListFormat.json
    else none

unfoldable pub list_format_named : Text → Option ListFormat
list_format_named value =
    if text_eq value (codes "table")
    then some ListFormat.table
    else if text_eq value (codes "plain")
    then some ListFormat.plain
    else if text_eq value (codes "short")
    then some ListFormat.short
    else if text_eq value (codes "json")
    then some ListFormat.json
    else none

pub data Command : Type 0 where
  list status start stop restart reset_failed log reload status_formatted list_formatted reboot
        poweroff :
      Command

unfoldable pub command_byte : Command → ℕ
command_byte Command.list = 1
command_byte Command.status = 2
command_byte Command.start = 3
command_byte Command.stop = 4
command_byte Command.restart = 5
command_byte Command.reset_failed = 6
command_byte Command.log = 7
command_byte Command.reload = 8
command_byte Command.status_formatted = 9
command_byte Command.list_formatted = 10
command_byte Command.reboot = 11
command_byte Command.poweroff = 12

unfoldable pub command_from_byte : ℕ → Option Command
command_from_byte b =
    if b == 1
    then some Command.list
    else if b == 2
    then some Command.status
    else if b == 3
    then some Command.start
    else if b == 4
    then some Command.stop
    else if b == 5
    then some Command.restart
    else if b == 6
    then some Command.reset_failed
    else if b == 7
    then some Command.log
    else if b == 8
    then some Command.reload
    else if b == 9
    then some Command.status_formatted
    else if b == 10
    then some Command.list_formatted
    else if b == 11
    then some Command.reboot
    else if b == 12
    then some Command.poweroff
    else none

pub data Status : Type 0 where
  ok error version_mismatch unknown_command no_such_unit conflict bad_request : Status

unfoldable pub status_byte : Status → ℕ
status_byte Status.ok = 0
status_byte Status.error = 1
status_byte Status.version_mismatch = 2
status_byte Status.unknown_command = 3
status_byte Status.no_such_unit = 4
status_byte Status.conflict = 5
status_byte Status.bad_request = 6

unfoldable pub status_from_byte : ℕ → Option Status
status_from_byte b =
    if b == 0
    then some Status.ok
    else if b == 1
    then some Status.error
    else if b == 2
    then some Status.version_mismatch
    else if b == 3
    then some Status.unknown_command
    else if b == 4
    then some Status.no_such_unit
    else if b == 5
    then some Status.conflict
    else if b == 6
    then some Status.bad_request
    else none

unfoldable pub exit_code : Status → ℕ
exit_code Status.ok = 0
exit_code Status.no_such_unit = 3
exit_code Status.conflict = 4
exit_code Status.error = 1
exit_code Status.version_mismatch = 1
exit_code Status.unknown_command = 1
exit_code Status.bad_request = 1

pub data ProtocolError : Type 0 where
  too_short : ProtocolError
  too_long : ℕ → ProtocolError
  wrong_version : ℕ → ℕ → ProtocolError
  unknown_code : ℕ → ProtocolError
  bad_unit_name bad_text trailing_bytes : ProtocolError

pub status_format_from_byte-status_format_byte :
    (c : StatusFormat) → status_format_from_byte (status_format_byte c) ≡ some c
unfolding status_format_from_byte status_format_byte
status_format_from_byte-status_format_byte c = ground arith

pub status_format_byte_lt : (c : StatusFormat) → status_format_byte c < 256
unfolding status_format_byte
status_format_byte_lt c = ground arith

pub list_format_from_byte-list_format_byte :
    (c : ListFormat) → list_format_from_byte (list_format_byte c) ≡ some c
unfolding list_format_from_byte list_format_byte
list_format_from_byte-list_format_byte c = ground arith

pub list_format_byte_lt : (c : ListFormat) → list_format_byte c < 256
unfolding list_format_byte
list_format_byte_lt c = ground arith

pub command_from_byte-command_byte : (c : Command) → command_from_byte (command_byte c) ≡ some c
unfolding command_from_byte command_byte
command_from_byte-command_byte c = ground arith

pub command_byte_lt : (c : Command) → command_byte c < 256
unfolding command_byte
command_byte_lt c = ground arith

pub status_from_byte-status_byte : (c : Status) → status_from_byte (status_byte c) ≡ some c
unfolding status_from_byte status_byte
status_from_byte-status_byte c = ground arith

pub status_byte_lt : (c : Status) → status_byte c < 256
unfolding status_byte
status_byte_lt c = ground arith
