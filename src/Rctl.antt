-- ===== src/Rctl.antt =====
-- crates/rctl/src/parse.rs: from the arguments of rctl to a request, or the reading of the log file.
use rinit.Prelude.{
  ℕ, zero, suc, ◌+◌, ◌-◌, ◌*◌, ◌/◌, ◌%◌, ◌^◌, ◌≤◌, ◌<◌, min, max, ◌≡◌, refl, sym, ap, ◌∙◌, ◌≢◌, ◌↔◌,
  ◌⊎◌, inl, inr, Bool, true, false, not, ◌&&◌, ◌||◌, Option, none, some, List, [], ◌∷◌, ◌++◌, map,
  Memᴰ, arith, ltb, leb, ◌==◌, ==_iff, if◌then◌else◌, ltb→lt, lt→ltb, leb→le, Bool-cases,
  Option-cases, length, get_elem?, take, drop, length-append, length-drop, take-append, drop-append,
  List-cases, All, All-append, All-drop, Text, codes, text_eq, text_eq_iff, Result, ok, err, ◌>>=◌,
  ◌>>◌, Result-cases,
}
use rinit.Prelude.Word.{u32_max}
use rinit.Prelude.Slices.{strip_prefix}
use rinit.Prelude.Splits.{is_empty_text}
use rinit.Prelude.Decimal.{parse_word}
use rinit.Unit.Name.{UnitName, NameError}
use rinit.Unit.Name.{parse as parse_name}
use rinit.Control.Codes.{StatusFormat, ListFormat, status_format_named, list_format_named}
use rinit.Control.Requests.{
  Request, list_formatted, status_formatted, start, stop, restart, reset_failed, log, reload,
  reboot, poweroff,
}
use mathlib.Core.Option as Opt
pub mod Options
pub mod Commands
pub mod Words
mod Samples

abbrev pub default_status_tail : ℕ
default_status_tail = 10

abbrev pub default_log_file : Text
default_log_file = codes "/var/log/rinit/log"

pub record FileLog : Type 0 where
  pub path : Text
  pub unit : Option UnitName
  pub tail : ℕ

pub data Parsed : Type 0 where
  help version : Parsed
  request : Request → Parsed
  file_log : FileLog → Parsed

-- The messages of usage errors, with the text that they show.
pub data UsageError : Type 0 where
  no_command needs_unit : UsageError
  unknown_command extra_argument unexpected_argument unknown_option needs_value : Text → UsageError
  bad_tail bad_list_format bad_status_format : Text → UsageError
  bad_unit : NameError → UsageError

unfoldable pub parse_tail : Text → Result UsageError ℕ
parse_tail value = elim (parse_word u32_max value) [ none ↦ err (bad_tail value) | some n ↦ ok n ]

unit_of : Result NameError UnitName → Result UsageError UnitName
unit_of (ok u) = ok u
unit_of (err e) = err (bad_unit e)

unfoldable pub parse_unit : Text → Result UsageError UnitName
unfolding unit_of
parse_unit value = unit_of (parse_name value)

unfoldable pub required_unit : List Text → Result UsageError UnitName
unfolding parse_unit
required_unit [] = err needs_unit
required_unit (unit ∷ []) = parse_unit unit
required_unit (_ ∷ extra ∷ _) = err (extra_argument extra)

unfoldable pub ensure_no_arguments : List Text → Result UsageError (Unit {0})
ensure_no_arguments [] = ok tt
ensure_no_arguments (extra ∷ _) = err (unexpected_argument extra)

unfoldable pub parse_list_format : Text → Result UsageError ListFormat
parse_list_format value = elim (list_format_named value) [
  | none ↦ err (bad_list_format value)
  | some f ↦ ok f
]

unfoldable pub parse_status_format : Text → Result UsageError StatusFormat
parse_status_format value = elim (status_format_named value) [
  | none ↦ err (bad_status_format value)
  | some f ↦ ok f
]
