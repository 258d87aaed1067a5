-- ===== src/Rctl/Options.antt =====
-- crates/rctl/src/parse.rs: the options of `list`, `status` and `log`.
use rinit.Prelude.{
  ℕ, Bool, true, false, Option, none, some, List, [], ◌∷◌, ◌==◌, if◌then◌else◌, Text, codes,
  text_eq, Result, ok, err, ◌>>=◌,
}
use rinit.Prelude.Slices.{strip_prefix}
use rinit.Prelude.Splits.{is_empty_text}
use rinit.Unit.Name.{UnitName}
use rinit.Control.Codes.{StatusFormat, ListFormat}
use rinit.Control.Requests.{Request, status_formatted, log}
use mathlib.Core.Option as Opt
use rinit.Rctl.{
  default_status_tail, default_log_file, Parsed, request, file_log, UsageError, extra_argument,
  unexpected_argument, unknown_option, needs_value, parse_tail, parse_unit, parse_list_format,
  parse_status_format,
}

abbrev pub is_option : Text → Bool
is_option [] = false
is_option (c ∷ _) = c == b'-'

-- What the loops take an argument for: an option with its value behind `=` or in the next argument,
-- a presentation, a file, another option, or a word.
pub data Arg (F : Type 0) : Type 0 where
  tail_is format_is file_is : Text → Arg F
  tail_next format_next file_default : Arg F
  presents : F → Arg F
  other_option word : Arg F

-- Whether the last argument waits for its value.
pub data Wait : Type 0 where
  ready for_tail for_format : Wait

-- The tests of `parse_list`, `parse_status` and `parse_log`, each in its order.
unfoldable pub list_arg : Text → Arg ListFormat
unfolding strip_prefix
list_arg arg = elim (strip_prefix (codes "--format=") arg) [
  | some value ↦ format_is value
  | none ↦
      if text_eq arg (codes "--format")
      then format_next
      else if text_eq arg (codes "--table")
      then presents ListFormat.table
      else if text_eq arg (codes "--plain")
      then presents ListFormat.plain
      else if text_eq arg (codes "--short")
      then presents ListFormat.short
      else if text_eq arg (codes "--json")
      then presents ListFormat.json
      else word
]

unfoldable pub status_arg : Text → Arg StatusFormat
status_arg arg = elim (strip_prefix (codes "--tail=") arg) [
  | some value ↦ tail_is value
  | none ↦
      if text_eq arg (codes "--tail")
      then tail_next
      else elim (strip_prefix (codes "--format=") arg) [
        | some value ↦ format_is value
        | none ↦
            if text_eq arg (codes "--format")
            then format_next
            else if text_eq arg (codes "--json")
            then presents StatusFormat.json
            else if text_eq arg (codes "--plain")
            then presents StatusFormat.plain
            else if text_eq arg (codes "--short")
            then presents StatusFormat.short
            else if text_eq arg (codes "--card")
            then presents StatusFormat.card
            else if is_option arg
            then other_option
            else word
      ]
]

unfoldable pub log_arg : Text → Arg (Unit {0})
log_arg arg = elim (strip_prefix (codes "--tail=") arg) [
  | some value ↦ tail_is value
  | none ↦
      if text_eq arg (codes "--tail")
      then tail_next
      else elim (strip_prefix (codes "--file=") arg) [
        | some value ↦ file_is value
        | none ↦
            if text_eq arg (codes "--file")
            then file_default
            else if is_option arg
            then other_option
            else word
      ]
]

-- The unit of a loop, which an argument sets once.
unfoldable pub set_unit : Option UnitName → Text → Result UsageError (Option UnitName)
unfolding parse_unit
set_unit none arg = parse_unit arg >>= λ u. ok (some u)
set_unit (some _) arg = err (extra_argument arg)

-- The loop of `parse_list`; the flag tells whether `--format` waits for its value.
unfoldable pub list_from : Bool → ListFormat → List Text → Result UsageError ListFormat
unfolding list_arg parse_list_format
list_from false f [] = ok f
list_from true f [] = err (needs_value (codes "--format"))
list_from true f (value ∷ rest) = parse_list_format value >>= λ g. list_from false g rest
list_from false f (arg ∷ rest) = elim (list_arg arg) [
  | format_is value ↦ parse_list_format value >>= λ g. list_from false g rest
  | format_next ↦ list_from true f rest
  | presents g ↦ list_from false g rest
  | _ ↦ err (unexpected_argument arg)
]

unfoldable pub parse_list : List Text → Result UsageError ListFormat
unfolding list_from
parse_list rest = list_from false ListFormat.table rest

-- The variables of `parse_status`.
pub record StatusView : Type 0 where
  pub unit : Option UnitName
  pub tail : Option ℕ
  pub format : StatusFormat

unfoldable pub status_from : Wait → StatusView → List Text → Result UsageError StatusView
unfolding status_arg parse_status_format parse_tail set_unit
status_from ready v [] = ok v
status_from for_tail v [] = err (needs_value (codes "--tail"))
status_from for_format v [] = err (needs_value (codes "--format"))
status_from for_tail v (value ∷ rest) =
    parse_tail value >>= λ n. status_from ready (record v { tail = some n }) rest
status_from for_format v (value ∷ rest) =
    parse_status_format value >>= λ f. status_from ready (record v { format = f }) rest
status_from ready v (arg ∷ rest) = elim (status_arg arg) [
  | tail_is value ↦ parse_tail value >>= λ n. status_from ready (record v { tail = some n }) rest
  | tail_next ↦ status_from for_tail v rest
  | format_is value ↦
      parse_status_format value >>= λ f. status_from ready (record v { format = f }) rest
  | format_next ↦ status_from for_format v rest
  | presents f ↦ status_from ready (record v { format = f }) rest
  | other_option ↦ err (unknown_option arg)
  | _ ↦ set_unit v.unit arg >>= λ u. status_from ready (record v { unit = u }) rest
]

unfoldable pub default_tail : Option UnitName → StatusFormat → ℕ
default_tail (some _) StatusFormat.systemd = default_status_tail
default_tail _ _ = 0

abbrev status_request : StatusView → Request
status_request v =
    status_formatted v.unit (Opt.get_or v.tail (default_tail v.unit v.format)) v.format

unfoldable pub parse_status : List Text → Result UsageError Request
unfolding status_from default_tail
parse_status rest =
    status_from ready (record { unit = none; tail = none; format = StatusFormat.systemd }) rest
    >>= λ v. ok (status_request v)

-- The variables of `parse_log`.
pub record LogView : Type 0 where
  pub unit : Option UnitName
  pub tail : ℕ
  pub file : Option Text

unfoldable pub file_named : Text → Result UsageError Text
file_named value = if is_empty_text value then err (needs_value (codes "--file")) else ok value

-- The loop of `parse_log`; the flag tells whether `--tail` waits for its value.
unfoldable pub log_from : Bool → LogView → List Text → Result UsageError LogView
unfolding log_arg parse_tail set_unit file_named
log_from false v [] = ok v
log_from true v [] = err (needs_value (codes "--tail"))
log_from true v (value ∷ rest) =
    parse_tail value >>= λ n. log_from false (record v { tail = n }) rest
log_from false v (arg ∷ rest) = elim (log_arg arg) [
  | tail_is value ↦ parse_tail value >>= λ n. log_from false (record v { tail = n }) rest
  | tail_next ↦ log_from true v rest
  | file_is value ↦ file_named value >>= λ path. log_from false (record v { file = some path }) rest
  | file_default ↦ log_from false (record v { file = some default_log_file }) rest
  | other_option ↦ err (unknown_option arg)
  | _ ↦ set_unit v.unit arg >>= λ u. log_from false (record v { unit = u }) rest
]

logged : LogView → Parsed
logged v = elim v.file [
  | some path ↦ file_log (record { path = path; unit = v.unit; tail = v.tail })
  | none ↦ request (log v.unit v.tail)
]

unfoldable pub parse_log : List Text → Result UsageError Parsed
unfolding log_from logged
parse_log rest =
    log_from false (record { unit = none; tail = 0; file = none }) rest >>= λ v. ok (logged v)
