-- ===== src/Rctl/Words.antt =====
-- crates/rctl/src/parse.rs: the arguments that stand for a request, for `command_line`.
use rinit.Prelude.{
  ℕ, ◌≤◌, ◌≡◌, refl, false, Option, none, some, List, [], ◌∷◌, ◌++◌, arith, Text, codes, text_eq,
  ok,
}
use rinit.Prelude.Word.{u32_max}
use rinit.Prelude.Slices.{strip_prefix}
use rinit.Prelude.Splits.{is_empty_text}
use rinit.Unit.Name.{UnitName}
use rinit.Control.Codes.{StatusFormat, ListFormat, status_format_named, list_format_named}
use rinit.Control.Requests.{
  Request, list_formatted, status_formatted, start, stop, restart, reset_failed, log, reload,
  reboot, poweroff,
}
use rinit.Rctl.{
  Parsed, help, version, request, file_log, parse_tail, parse_unit, required_unit,
  ensure_no_arguments, parse_list_format, parse_status_format,
}
use rinit.Prelude.Printed.{decimal, parse_word-decimal}
use rinit.Unit.Name.Canonical.{IsCanonical, canonical_iff_parse}
use rinit.Rctl.Options.{
  file_named, is_option, word, ready, status_arg, log_arg, list_arg, set_unit, list_from,
  parse_list, status_from, parse_status, log_from, parse_log,
}
use rinit.Rctl.Commands.{word_in, run_word, command_line}

abbrev status_format_text : StatusFormat → Text
status_format_text StatusFormat.systemd = codes "systemd"
status_format_text StatusFormat.plain = codes "plain"
status_format_text StatusFormat.short = codes "short"
status_format_text StatusFormat.json = codes "json"
status_format_text StatusFormat.card = codes "card"

abbrev list_format_text : ListFormat → Text
list_format_text ListFormat.table = codes "table"
list_format_text ListFormat.plain = codes "plain"
list_format_text ListFormat.short = codes "short"
list_format_text ListFormat.json = codes "json"

abbrev unit_words : Option UnitName → List Text
unit_words none = []
unit_words (some u) = u.canonical ∷ []

abbrev tail_word : ℕ → Text
tail_word n = codes "--tail=" ++ decimal n

-- Arguments that ask for this. The requests `list` and `status` of older clients have none.
unfoldable pub words_of : Parsed → List Text
words_of help = codes "--help" ∷ []
words_of version = codes "--version" ∷ []
words_of (request Request.list) = []
words_of (request (Request.status u n)) = []
words_of (request (list_formatted f)) =
    codes "list" ∷ (codes "--format=" ++ list_format_text f) ∷ []
words_of (request (status_formatted u n f)) =
    codes "status" ∷ tail_word n ∷ (codes "--format=" ++ status_format_text f) ∷ unit_words u
words_of (request (start u)) = codes "start" ∷ u.canonical ∷ []
words_of (request (stop u)) = codes "stop" ∷ u.canonical ∷ []
words_of (request (restart u)) = codes "restart" ∷ u.canonical ∷ []
words_of (request (reset_failed u)) = codes "reset-failed" ∷ u.canonical ∷ []
words_of (request (log u n)) = codes "log" ∷ tail_word n ∷ unit_words u
words_of (request reload) = codes "reload" ∷ []
words_of (request reboot) = codes "reboot" ∷ []
words_of (request poweroff) = codes "poweroff" ∷ []
words_of (file_log l) =
    codes "log" ∷ tail_word l.tail ∷ (codes "--file=" ++ l.path) ∷ unit_words l.unit

-- A unit beside options must not look like one itself.
abbrev pub NamesUnit : Option UnitName → Type 0
NamesUnit none = Unit
NamesUnit (some u) = IsCanonical u × (is_option u.canonical ≡ false)

-- What can be asked for by words: canonical names, counts within a u32 and a path.
unfoldable pub IsSpoken : Parsed → Type 0
IsSpoken help = Unit
IsSpoken version = Unit
IsSpoken (request Request.list) = ⊥
IsSpoken (request (Request.status u n)) = ⊥
IsSpoken (request (list_formatted f)) = Unit
IsSpoken (request (status_formatted u n f)) = NamesUnit u × (n ≤ u32_max)
IsSpoken (request (start u)) = IsCanonical u
IsSpoken (request (stop u)) = IsCanonical u
IsSpoken (request (restart u)) = IsCanonical u
IsSpoken (request (reset_failed u)) = IsCanonical u
IsSpoken (request (log u n)) = NamesUnit u × (n ≤ u32_max)
IsSpoken (request reload) = Unit
IsSpoken (request reboot) = Unit
IsSpoken (request poweroff) = Unit
IsSpoken (file_log l) = NamesUnit l.unit × (l.tail ≤ u32_max) × (is_empty_text l.path ≡ false)

parse_tail-decimal : (n : ℕ) → n ≤ u32_max → parse_tail (decimal n) ≡ ok n
unfolding parse_tail
parse_tail-decimal n h = rw (parse_word-decimal u32_max n h, parse_tail)

parse_unit-canonical : (u : UnitName) → IsCanonical u → parse_unit u.canonical ≡ ok u
unfolding parse_unit
parse_unit-canonical u c = rw ((canonical_iff_parse u).0 c, parse_unit)

status_arg-word : (s : Text) → is_option s ≡ false → status_arg s ≡ word
unfolding status_arg strip_prefix text_eq
status_arg-word [] h = refl
status_arg-word (c ∷ s) h = ground arith

log_arg-word : (s : Text) → is_option s ≡ false → log_arg s ≡ word
unfolding log_arg strip_prefix text_eq
log_arg-word [] h = refl
log_arg-word (c ∷ s) h = ground arith

-- The end of the loops: the unit's name, if there is one.
set_unit-canonical : (u : UnitName) → IsCanonical u → set_unit none u.canonical ≡ ok (some u)
unfolding set_unit
set_unit-canonical u c = rw (parse_unit-canonical u c)

status_from-unit :
    (t : Option ℕ) (f : StatusFormat) (u : Option UnitName)
    → NamesUnit u
    → status_from ready (record { unit = none; tail = t; format = f }) (unit_words u)
      ≡ ok (record { unit = u; tail = t; format = f })
unfolding status_from
status_from-unit t f none h = refl
status_from-unit t f (some u) h =
    rw (status_arg-word u.canonical h.1, status_from) (rw (set_unit-canonical u h.0))

log_from-unit :
    (t : ℕ) (o : Option Text) (u : Option UnitName)
    → NamesUnit u
    → log_from false (record { unit = none; tail = t; file = o }) (unit_words u)
      ≡ ok (record { unit = u; tail = t; file = o })
unfolding log_from
log_from-unit t o none h = refl
log_from-unit t o (some u) h =
    rw (log_arg-word u.canonical h.1, log_from) (rw (set_unit-canonical u h.0))

parse_status_format-text : (f : StatusFormat) → parse_status_format (status_format_text f) ≡ ok f
unfolding parse_status_format status_format_named text_eq
parse_status_format-text f = ground arith

parse_list_format-text : (f : ListFormat) → parse_list_format (list_format_text f) ≡ ok f
unfolding parse_list_format list_format_named text_eq
parse_list_format-text f = ground arith

parse_list-text :
    (f : ListFormat) → parse_list ((codes "--format=" ++ list_format_text f) ∷ []) ≡ ok f
unfolding parse_list list_from list_arg strip_prefix
parse_list-text f = rw (parse_list_format-text f)

status_from-words :
    (t : ℕ) (f : StatusFormat) (u : Option UnitName)
    → NamesUnit u
    → t ≤ u32_max
    → parse_status (tail_word t ∷ (codes "--format=" ++ status_format_text f) ∷ unit_words u)
      ≡ ok (status_formatted u t f)
unfolding parse_status status_from status_arg strip_prefix text_eq
status_from-words t f u h i =
    rw (parse_tail-decimal t i)
      (rw (parse_status_format-text f) (rw (status_from-unit (some t) f u h)))

log_from-words :
    (t : ℕ) (u : Option UnitName)
    → NamesUnit u
    → t ≤ u32_max
    → parse_log (tail_word t ∷ unit_words u) ≡ ok (request (log u t))
unfolding parse_log log_from log_arg strip_prefix
log_from-words t u h i = rw (parse_tail-decimal t i) (rw (log_from-unit t none u h))

file_from-words :
    (t : ℕ) (path : Text) (u : Option UnitName)
    → NamesUnit u
    → t ≤ u32_max
    → is_empty_text path ≡ false
    → parse_log (tail_word t ∷ (codes "--file=" ++ path) ∷ unit_words u)
      ≡ ok (file_log (record { path = path; unit = u; tail = t }))
unfolding parse_log log_from log_arg strip_prefix file_named text_eq
file_from-words t path u h i j =
    rw (parse_tail-decimal t i) (rw (j) (rw (log_from-unit t (some path) u h)))

required_unit-canonical : (u : UnitName) → IsCanonical u → required_unit (u.canonical ∷ []) ≡ ok u
unfolding required_unit
required_unit-canonical u c = parse_unit-canonical u c

-- Whatever can be asked for by words is what the words ask for: a request with a canonical unit and
-- a count within a u32, `--help`, `--version`, or the reading of a log file. For `status` and `log`
-- the name of the unit must not begin with a dash.
pub command_line-words_of : (p : Parsed) → IsSpoken p → command_line (words_of p) ≡ ok p
unfolding command_line words_of IsSpoken word_in run_word text_eq ensure_no_arguments
command_line-words_of help h = refl
command_line-words_of version h = refl
command_line-words_of (request Request.list) h = absurd h
command_line-words_of (request (Request.status u n)) h = absurd h
command_line-words_of (request (list_formatted f)) h = rw (parse_list-text f)
command_line-words_of (request (status_formatted u n f)) h = rw (status_from-words n f u h.0 h.1)
command_line-words_of (request (start u)) h = rw (required_unit-canonical u h)
command_line-words_of (request (stop u)) h = rw (required_unit-canonical u h)
command_line-words_of (request (restart u)) h = rw (required_unit-canonical u h)
command_line-words_of (request (reset_failed u)) h = rw (required_unit-canonical u h)
command_line-words_of (request (log u n)) h = log_from-words n u h.0 h.1
command_line-words_of (request reload) h = refl
command_line-words_of (request reboot) h = refl
command_line-words_of (request poweroff) h = refl
command_line-words_of (file_log l) h = file_from-words l.tail l.path l.unit h.0 h.1 h.2
