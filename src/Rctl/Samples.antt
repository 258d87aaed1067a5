-- ===== src/Rctl/Samples.antt =====
-- crates/rctl/src/parse.rs: the round trip at a concrete request, and tests.
use rinit.Prelude.{
  ℕ, zero, suc, ◌+◌, ◌-◌, ◌*◌, ◌/◌, ◌%◌, ◌^◌, ◌≤◌, ◌<◌, min, max, ◌≡◌, refl, sym, ap, ◌∙◌, ◌≢◌, ◌↔◌,
  ◌⊎◌, inl, inr, Bool, true, false, not, ◌&&◌, ◌||◌, Option, none, some, List, [], ◌∷◌, ◌++◌, map,
  Memᴰ, arith, ltb, leb, ◌==◌, ==_iff, if◌then◌else◌, ltb→lt, lt→ltb, leb→le, Bool-cases,
  Option-cases, length, get_elem?, take, drop, length-append, length-drop, take-append, drop-append,
  List-cases, All, All-append, All-drop, Text, codes, text_eq, text_eq_iff, Result, ok, err, ◌>>=◌,
  ◌>>◌, Result-cases,
}
use rinit.Unit.Name.{UnitName, service}
use rinit.Unit.Name.Canonical.{canonical_iff_parse}
use rinit.Unit.Name.{parse as parse_name}
use rinit.Control.Codes.{StatusFormat}
use rinit.Control.Requests.{status_formatted}
use rinit.Rctl.{
  request, no_command, needs_unit, unknown_command, extra_argument, unknown_option, needs_value,
  bad_tail,
}
use rinit.Rctl.Commands.{command_line}
use rinit.Rctl.Words.{words_of, IsSpoken, command_line-words_of}

abbrev web : UnitName
web = record { canonical = codes "web.service"; ty = service }

parse_name-web : parse_name web.canonical ≡ ok web
unfolding parse_name rinit.Prelude.Slices.trim_by rinit.Prelude.Slices.trim_start
    rinit.Unit.Name.is_whitespace rinit.Prelude.Slices.strip_suffix
    rinit.Prelude.Slices.strip_prefix
parse_name-web = refl

command_line-words_of_example :
    command_line (words_of (request (status_formatted (some web) 25 StatusFormat.json)))
    ≡ ok (request (status_formatted (some web) 25 StatusFormat.json))
unfolding IsSpoken
command_line-words_of_example =
    command_line-words_of (request (status_formatted (some web) 25 StatusFormat.json))
      (((canonical_iff_parse web).1 parse_name-web, refl), omega arith)

words_of-status :
    words_of (request (status_formatted (some web) 25 StatusFormat.json))
    ≡ codes "status" ∷ codes "--tail=25" ∷ codes "--format=json" ∷ codes "web.service" ∷ []
unfolding words_of rinit.Prelude.Printed.decimal
words_of-status = refl

-- A unit alone is shown with its newest lines, unless a format for machines is asked for.
command_line-status :
    map command_line (
      (codes "status" ∷ codes "web" ∷ [])
      ∷ (codes "status" ∷ codes "--json" ∷ codes "web" ∷ [])
      ∷ (codes "status" ∷ [])
      ∷ [])
    ≡ ok (request (status_formatted (some web) 10 StatusFormat.systemd))
      ∷ ok (request (status_formatted (some web) 0 StatusFormat.json))
      ∷ ok (request (status_formatted none 0 StatusFormat.systemd))
      ∷ []
unfolding command_line text_eq parse_name rinit.Prelude.Slices.trim_by
    rinit.Prelude.Slices.trim_start rinit.Unit.Name.is_whitespace rinit.Prelude.Slices.strip_suffix
command_line-status = refl

command_line-refused :
    map command_line (
      []
      ∷ (codes "start" ∷ [])
      ∷ (codes "boot" ∷ [])
      ∷ (codes "stop" ∷ codes "a" ∷ codes "b" ∷ [])
      ∷ (codes "status" ∷ codes "-a" ∷ [])
      ∷ (codes "log" ∷ codes "--tail" ∷ [])
      ∷ (codes "log" ∷ codes "--tail=x" ∷ [])
      ∷ (codes "log" ∷ codes "--file=" ∷ [])
      ∷ [])
    ≡ err no_command
      ∷ err needs_unit
      ∷ err (unknown_command (codes "boot"))
      ∷ err (extra_argument (codes "b"))
      ∷ err (unknown_option (codes "-a"))
      ∷ err (needs_value (codes "--tail"))
      ∷ err (bad_tail (codes "x"))
      ∷ err (needs_value (codes "--file"))
      ∷ []
unfolding command_line text_eq rinit.Prelude.Decimal.parse_word rinit.Prelude.Splits.is_empty_text
command_line-refused = refl
