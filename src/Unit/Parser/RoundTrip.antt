-- ===== src/Unit/Parser/RoundTrip.antt =====
-- crates/rinit-core/src/unit/parser.rs: a file with the arguments of `ExecStart=` in quotes, for `parse`.
use rinit.Prelude.{
  ℕ, ◌≡◌, refl, ap, ◌∙◌, false, some, List, [], ◌∷◌, arith, Text, codes, text_eq, ok, ◌>>=◌,
}
use rinit.Prelude.Slices.{split_once, all, trim_start, trim_by}
use rinit.Prelude.Splits.{is_empty_text}
use rinit.Unit.Name.{UnitName, is_whitespace}
use rinit.Unit.Config.{UnitConfig, new_config}
use rinit.Unit.Parser.{Parser, Section, new_parser, service_section}
use rinit.Unit.Parser.Lexing.{section_header, split_entry}
use rinit.Unit.Parser.Running.{
  has_text, has_seen, dispatch, check_type, check_config, is_oneshot, entry_of, entry, in_section,
  read_header, read_line, read_lines, finish, parse,
}
use rinit.Unit.Parser.Directives.{directive_of, find_key, apply_directive, set_value, noted}
use rinit.Unit.Parser.Values.{command}
use rinit.Unit.Config.{is_empty_command}
use rinit.Unit.Parser.{section_text}
use rinit.Unit.Parser.Quoting.{quote_all, tokenize-quote_all}
use rinit.Unit.Parser.ServiceFile.{
  exec_start_line, service_file, logical_lines-service_file, exec_start_line_trimmed,
  split_entry-exec_start_line,
}

-- The parser behind the header.
abbrev in_service : UnitName → Parser
in_service name = record (new_parser name) { current_section = some service_section }

-- The parser behind both lines.
abbrev with_arguments : UnitName → List Text → Parser
with_arguments name ts = record (in_service name) {
  seen = (codes "Service", codes "ExecStart") ∷ [];
  cfg = record (new_config name) { exec_start = record { argv = ts } };
}

command_of_tokens :
    (ts : List Text) → all is_empty_text ts ≡ false → command ts ≡ record { argv = ts }
unfolding command
command_of_tokens ts h = rw (h)

entry_of-quote_all :
    (name : UnitName) (ts : List Text)
    → all is_empty_text ts ≡ false
    → entry_of (in_service name) service_section 2 (codes "ExecStart", quote_all ts)
      ≡ ok (with_arguments name ts)
unfolding entry_of has_text has_seen dispatch directive_of find_key apply_directive set_value noted
    section_text text_eq new_parser new_config
entry_of-quote_all name ts h = rw (tokenize-quote_all ts 2) (rw (command_of_tokens ts h))

entry_split :
    (p : Parser) (sec : Section) (line : ℕ) (text : Text) {kv : Text × Text}
    → split_entry text ≡ some kv
    → entry p sec line text ≡ entry_of p sec line kv
unfolding entry
entry_split p sec line text h = rw (h, entry)

read_line-exec_start_line :
    (name : UnitName) (t : Text) (ts : List Text)
    → all is_empty_text (t ∷ ts) ≡ false
    → read_line (in_service name) 2 (exec_start_line (t ∷ ts)) ≡ ok (with_arguments name (t ∷ ts))
unfolding read_line exec_start_line section_header read_header in_section new_parser
read_line-exec_start_line name t ts h =
    entry_split (in_service name) service_section 2 (exec_start_line (t ∷ ts))
      (split_entry-exec_start_line t ts)
    ∙ entry_of-quote_all name (t ∷ ts) h

check_config-simple :
    (p : Parser) (c : UnitConfig)
    → is_empty_command c.exec_start ≡ false
    → is_oneshot c.service_kind ≡ false
    → check_config p c ≡ ok c
unfolding check_config
check_config-simple p c h i = ground arith

finish-with_arguments :
    (name : UnitName) (t : Text) (ts : List Text)
    → finish (with_arguments name (t ∷ ts))
      ≡ ok (record (new_config name) { exec_start = record { argv = t ∷ ts } })
unfolding finish check_type is_empty_command is_oneshot new_parser new_config
finish-with_arguments name t ts =
    let p = with_arguments name (t ∷ ts) in
    check_config-simple p (record p.cfg { kind = name.ty }) refl refl

-- A file of a service whose only entry is `ExecStart=`, with its arguments in quotes, is read as the
-- new configuration of that name with those arguments for its command, whatever characters they
-- have, unless all of them are empty.
pub parse-service_file :
    (name : UnitName) (t : Text) (ts : List Text)
    → all is_empty_text (t ∷ ts) ≡ false
    → parse name (service_file (t ∷ ts))
      ≡ ok (record (new_config name) { exec_start = record { argv = t ∷ ts } })
unfolding parse read_line read_lines section_header read_header trim_by trim_start is_whitespace
    new_parser new_config split_once exec_start_line is_empty_text text_eq
parse-service_file name t ts h =
    let lines = logical_lines-service_file t ts in
    ap (λ ls. read_lines (new_parser name) ls >>= finish) lines
    ∙ ap (λ r. r >>= (λ q. ok q) >>= finish)
        (ap (read_line (in_service name) 2) (exec_start_line_trimmed t ts)
          ∙ read_line-exec_start_line name t ts h)
    ∙ finish-with_arguments name t ts
