-- ===== src/Unit/Parser/Samples.antt =====
-- crates/rinit-core/src/unit/parser.rs: the theorems on the parser at concrete files, and its tests.
use rinit.Prelude.{
  ℕ, zero, suc, ◌+◌, ◌-◌, ◌*◌, ◌/◌, ◌%◌, ◌^◌, ◌≤◌, ◌<◌, min, max, ◌≡◌, refl, sym, ap, ◌∙◌, ◌≢◌, ◌↔◌,
  ◌⊎◌, inl, inr, Bool, true, false, not, ◌&&◌, ◌||◌, Option, none, some, List, [], ◌∷◌, ◌++◌, map,
  Memᴰ, arith, ltb, leb, ◌==◌, ==_iff, if◌then◌else◌, ltb→lt, lt→ltb, leb→le, Bool-cases,
  Option-cases, length, get_elem?, take, drop, length-append, length-drop, take-append, drop-append,
  List-cases, All, All-append, All-drop, Text, codes, text_eq, text_eq_iff, Result, ok, err, ◌>>=◌,
  ◌>>◌, Result-cases,
}
use rinit.Prelude.Slices.{
  split_on, all, strip_suffix, strip_prefix, trim_start, trim_by, split_once,
}
use rinit.Prelude.Decimal.{parse_word, unsigned, digits_from}
use rinit.Prelude.Splits.{lines, trim_end_by, is_empty_text}
use rinit.Unit.Name.{type_eq, is_whitespace, UnitName, service, target}
use rinit.Unit.State.{on_failure}
use rinit.Unit.Config.{
  parse_service_kind, parse_restart_policy, is_empty_command, is_target, UnitConfig, new_config,
}
use rinit.Unit.Parser.{
  ParseError, syntax, unknown_section, unknown_key, duplicate_key, entry_outside_section,
  invalid_value, said, unterminated_quote, missing_exec_start, type_suffix_conflict, expected_entry,
}
use rinit.Unit.Parser.Lexing.{
  section_header, split_entry, join_tokens, comment_prefix, logical_lines, tokenize,
}
use rinit.Unit.Parser.Running.{has_text, parse}
use rinit.Unit.Parser.Directives.{directive_of, apply_directive}
use rinit.Unit.Parser.Values.{number, command}
use rinit.Unit.Parser.{new_parser}
use rinit.Unit.Parser.EnvironmentFile.{parse_environment_file}
use rinit.Unit.Parser.Comments.{tokenize-comment_prefix}
use rinit.Unit.Parser.Contract.{IsContract, parse-IsContract}
use rinit.Unit.Parser.Quoting.{quote_all, tokenize-quote_all}
use rinit.Unit.Parser.ServiceFile.{service_file}
use rinit.Unit.Parser.RoundTrip.{parse-service_file}

abbrev web : UnitName
web = record { canonical = codes "web.service"; ty = service }

abbrev multi_user : UnitName
multi_user = record { canonical = codes "multi-user.target"; ty = target }

abbrev web_file : Text
web_file =
    codes
      "# The web server.\n[Service]\nExecStart=/bin/web \\\n  --root \"/srv/my site\" # a comment\nRestart=on-failure\nStartLimitBurst=3\n"

abbrev web_config : UnitConfig
unfolding new_config
web_config = record (new_config web) {
  exec_start = record { argv = codes "/bin/web" ∷ codes "--root" ∷ codes "/srv/my site" ∷ [] };
  restart = on_failure;
  start_limit_burst = 3;
}

parse-web_file : parse web web_file ≡ ok web_config
unfolding parse logical_lines lines strip_suffix strip_prefix trim_end_by trim_start trim_by
    is_whitespace section_header split_once is_empty_text text_eq split_entry all tokenize
    directive_of apply_directive has_text number parse_word join_tokens parse_service_kind
    parse_restart_policy unsigned digits_from command is_empty_command new_config is_target type_eq
    new_parser split_on
parse-web_file = refl

parse-IsContract_example : IsContract web web_config
parse-IsContract_example = parse-IsContract web web_file web_config parse-web_file

tokenize-comment_prefix_example :
    tokenize (comment_prefix (codes "a \"b # c\" \\# d # e")) 7
    ≡ tokenize (codes "a \"b # c\" \\# d # e") 7
tokenize-comment_prefix_example = tokenize-comment_prefix (codes "a \"b # c\" \\# d # e") 7

tokenize-quote_all_example :
    tokenize (quote_all (codes "say \"hi\"\n" ∷ [] ∷ codes "a\\b # c" ∷ [])) 3
    ≡ ok (codes "say \"hi\"\n" ∷ [] ∷ codes "a\\b # c" ∷ [])
tokenize-quote_all_example =
    tokenize-quote_all (codes "say \"hi\"\n" ∷ [] ∷ codes "a\\b # c" ∷ []) 3

parse-service_file_example :
    parse web (service_file (codes "/bin/sh" ∷ codes "-c" ∷ codes "echo \"a # b\"" ∷ []))
    ≡ ok (record (new_config web) {
      exec_start = record { argv = codes "/bin/sh" ∷ codes "-c" ∷ codes "echo \"a # b\"" ∷ [] };
    })
unfolding all is_empty_text
parse-service_file_example =
    parse-service_file web (codes "/bin/sh") (codes "-c" ∷ codes "echo \"a # b\"" ∷ []) refl

tokenize-places :
    tokenize (codes "one \"two three\"\\ four \\s\\t # five") 1
    ≡ ok (codes "one" ∷ codes "two three four" ∷ codes " \t" ∷ [])
unfolding tokenize
tokenize-places = refl

tokenize-open_quote : tokenize (codes "a \"b") 4 ≡ err (unterminated_quote 4)
unfolding tokenize
tokenize-open_quote = refl

logical_lines-continued :
    logical_lines (codes "a \\\n b # c\n\nd\\")
    ≡ (1, codes "a   b ") ∷ (3, []) ∷ (4, codes "d ") ∷ []
unfolding logical_lines rinit.Prelude.Splits.lines rinit.Prelude.Slices.strip_suffix
    rinit.Prelude.Slices.strip_prefix rinit.Prelude.Splits.trim_end_by
    rinit.Prelude.Slices.trim_start rinit.Unit.Name.is_whitespace is_empty_text
logical_lines-continued = refl

-- A comment is cut on each line by itself, so a quote that a line end divides does not hold its
-- second `#` back.
parse-divided_quote :
    parse web (codes "[Service]\nExecStart=/bin/echo \"a \\\n# b\"\n") ≡ err (unterminated_quote 2)
unfolding parse logical_lines rinit.Prelude.Splits.lines rinit.Prelude.Slices.strip_suffix
    rinit.Prelude.Slices.strip_prefix rinit.Prelude.Splits.trim_end_by
    rinit.Prelude.Slices.trim_start rinit.Unit.Name.is_whitespace rinit.Prelude.Slices.trim_by
    rinit.Unit.Parser.Lexing.section_header rinit.Prelude.Slices.split_once is_empty_text text_eq
    rinit.Unit.Parser.Lexing.split_entry all tokenize
parse-divided_quote = refl

parse-target_empty : parse multi_user [] ≡ ok (new_config multi_user)
unfolding parse logical_lines rinit.Prelude.Splits.lines is_empty_text
parse-target_empty = refl

-- Files that are refused for the service, with the errors.
abbrev refusals : List (Text × ParseError)
refusals =
    ([], missing_exec_start (codes "web.service"))
    ∷ (
      codes "[Unit]\nType=target\n",
      type_suffix_conflict (codes "web.service") (codes "target") (codes "service"),
    )
    ∷ (codes "[Unit]\nDescription=a\nDescription=b\n", duplicate_key 3 (codes "Description"))
    ∷ (codes "[Unit]\nExecStart=/bin/a\n", unknown_key 2 (codes "Unit") (codes "ExecStart"))
    ∷ (codes "User=a\n", entry_outside_section 1 (codes "User"))
    ∷ (codes "[Install]\n", unknown_section 1 (codes "Install"))
    ∷ (
      codes "[Service]\nType=oneshot\nExecStart=/bin/a\nRestart=always\n",
      invalid_value 4 (codes "Restart") (codes "Type=oneshot")
          (said (codes "cannot restart a oneshot; use Type=simple or Restart=no")),
    )
    ∷ (
      codes "[Service]\nStartLimitBurst=0\n",
      invalid_value 2 (codes "StartLimitBurst") (codes "0")
          (said (codes "0 is not allowed for this directive")),
    )
    ∷ []

parse-refusals : map (λ r. parse web r.0) refusals ≡ map (λ r. err r.1) refusals
unfolding parse logical_lines lines strip_suffix strip_prefix trim_end_by trim_start trim_by
    is_whitespace section_header split_once is_empty_text text_eq split_entry all tokenize
    directive_of apply_directive has_text number parse_word join_tokens parse_service_kind
    parse_restart_policy unsigned digits_from command is_empty_command new_config is_target type_eq
    new_parser split_on
parse-refusals = refl

parse_environment_file-lines :
    parse_environment_file (codes "# defaults\nA=1 # one\n\nno equals\n B = two words \n=3\n")
    ≡ (codes "A", codes "1") ∷ (codes "B", codes "two words") ∷ []
unfolding parse_environment_file rinit.Prelude.Splits.lines is_empty_text
    rinit.Prelude.Slices.trim_by rinit.Prelude.Slices.trim_start rinit.Prelude.Slices.split_on
    rinit.Prelude.Slices.strip_suffix rinit.Prelude.Slices.strip_prefix
    rinit.Unit.Name.is_whitespace rinit.Prelude.Slices.split_once
parse_environment_file-lines = refl
