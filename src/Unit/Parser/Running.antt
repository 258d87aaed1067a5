-- ===== src/Unit/Parser/Running.antt =====
-- crates/rinit-core/src/unit/parser.rs: reading a file line by line, and the checks at its end.
use rinit.Prelude.{
  ℕ, Bool, true, false, not, ◌&&◌, ◌||◌, Option, none, some, List, [], ◌∷◌, ◌++◌, ◌==◌,
  if◌then◌else◌, Text, codes, text_eq, Result, ok, err, ◌>>=◌,
}
use rinit.Prelude.Slices.{split_on, trim_by}
use rinit.Unit.Name.{UnitName, UnitType, service, target, is_whitespace, type_eq}
use rinit.Unit.State.{ServiceKind, oneshot, RestartPolicy, never}
use rinit.Unit.Config.{UnitConfig, is_empty_command, is_target}
use rinit.Unit.Parser.{
  ParseError, syntax, expected_entry, unknown_key, duplicate_key, entry_outside_section,
  invalid_value, said, missing_exec_start, type_suffix_conflict, Section, section_text, Parser,
  new_parser,
}
use rinit.Unit.Parser.Lexing.{logical_lines, section_header, split_entry, tokenize}
use rinit.Unit.Parser.Directives.{Directive, directive_of, apply_directive}

abbrev pub repeatable_keys : List Text
repeatable_keys =
    codes "Environment"
    ∷ codes "Sockets"
    ∷ codes "NeedsSocket"
    ∷ codes "Requires"
    ∷ codes "Wants"
    ∷ codes "After"
    ∷ codes "Before"
    ∷ codes "Conflicts"
    ∷ codes "ExecStartPre"
    ∷ codes "ExecStartPost"
    ∷ []

unfoldable pub has_text : Text → List Text → Bool
has_text key [] = false
has_text key (t ∷ ts) = text_eq t key || has_text key ts

unfoldable pub has_seen : Text → Text → List (Text × Text) → Bool
has_seen section key [] = false
has_seen section key ((s, k) ∷ seen) =
    text_eq s section && text_eq k key || has_seen section key seen

-- The match of `entry`, on a known directive or another key.
unfoldable pub dispatch :
    Option Directive → Parser → Section → ℕ → Text → List Text → Result ParseError Parser
unfolding section_text
dispatch none p section line key tokens = err (unknown_key line (section_text section) key)
dispatch (some d) p section line key tokens = apply_directive d p line key tokens

unfoldable pub entry_of : Parser → Section → ℕ → Text × Text → Result ParseError Parser
unfolding has_text has_seen section_text dispatch
entry_of p section line (key, value) =
    let repeatable = has_text key repeatable_keys in
    let sec = section_text section in
    let marked = if repeatable then p else record p { seen = p.seen ++ (sec, key) ∷ [] } in
    if not repeatable && has_seen sec key p.seen
    then err (duplicate_key line key)
    else tokenize value line >>= λ tokens.
        dispatch (directive_of section key) marked section line key tokens

unfoldable pub entry : Parser → Section → ℕ → Text → Result ParseError Parser
unfolding entry_of
entry p section line text = elim (split_entry text) [
  | none ↦ err (syntax line (expected_entry text))
  | some kv ↦ entry_of p section line kv
]

-- What stands before the first `=`, or the whole line.
abbrev key_of_line : Text → Text
key_of_line text = elim (split_on b'=' text) [ [] ↦ text | k ∷ _ ↦ k ]

unfoldable pub in_section : Option Section → Parser → ℕ → Text → Result ParseError Parser
unfolding entry
in_section none p line_no text =
    err (entry_outside_section line_no (trim_by is_whitespace (key_of_line text)))
in_section (some section) p line_no text = entry p section line_no text

unfoldable pub read_header : Option Section → Parser → ℕ → Text → Result ParseError Parser
unfolding in_section
read_header (some section) p line_no text = ok (record p { current_section = some section })
read_header none p line_no text = in_section p.current_section p line_no text

-- The body of the loop of `run`, on the trimmed line.
unfoldable pub read_line : Parser → ℕ → Text → Result ParseError Parser
unfolding read_header
read_line p line_no [] = ok p
read_line p line_no (c ∷ s) =
    if c == b'#'
    then ok p
    else section_header (c ∷ s) line_no >>= λ h. read_header h p line_no (c ∷ s)

unfoldable pub read_lines : Parser → List (ℕ × Text) → Result ParseError Parser
unfolding read_line
read_lines p [] = ok p
read_lines p ((line_no, line) ∷ rest) =
    read_line p line_no (trim_by is_whitespace line) >>= λ q. read_lines q rest

unfoldable pub type_text : UnitType → Text
type_text service = codes "service"
type_text target = codes "target"

unfoldable pub check_type : Option UnitType → UnitName → Result ParseError (Unit {0})
unfolding type_text type_eq
check_type none name = ok tt
check_type (some declared) name =
    if type_eq declared name.ty
    then ok tt
    else err (type_suffix_conflict name.canonical (type_text declared) (type_text name.ty))

unfoldable pub is_oneshot : ServiceKind → Bool
is_oneshot oneshot = true
is_oneshot _ = false

unfoldable pub is_never : RestartPolicy → Bool
is_never never = true
is_never _ = false

abbrev conflict_line : Option ℕ → Option ℕ → ℕ
conflict_line (some l) _ = l
conflict_line none (some l) = l
conflict_line none none = 0

-- The checks of `finish` behind the one on the type.
unfoldable pub check_config : Parser → UnitConfig → Result ParseError UnitConfig
unfolding is_oneshot is_never is_target
check_config p c =
    if not (is_target c) && is_empty_command c.exec_start
    then err (missing_exec_start p.name.canonical)
    else if is_oneshot c.service_kind && not (is_never c.restart)
    then err (
        invalid_value (conflict_line p.restart_line p.service_type_line) (codes "Restart")
          (codes "Type=oneshot")
          (said (codes "cannot restart a oneshot; use Type=simple or Restart=no")))
    else ok c

unfoldable pub finish : Parser → Result ParseError UnitConfig
unfolding check_type check_config
finish p = check_type p.declared_unit_type p.name >>= λ _.
    check_config p (record p.cfg { kind = p.name.ty })

unfoldable pub parse : UnitName → Text → Result ParseError UnitConfig
unfolding read_lines finish new_parser
parse name input = read_lines (new_parser name) (logical_lines input) >>= finish
