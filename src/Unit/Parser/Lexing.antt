-- ===== src/Unit/Parser/Lexing.antt =====
-- crates/rinit-core/src/unit/parser.rs: the lines of a file, section headers, entries and tokens.
use rinit.Prelude.{
  ℕ, ◌+◌, Bool, true, false, not, ◌&&◌, ◌||◌, Option, none, some, List, [], ◌∷◌, ◌++◌, leb, ◌==◌,
  if◌then◌else◌, Text, codes, text_eq, Result, ok, err,
}
use rinit.Prelude.Slices.{all, split_once, strip_suffix, trim_by}
use rinit.Prelude.Splits.{is_empty_text, strip_return, lines, trim_end_by}
use rinit.Prelude.Decimal.{is_digit}
use rinit.Unit.Name.{is_whitespace}
use rinit.Unit.Parser.{
  ParseError, syntax, unknown_section, unterminated_quote, missing_bracket, content_after_header,
  Section, unit_section, service_section,
}

-- The loop of `comment_prefix`: what it passes over before the comment, with its two flags.
unfoldable pub prefix_from : Bool → Bool → Text → Text
prefix_from quoted escaped [] = []
prefix_from quoted true (c ∷ s) = c ∷ prefix_from quoted false s
prefix_from quoted false (c ∷ s) = elim (c == b'\\') [
  | true ↦ c ∷ prefix_from quoted true s
  | false ↦ elim (c == b'"') [
    | true ↦ c ∷ prefix_from (not quoted) false s
    | false ↦ elim (c == b'#' && not quoted) [ true ↦ [] | false ↦ c ∷ prefix_from quoted false s ]
  ]
]

unfoldable pub comment_prefix : Text → Text
unfolding prefix_from
comment_prefix line = prefix_from false false line

-- The line without its last backslash, if that is the last thing on it.
unfoldable pub continued : Text → Option Text
continued code = strip_suffix (b'\\' ∷ []) (trim_end_by is_whitespace code)

-- The loop of `logical_lines`, on the lines from this index on.
unfoldable pub logical_from : ℕ → Text → ℕ → List Text → List (ℕ × Text)
unfolding comment_prefix continued
logical_from idx current start [] = if is_empty_text current then [] else (start, current) ∷ []
logical_from idx current start (raw ∷ rest) =
    let code = comment_prefix (strip_return raw) in
    let from = if is_empty_text current then idx + 1 else start in
    elim (continued code) [
      | some head ↦ logical_from (idx + 1) (current ++ (head ++ b' ' ∷ [])) from rest
      | none ↦ (from, current ++ code) ∷ logical_from (idx + 1) [] from rest
    ]

unfoldable pub logical_lines : Text → List (ℕ × Text)
unfolding logical_from
logical_lines input = logical_from 0 [] 0 (lines input)

section_named : ℕ → Text → Result ParseError (Option Section)
section_named line_no name =
    if text_eq name (codes "Unit")
    then ok (some unit_section)
    else if text_eq name (codes "Service")
    then ok (some service_section)
    else err (unknown_section line_no name)

header_parts : ℕ → Option (Text × Text) → Result ParseError (Option Section)
unfolding section_named
header_parts line_no none = err (syntax line_no missing_bracket)
header_parts line_no (some (name, tail)) =
    if is_empty_text (trim_by is_whitespace tail)
    then section_named line_no name
    else err (syntax line_no (content_after_header tail))

unfoldable pub section_header : Text → ℕ → Result ParseError (Option Section)
unfolding header_parts
section_header [] line_no = ok none
section_header (c ∷ rest) line_no =
    if c == b'[' then header_parts line_no (split_once b']' rest) else ok none

unfoldable pub is_letter : ℕ → Bool
is_letter c = leb b'A' c && leb c b'Z' || leb b'a' c && leb c b'z'

unfoldable pub is_key : Text → Bool
unfolding is_letter
is_key [] = false
is_key (c ∷ s) = is_letter c && all (λ d. is_letter d || is_digit d) s

keyed : Text × Text → Option (Text × Text)
unfolding is_key
keyed (left, value) =
    let key = trim_by is_whitespace left in
    if is_key key then some (key, trim_by is_whitespace value) else none

unfoldable pub split_entry : Text → Option (Text × Text)
unfolding keyed
split_entry text = elim (split_once b'=' text) [ none ↦ none | some r ↦ keyed r ]

-- The places of `tokenize` in a value: between and in words, between quotes, and behind a
-- backslash in either.
pub data Place : Type 0 where
  bare quoted bare_escape quoted_escape : Place

-- What `escape` makes of the character behind a backslash.
unfoldable pub decode : ℕ → ℕ
decode c = if c == b'n' then 10 else if c == b't' then 9 else if c == b's' then 32 else c

abbrev pub flush : List Text → Text → Bool → List Text
flush out cur started = if started then out ++ cur ∷ [] else out

abbrev pub is_blank : ℕ → Bool
is_blank c = c == b' ' || c == b'\t'

-- The loops of `tokenize`, with `out`, `cur` and `started`.
unfoldable pub lex : ℕ → Place → List Text → Text → Bool → Text → Result ParseError (List Text)
unfolding decode
lex line bare out cur started [] = ok (flush out cur started)
lex line quoted out cur started [] = err (unterminated_quote line)
lex line bare_escape out cur started [] = ok (flush out (cur ++ b'\\' ∷ []) started)
lex line quoted_escape out cur started [] = err (unterminated_quote line)
lex line bare_escape out cur started (c ∷ s) = lex line bare out (cur ++ decode c ∷ []) started s
lex line quoted_escape out cur started (c ∷ s) =
    lex line quoted out (cur ++ decode c ∷ []) started s
lex line quoted out cur started (c ∷ s) = elim (c == b'"') [
  | true ↦ lex line bare out cur started s
  | false ↦ elim (c == b'\\') [
    | true ↦ lex line quoted_escape out cur started s
    | false ↦ lex line quoted out (cur ++ c ∷ []) started s
  ]
]
lex line bare out cur started (c ∷ s) = elim (is_blank c) [
  | true ↦ lex line bare (flush out cur started) (if started then [] else cur) false s
  | false ↦ elim (c == b'#') [
    | true ↦ ok (flush out cur started)
    | false ↦ elim (c == b'"') [
      | true ↦ lex line quoted out cur true s
      | false ↦ elim (c == b'\\') [
        | true ↦ lex line bare_escape out cur true s
        | false ↦ lex line bare out (cur ++ c ∷ []) true s
      ]
    ]
  ]
]

unfoldable pub tokenize : Text → ℕ → Result ParseError (List Text)
unfolding lex
tokenize value line = lex line bare [] [] false value

-- The tokens with a blank between each two.
unfoldable pub join_tokens : List Text → Text
join_tokens [] = []
join_tokens (t ∷ []) = t
join_tokens (t ∷ u ∷ ts) = t ++ b' ' ∷ join_tokens (u ∷ ts)
