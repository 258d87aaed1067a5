-- ===== src/Unit/Parser/Values.antt =====
-- crates/rinit-core/src/unit/parser.rs: the values of the directives.
use rinit.Prelude.{
  ℕ, Bool, true, false, Option, none, some, List, [], ◌∷◌, ◌==◌, if◌then◌else◌, Text, codes,
  text_eq, Result, ok, err, ◌>>=◌,
}
use rinit.Prelude.Slices.{all, split_once}
use rinit.Prelude.Splits.{is_empty_text}
use rinit.Prelude.Word.{u64_max}
use rinit.Prelude.Decimal.{parse_word}
use rinit.Unit.Name.{UnitName, NameError, invalid_unit_name}
use rinit.Unit.Name as Name
use rinit.Unit.Config.{ExecCommand, empty_command, SizeBytes, parse_size, Cap, parse_cap}
use rinit.Unit.Parser.{ParseError, invalid_value, said, bad_name, Zero, allowed, rejected}
use rinit.Unit.Parser.Lexing.{join_tokens}

unfoldable pub command : List Text → ExecCommand
command tokens = if all is_empty_text tokens then empty_command else record { argv = tokens }

unfoldable pub refuse_zero : ℕ → Text → Text → Zero → ℕ → Result ParseError ℕ
refuse_zero line key text allowed n = ok n
refuse_zero line key text rejected n =
    if n == 0
    then err (invalid_value line key text (said (codes "0 is not allowed for this directive")))
    else ok n

unfoldable pub number : ℕ → Text → List Text → Zero → Result ParseError ℕ
unfolding refuse_zero
number line key tokens zero_policy =
    let text = join_tokens tokens in
    elim (parse_word u64_max text) [
      | none ↦ err (invalid_value line key text (said (codes "expected a non-negative integer")))
      | some n ↦ refuse_zero line key text zero_policy n
    ]

unfoldable pub boolean : ℕ → Text → List Text → Result ParseError Bool
boolean line key tokens =
    let text = join_tokens tokens in
    if text_eq text (codes "true")
    then ok true
    else if text_eq text (codes "false")
    then ok false
    else err (invalid_value line key text (said (codes "expected 'true' or 'false'")))

unfoldable pub caps : ℕ → Text → List Text → Result ParseError (List Cap)
caps line key [] = ok []
caps line key (token ∷ tokens) = elim (parse_cap token) [
  | none ↦ err (invalid_value line key token (said (codes "not a valid capability name")))
  | some cap ↦ caps line key tokens >>= λ rest. ok (cap ∷ rest)
]

assignment : ℕ → Text → Text → Option (Text × Text) → Result ParseError (Text × Text)
assignment line key token none =
    err (invalid_value line key token (said (codes "expected KEY=VALUE")))
assignment line key token (some (k, v)) =
    if is_empty_text k
    then err (invalid_value line key token (said (codes "the variable name is empty")))
    else ok (k, v)

unfoldable pub environment : ℕ → Text → List Text → Result ParseError (List (Text × Text))
unfolding assignment
environment line key [] = ok []
environment line key (token ∷ tokens) = assignment line key token (split_once b'=' token) >>= λ kv.
    environment line key tokens >>= λ rest. ok (kv ∷ rest)

unfoldable pub size : ℕ → Text → Text → Result ParseError SizeBytes
size line key text = elim (parse_size text) [
  | none ↦ err (
      invalid_value line key text
        (said (codes "expected a byte count with an optional K/M/G suffix")))
  | some value ↦
      if value.bytes == 0
      then err (invalid_value line key text (said (codes "0 is not a valid limit")))
      else ok value
]

unfoldable pub is_absolute : Text → Bool
is_absolute [] = false
is_absolute (c ∷ _) = c == b'/'

unfoldable pub require_absolute : ℕ → Text → Text → Result ParseError (Unit {0})
unfolding is_absolute
require_absolute line key path =
    if is_absolute path
    then ok tt
    else err (invalid_value line key path (said (codes "expected an absolute path")))

named_unit : ℕ → Text → Text → Result NameError UnitName → Result ParseError UnitName
named_unit line key token (ok n) = ok n
named_unit line key token (err (invalid_unit_name name)) =
    err (invalid_value line key token (bad_name name))

unfoldable pub unit_names : ℕ → Text → List Text → Result ParseError (List UnitName)
unfolding named_unit
unit_names line key [] = ok []
unit_names line key (token ∷ tokens) = named_unit line key token (Name.parse token) >>= λ n.
    unit_names line key tokens >>= λ rest. ok (n ∷ rest)
