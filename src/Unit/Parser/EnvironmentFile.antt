-- ===== src/Unit/Parser/EnvironmentFile.antt =====
-- crates/rinit-core/src/unit/parser.rs: the files of `EnvironmentFile=`.
use rinit.Prelude.{Option, none, some, List, [], ◌∷◌, if◌then◌else◌, Text}
use rinit.Prelude.Slices.{split_on, split_once, trim_by}
use rinit.Prelude.Splits.{is_empty_text, lines}
use rinit.Unit.Name.{is_whitespace}

-- What stands before the first `#`.
abbrev before_hash : Text → Text
before_hash line = elim (split_on b'#' line) [ [] ↦ [] | code ∷ _ ↦ code ]

unfoldable pub variable_of : Option (Text × Text) → Option (Text × Text)
variable_of none = none
variable_of (some (left, value)) =
    let key = trim_by is_whitespace left in
    if is_empty_text key then none else some (key, trim_by is_whitespace value)

-- The variable on a line, if there is one.
unfoldable pub read_variable : Text → Option (Text × Text)
unfolding variable_of
read_variable line =
    let code = trim_by is_whitespace (before_hash line) in
    if is_empty_text code then none else variable_of (split_once b'=' code)

unfoldable pub read_variables : List Text → List (Text × Text)
unfolding read_variable
read_variables [] = []
read_variables (line ∷ rest) = elim (read_variable line) [
  | none ↦ read_variables rest
  | some kv ↦ kv ∷ read_variables rest
]

unfoldable pub parse_environment_file : Text → List (Text × Text)
unfolding read_variables
parse_environment_file contents = read_variables (lines contents)
