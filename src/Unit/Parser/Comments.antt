-- ===== src/Unit/Parser/Comments.antt =====
-- crates/rinit-core/src/unit/parser.rs: where `comment_prefix` and `tokenize` see a comment.
use rinit.Prelude.{
  ℕ, ◌≡◌, refl, inl, inr, Bool, true, false, List, [], ◌∷◌, ◌++◌, arith, ◌==◌, ==_iff,
  if◌then◌else◌, Bool-cases, Text,
}
use rinit.Unit.Parser.Lexing.{
  prefix_from, comment_prefix, Place, bare, quoted, bare_escape, quoted_escape, flush, is_blank,
  lex, tokenize,
}

-- The place of `tokenize` at these flags of `comment_prefix`.
abbrev place : Bool → Bool → Place
place false false = bare
place true false = quoted
place false true = bare_escape
place true true = quoted_escape

lex-prefix_from :
    (q e : Bool) (line : ℕ) (out : List Text) (cur : Text) (started : Bool) (s : Text)
    → lex line (place q e) out cur started (prefix_from q e s)
      ≡ lex line (place q e) out cur started s
unfolding lex prefix_from
lex-prefix_from q e line out cur started [] = refl
lex-prefix_from false true line out cur started (c ∷ s) = lex-prefix_from false false line _ _ _ s
lex-prefix_from true true line out cur started (c ∷ s) = lex-prefix_from true false line _ _ _ s
lex-prefix_from true false line out cur started (c ∷ s) = ground (
  arith,
  lex-prefix_from true false line out (cur ++ c ∷ []) started s,
  lex-prefix_from false false line out cur started s,
  lex-prefix_from true true line out cur started s,
)
lex-prefix_from false false line out cur started (c ∷ s) = elim (Bool-cases (c == b'\\')) [
  | inl e ↦ rw ((==_iff c b'\\').0 e) (lex-prefix_from false true line out cur true s)
  | inr slash ↦ elim (Bool-cases (c == b'"')) [
    | inl e ↦ rw ((==_iff c b'"').0 e) (lex-prefix_from true false line out cur true s)
    | inr quote ↦ elim (Bool-cases (c == b'#')) [
      | inl e ↦ rw ((==_iff c b'#').0 e)
      | inr hash ↦ elim (Bool-cases (is_blank c)) [
        | inl blank ↦ ground (
          arith,
          lex-prefix_from false false line (flush out cur started) (if started then [] else cur)
              false s,
        )
        | inr plain ↦ ground (arith, lex-prefix_from false false line out (cur ++ c ∷ []) true s)
      ]
    ]
  ]
]

-- What `comment_prefix` cuts from a value is what `tokenize` skips: the tokens, or the quote that
-- is not closed, are the same whether the comment was cut before or not.
pub tokenize-comment_prefix :
    (value : Text) (line : ℕ) → tokenize (comment_prefix value) line ≡ tokenize value line
unfolding tokenize comment_prefix
tokenize-comment_prefix value line = lex-prefix_from false false line [] [] false value
