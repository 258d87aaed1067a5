-- ===== src/Unit/Parser/Quoting.antt =====
-- crates/rinit-core/src/unit/parser.rs: values that are written in quotes, for `tokenize`.
use rinit.Prelude.{
  ℕ, ◌≡◌, sym, ap, ◌∙◌, inl, inr, true, false, ◌||◌, List, [], ◌∷◌, ◌++◌, map, arith, ◌==◌, ==_iff,
  if◌then◌else◌, Bool-cases, Text, ok,
}
use rinit.Unit.Parser.Lexing.{bare, quoted, decode, lex, tokenize, join_tokens}
use mathlib.Core.List.{append_assoc, append-nil}

-- How a character stands between quotes: a quote and a backslash behind a backslash, the end of a
-- line as `\n`, all else as itself.
unfoldable pub quote_code : ℕ → Text
quote_code c =
    if c == 10
    then b'\\' ∷ b'n' ∷ []
    else if c == b'"' || c == b'\\'
    then b'\\' ∷ c ∷ []
    else c ∷ []

unfoldable pub quote_codes : Text → Text
unfolding quote_code
quote_codes [] = []
quote_codes (c ∷ s) = quote_code c ++ quote_codes s

unfoldable pub quote : Text → Text
unfolding quote_codes
quote t = b'"' ∷ quote_codes t ++ b'"' ∷ []

-- Arguments in quotes, with a blank between each two.
unfoldable pub quote_all : List Text → Text
unfolding join_tokens quote
quote_all ts = join_tokens (map quote ts)

lex-quote_code :
    (line : ℕ) (out : List Text) (cur : Text) (c : ℕ) (s : Text)
    → lex line quoted out cur true (quote_code c ++ s) ≡ lex line quoted out (cur ++ c ∷ []) true s
unfolding lex quote_code decode
lex-quote_code line out cur c s = elim (Bool-cases (c == 10)) [
  | inl e ↦ rw ((==_iff c 10).0 e)
  | inr end ↦ elim (Bool-cases (c == b'"')) [
    | inl e ↦ rw ((==_iff c b'"').0 e)
    | inr mark ↦ elim (Bool-cases (c == b'\\')) [
      | inl e ↦ rw ((==_iff c b'\\').0 e)
      | inr slash ↦ ground arith
    ]
  ]
]

lex-quote_codes :
    (line : ℕ) (out : List Text) (cur t s : Text)
    → lex line quoted out cur true (quote_codes t ++ s) ≡ lex line quoted out (cur ++ t) true s
unfolding quote_codes
lex-quote_codes line out cur [] s = rw (append-nil cur)
lex-quote_codes line out cur (c ∷ t) s =
    ap (lex line quoted out cur true) (append_assoc (quote_code c) (quote_codes t) s)
    ∙ lex-quote_code line out cur c (quote_codes t ++ s)
    ∙ lex-quote_codes line out (cur ++ c ∷ []) t s
    ∙ ap (λ w. lex line quoted out w true s) (append_assoc cur (c ∷ []) t)

lex-quote :
    (line : ℕ) (out : List Text) (t s : Text)
    → lex line bare out [] false (quote t ++ s) ≡ lex line bare out t true s
unfolding lex quote
lex-quote line out t s =
    ap (lex line quoted out [] true) (append_assoc (quote_codes t) (b'"' ∷ []) s)
    ∙ lex-quote_codes line out [] t (b'"' ∷ s)

lex-quote_all :
    (line : ℕ) (out : List Text) (ts : List Text)
    → lex line bare out [] false (quote_all ts) ≡ ok (out ++ ts)
unfolding lex quote_all join_tokens
lex-quote_all line out [] = rw (append-nil out)
lex-quote_all line out (t ∷ []) =
    ap (lex line bare out [] false) (sym (append-nil (quote t))) ∙ lex-quote line out t []
lex-quote_all line out (t ∷ u ∷ ts) =
    lex-quote line out t (b' ' ∷ quote_all (u ∷ ts))
    ∙ lex-quote_all line (out ++ t ∷ []) (u ∷ ts)
    ∙ ap ok (append_assoc out (t ∷ []) (u ∷ ts))

-- Arguments of any characters, empty ones included, that are written in quotes are what `tokenize`
-- gives back.
pub tokenize-quote_all : (ts : List Text) (line : ℕ) → tokenize (quote_all ts) line ≡ ok ts
unfolding tokenize
tokenize-quote_all ts line = lex-quote_all line [] ts
