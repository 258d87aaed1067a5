-- ===== src/Unit/Parser/ServiceFile.antt =====
-- crates/rinit-core/src/unit/parser.rs: the lines of a file with the arguments of
-- `ExecStart=` in quotes.
use rinit.Prelude.{
  ℕ, ◌+◌, ◌≡◌, refl, sym, ap, ◌∙◌, inl, inr, true, false, ◌||◌, none, some, List, [], ◌∷◌, ◌++◌,
  arith, ◌==◌, Bool-cases, Text, codes,
}
use mathlib.Core.List.{append_assoc, append-nil, reverse, reverse-append, reverse-reverse}
use rinit.Prelude.Slices.{
  split_once, all, contains, trim_start, trim_by, strip_suffix, strip_prefix,
}
use rinit.Prelude.Splits.{is_empty_text, strip_return, lines_from, lines, trim_end_by}
use rinit.Unit.Name.{is_whitespace}
use rinit.Unit.Parser.Lexing.{
  split_entry, prefix_from, comment_prefix, continued, logical_from, logical_lines, join_tokens,
}
use rinit.Unit.Parser.Quoting.{quote_code, quote_codes, quote, quote_all}

unfoldable pub exec_start_line : List Text → Text
unfolding quote_all
exec_start_line ts = codes "ExecStart=" ++ quote_all ts

unfoldable pub service_file : List Text → Text
unfolding exec_start_line
service_file ts = codes "[Service]\n" ++ exec_start_line ts ++ codes "\n"

-- Arguments in quotes begin and end with a quote.
quoted_ends :
    (t : Text) (ts : List Text) → (m : Text) × (quote_all (t ∷ ts) ≡ b'"' ∷ m ++ b'"' ∷ [])
unfolding quote_all join_tokens quote
quoted_ends t [] = (quote_codes t, refl)
quoted_ends t (u ∷ ts) =
    let (m, shape) = quoted_ends u ts in
    (
      quote_codes t ++ b'"' ∷ b' ' ∷ b'"' ∷ m,
      ap (λ r. b'"' ∷ r)
          (append_assoc (quote_codes t) (b'"' ∷ []) (b' ' ∷ quote_all (u ∷ ts))
            ∙ ap (λ r. quote_codes t ++ b'"' ∷ b' ' ∷ r) shape
            ∙ sym (append_assoc (quote_codes t) (b'"' ∷ b' ' ∷ b'"' ∷ m) (b'"' ∷ []))),
    )

-- A text that ends in a quote ends neither in a carriage return, a blank nor a backslash.
strip_return_quoted : (s : Text) → strip_return (s ++ b'"' ∷ []) ≡ s ++ b'"' ∷ []
unfolding strip_return strip_suffix strip_prefix
strip_return_quoted s = rw (reverse-append s (b'"' ∷ []))

trim_end_quoted : (s : Text) → trim_end_by is_whitespace (s ++ b'"' ∷ []) ≡ s ++ b'"' ∷ []
unfolding trim_end_by trim_start is_whitespace
trim_end_quoted s =
    let turned = reverse-append s (b'"' ∷ []) in
    ap (λ r. reverse (trim_start is_whitespace r)) turned
    ∙ sym (ap reverse turned)
    ∙ reverse-reverse (s ++ b'"' ∷ [])

continued_quoted : (s : Text) → continued (s ++ b'"' ∷ []) ≡ none
unfolding continued strip_suffix strip_prefix
continued_quoted s = rw (trim_end_quoted s, reverse-append s (b'"' ∷ []))

trim_by_quoted :
    (c : ℕ) (m : Text)
    → is_whitespace c ≡ false
    → trim_by is_whitespace (c ∷ m ++ b'"' ∷ []) ≡ c ∷ m ++ b'"' ∷ []
unfolding trim_by trim_start trim_end_by
trim_by_quoted c m h = rw (h, trim_start) (trim_end_quoted (c ∷ m))

prefix-quote_code :
    (c : ℕ) (s : Text)
    → prefix_from true false (quote_code c ++ s) ≡ quote_code c ++ prefix_from true false s
unfolding prefix_from quote_code
prefix-quote_code c s = ground arith

prefix-quote_codes :
    (t s : Text)
    → prefix_from true false (quote_codes t ++ s) ≡ quote_codes t ++ prefix_from true false s
unfolding quote_codes
prefix-quote_codes [] s = refl
prefix-quote_codes (c ∷ t) s =
    ap (prefix_from true false) (append_assoc (quote_code c) (quote_codes t) s)
    ∙ prefix-quote_code c (quote_codes t ++ s)
    ∙ ap (λ r. quote_code c ++ r) (prefix-quote_codes t s)
    ∙ sym (append_assoc (quote_code c) (quote_codes t) (prefix_from true false s))

prefix-quote :
    (t s : Text) → prefix_from false false (quote t ++ s) ≡ quote t ++ prefix_from false false s
unfolding prefix_from quote
prefix-quote t s =
    ap (λ r. b'"' ∷ r)
      (ap (prefix_from true false) (append_assoc (quote_codes t) (b'"' ∷ []) s)
        ∙ prefix-quote_codes t (b'"' ∷ s)
        ∙ sym (append_assoc (quote_codes t) (b'"' ∷ []) (prefix_from false false s)))

prefix-quote_all : (ts : List Text) → prefix_from false false (quote_all ts) ≡ quote_all ts
unfolding prefix_from quote_all join_tokens
prefix-quote_all [] = refl
prefix-quote_all (t ∷ []) =
    ap (prefix_from false false) (sym (append-nil (quote t)))
    ∙ prefix-quote t []
    ∙ append-nil (quote t)
prefix-quote_all (t ∷ u ∷ ts) =
    prefix-quote t (b' ' ∷ quote_all (u ∷ ts))
    ∙ ap (λ r. quote t ++ b' ' ∷ r) (prefix-quote_all (u ∷ ts))

comment_prefix-exec_start_line :
    (ts : List Text) → comment_prefix (exec_start_line ts) ≡ exec_start_line ts
unfolding comment_prefix prefix_from exec_start_line
comment_prefix-exec_start_line ts = ap (λ r. codes "ExecStart=" ++ r) (prefix-quote_all ts)

-- The file has two lines.
quote_codes_one_line : (t : Text) → contains 10 (quote_codes t) ≡ false
unfolding contains quote_codes quote_code
quote_codes_one_line [] = refl
quote_codes_one_line (c ∷ t) = ground (arith, quote_codes_one_line t)

contains-append : (c : ℕ) (a b : Text) → contains c (a ++ b) ≡ (contains c a || contains c b)
unfolding contains
contains-append c [] b = refl
contains-append c (d ∷ a) b = ground (arith, contains-append c a b)

quote_one_line : (t s : Text) → contains 10 (quote t ++ s) ≡ contains 10 s
unfolding contains quote
quote_one_line t s =
    ap (contains 10) (append_assoc (quote_codes t) (b'"' ∷ []) s)
    ∙ contains-append 10 (quote_codes t) (b'"' ∷ s)
    ∙ rw (quote_codes_one_line t)

quote_all_one_line : (ts : List Text) → contains 10 (quote_all ts) ≡ false
unfolding contains quote_all join_tokens
quote_all_one_line [] = refl
quote_all_one_line (t ∷ []) = ap (contains 10) (sym (append-nil (quote t))) ∙ quote_one_line t []
quote_all_one_line (t ∷ u ∷ ts) =
    quote_one_line t (b' ' ∷ quote_all (u ∷ ts)) ∙ quote_all_one_line (u ∷ ts)

lines_from-line :
    (cur a rest : Text)
    → contains 10 a ≡ false
    → lines_from cur (a ++ 10 ∷ rest) ≡ strip_return (cur ++ a) ∷ lines_from [] rest
unfolding lines_from contains
lines_from-line cur [] rest h = rw (append-nil cur)
lines_from-line cur (c ∷ a) rest h = elim (Bool-cases (c == 10)) [
  | inl end ↦ absurd (ground arith)
  | inr inside ↦
      rw (inside, lines_from)
        (lines_from-line (cur ++ c ∷ []) a rest (ground arith)
          ∙ ap (λ r. strip_return r ∷ lines_from [] rest) (append_assoc cur (c ∷ []) a))
]

exec_start_line_ends :
    (t : Text) (ts : List Text) → (m : Text) × (exec_start_line (t ∷ ts) ≡ b'E' ∷ m ++ b'"' ∷ [])
unfolding exec_start_line
exec_start_line_ends t ts =
    let (m, shape) = quoted_ends t ts in
    (codes "xecStart=" ++ b'"' ∷ m, ap (λ r. codes "ExecStart=" ++ r) shape)

exec_start_line_kept :
    (t : Text) (ts : List Text) → strip_return (exec_start_line (t ∷ ts)) ≡ exec_start_line (t ∷ ts)
exec_start_line_kept t ts =
    let (m, shape) = exec_start_line_ends t ts in
    ap strip_return shape ∙ strip_return_quoted (b'E' ∷ m) ∙ sym shape

exec_start_line-continued :
    (t : Text) (ts : List Text) → continued (exec_start_line (t ∷ ts)) ≡ none
exec_start_line-continued t ts =
    let (m, shape) = exec_start_line_ends t ts in ap continued shape ∙ continued_quoted (b'E' ∷ m)

lines-service_file :
    (t : Text) (ts : List Text)
    → lines (service_file (t ∷ ts)) ≡ codes "[Service]" ∷ exec_start_line (t ∷ ts) ∷ []
unfolding lines lines_from service_file strip_return strip_suffix strip_prefix contains
lines-service_file t ts =
    let L = exec_start_line (t ∷ ts) in
    ap (λ r. codes "[Service]" ∷ r)
      (lines_from-line [] L [] (quote_all_one_line (t ∷ ts))
        ∙ ap (λ r. r ∷ []) (exec_start_line_kept t ts))

logical_from-line :
    (idx start : ℕ) (raw : Text) (rest : List Text)
    → strip_return raw ≡ raw
    → comment_prefix raw ≡ raw
    → continued raw ≡ none
    → logical_from idx [] start (raw ∷ rest)
      ≡ (idx + 1, raw) ∷ logical_from (idx + 1) [] (idx + 1) rest
unfolding logical_from is_empty_text
logical_from-line idx start raw rest h i j =
    let same : comment_prefix (strip_return raw) ≡ raw = ap comment_prefix h ∙ i in
    rw (h, i, j, logical_from)
      (ap (λ r. (idx + 1, r) ∷ logical_from (idx + 1) [] (idx + 1) rest) same)

pub logical_lines-service_file :
    (t : Text) (ts : List Text)
    → logical_lines (service_file (t ∷ ts))
      ≡ (1, codes "[Service]") ∷ (2, exec_start_line (t ∷ ts)) ∷ []
unfolding logical_lines logical_from strip_suffix is_empty_text strip_prefix trim_end_by trim_start
    strip_return is_whitespace
logical_lines-service_file t ts =
    ap (logical_from 0 [] 0) (lines-service_file t ts)
    ∙ ap (λ r. (1, codes "[Service]") ∷ r)
        (logical_from-line 1 1 (exec_start_line (t ∷ ts)) [] (exec_start_line_kept t ts)
          (comment_prefix-exec_start_line (t ∷ ts)) (exec_start_line-continued t ts))

quote_all_trimmed :
    (t : Text) (ts : List Text) → trim_by is_whitespace (quote_all (t ∷ ts)) ≡ quote_all (t ∷ ts)
unfolding is_whitespace
quote_all_trimmed t ts =
    let (m, shape) = quoted_ends t ts in
    ap (trim_by is_whitespace) shape ∙ trim_by_quoted b'"' m refl ∙ sym shape

pub exec_start_line_trimmed :
    (t : Text) (ts : List Text)
    → trim_by is_whitespace (exec_start_line (t ∷ ts)) ≡ exec_start_line (t ∷ ts)
unfolding is_whitespace
exec_start_line_trimmed t ts =
    let (m, shape) = exec_start_line_ends t ts in
    ap (trim_by is_whitespace) shape ∙ trim_by_quoted b'E' m refl ∙ sym shape

pub split_entry-exec_start_line :
    (t : Text) (ts : List Text)
    → split_entry (exec_start_line (t ∷ ts)) ≡ some (codes "ExecStart", quote_all (t ∷ ts))
unfolding split_entry exec_start_line split_once trim_by trim_start is_whitespace all
split_entry-exec_start_line t ts = ap (λ v. some (codes "ExecStart", v)) (quote_all_trimmed t ts)
