-- ===== src/Fstab.antt =====
-- crates/rinit-runtime/src/fstab.rs and mounts.rs: the lines of /etc/fstab, their options and the second
-- wave of mounts.
use rinit.Prelude.{
  ℕ, zero, suc, ◌+◌, ◌-◌, ◌*◌, ◌/◌, ◌%◌, ◌^◌, ◌≤◌, ◌<◌, min, max, ◌≡◌, refl, sym, ap, ◌∙◌, ◌≢◌, ◌↔◌,
  ◌⊎◌, inl, inr, Bool, true, false, not, ◌&&◌, ◌||◌, Option, none, some, List, [], ◌∷◌, ◌++◌, map,
  Memᴰ, arith, ltb, leb, ◌==◌, ==_iff, if◌then◌else◌, ltb→lt, lt→ltb, leb→le, Bool-cases,
  Option-cases, length, get_elem?, take, drop, length-append, length-drop, take-append, drop-append,
  List-cases, All, All-append, All-drop, Text, codes, text_eq, text_eq_iff, Result, ok, err, ◌>>=◌,
  ◌>>◌, Result-cases,
}
use rinit.Prelude.Slices.{contains, strip_prefix, split_on, join_with, trim_by}
use rinit.Prelude.Splits.{is_empty_text, lines, words_by}
use rinit.Unit.Name.{is_whitespace}
pub mod Options
pub mod Mounting
pub mod Escapes
pub mod Effective
pub mod InUse
pub mod Trace
pub mod Report
mod Samples

-- The octal escapes of /proc/mounts.
unfoldable pub octal : ℕ → ℕ → ℕ → Option ℕ
octal a b c =
    if a == b'0' && b == b'4' && c == b'0'
    then some b' '
    else if a == b'0' && b == b'1' && c == b'1'
    then some b'\t'
    else if a == b'0' && b == b'1' && c == b'2'
    then some b'\n'
    else if a == b'1' && b == b'3' && c == b'4'
    then some b'\\'
    else none

unfoldable pub octal_at : Text → Option ℕ
unfolding octal
octal_at (a ∷ b ∷ c ∷ _) = octal a b c
octal_at _ = none

-- What the escape that may begin here stands for.
unfoldable pub escaped : ℕ → Text → Option ℕ
unfolding octal_at
escaped c s = if c == b'\\' then octal_at s else none

-- The loop of `unescape_mount_field`, with the number of characters that the last escape still has.
-- The escapes are ASCII, so their bytes are characters, and what is decoded is valid UTF-8 again.
unfoldable pub unescape_from : ℕ → Text → Text
unfolding escaped
unescape_from k [] = []
unescape_from (suc k) (c ∷ s) = unescape_from k s
unescape_from zero (c ∷ s) = elim (escaped c s) [
  | some d ↦ d ∷ unescape_from 3 s
  | none ↦ c ∷ unescape_from 0 s
]

unfoldable pub unescape_mount_field : Text → Text
unfolding unescape_from
unescape_mount_field field = if not (contains b'\\' field) then field else unescape_from 0 field

pub record Entry : Type 0 where
  pub device : Text
  pub mountpoint : Text
  pub fstype : Text
  pub options : Text

-- The lines for the boot log. A line's number counts from 1.
pub data Warning : Type 0 where
  too_few_fields : ℕ → Text → Warning
  not_absolute : ℕ → Text → Warning
  cannot_create : Text → ℕ → Warning
  cannot_mount : Entry → ℕ → Warning

fields_of : List Text → Option Entry
fields_of (d ∷ m ∷ t ∷ o ∷ _) = some (record {
  device = unescape_mount_field d;
  mountpoint = unescape_mount_field m;
  fstype = unescape_mount_field t;
  options = unescape_mount_field o;
})
fields_of _ = none

unfoldable pub read_entry : Text → Option Entry
unfolding fields_of
read_entry line = fields_of (words_by is_whitespace line)

abbrev pub is_absolute : Text → Bool
is_absolute [] = false
is_absolute (c ∷ _) = c == b'/'

unfoldable pub is_swap : Entry → Bool
is_swap e = text_eq e.fstype (codes "swap")

unfoldable pub any_noauto : List Text → Bool
any_noauto [] = false
any_noauto (o ∷ os) = text_eq (trim_by is_whitespace o) (codes "noauto") || any_noauto os

unfoldable pub is_noauto : Entry → Bool
unfolding any_noauto
is_noauto e = any_noauto (split_on b',' e.options)

-- What a line comes to.
pub data Line : Type 0 where
  skipped : Line
  warned : Warning → Line
  entry : Entry → Line

unfoldable pub judge_entry : ℕ → Entry → Line
unfolding is_swap is_noauto
judge_entry n e =
    if not (is_swap e) && not (is_absolute e.mountpoint)
    then warned (not_absolute n e.mountpoint)
    else if is_noauto e
    then skipped
    else entry e

unfoldable pub judge_line : ℕ → Text → Line
unfolding judge_entry read_entry
judge_line n [] = skipped
judge_line n (c ∷ s) = if c == b'#' then skipped else elim (read_entry (c ∷ s)) [
  | none ↦ warned (too_few_fields n (c ∷ s))
  | some e ↦ judge_entry n e
]

abbrev add_line : Line → List Entry × List Warning → List Entry × List Warning
add_line skipped r = r
add_line (warned w) (es, ws) = (es, w ∷ ws)
add_line (entry e) (es, ws) = (e ∷ es, ws)

unfoldable pub parse_from : ℕ → List Text → List Entry × List Warning
unfolding judge_line
parse_from index [] = ([], [])
parse_from index (line ∷ rest) =
    add_line (judge_line (index + 1) (trim_by is_whitespace line)) (parse_from (index + 1) rest)

unfoldable pub parse : Text → List Entry × List Warning
unfolding parse_from
parse text = parse_from 0 (lines text)

unfoldable pub no_word : Text → List Text → Bool
no_word word [] = true
no_word word (w ∷ ws) = not (text_eq w word) && no_word word ws

unfoldable pub enabled : Text → Bool
unfolding no_word
enabled cmdline = no_word (codes "nofstab") (words_by is_whitespace cmdline)
