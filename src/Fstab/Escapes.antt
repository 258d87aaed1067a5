-- ===== src/Fstab/Escapes.antt =====
-- crates/rinit-runtime/src/mounts.rs: `unescape_mount_field` undoes the escapes of /proc/mounts.
use rinit.Prelude.{
  ℕ, ◌≡◌, refl, sym, ap, ◌∙◌, inl, inr, false, [], ◌∷◌, ◌++◌, arith, ◌==◌, ==_iff, if◌then◌else◌,
  Bool-cases, Text, codes,
}
use rinit.Prelude.Slices.{contains}
use rinit.Fstab.{octal, octal_at, escaped, unescape_from, unescape_mount_field}

-- How the kernel writes a character of a path.
unfoldable pub escape_code : ℕ → Text
escape_code c =
    if c == b' '
    then codes "\\040"
    else if c == b'\t'
    then codes "\\011"
    else if c == b'\n'
    then codes "\\012"
    else if c == b'\\'
    then codes "\\134"
    else c ∷ []

unfoldable pub escape : Text → Text
unfolding escape_code
escape [] = []
escape (c ∷ s) = escape_code c ++ escape s

unescape-code : (c : ℕ) (s : Text) → unescape_from 0 (escape_code c ++ s) ≡ c ∷ unescape_from 0 s
unfolding unescape_from escaped octal_at octal escape_code
unescape-code c s = elim (Bool-cases (c == b' ')) [
  | inl e ↦ rw ((==_iff c b' ').0 e)
  | inr a ↦ elim (Bool-cases (c == b'\t')) [
    | inl e ↦ rw ((==_iff c b'\t').0 e)
    | inr b ↦ elim (Bool-cases (c == b'\n')) [
      | inl e ↦ rw ((==_iff c b'\n').0 e)
      | inr d ↦ elim (Bool-cases (c == b'\\')) [
        | inl e ↦ rw ((==_iff c b'\\').0 e)
        | inr plain ↦ ground arith
      ]
    ]
  ]
]

unescape_from-escape : (s : Text) → unescape_from 0 (escape s) ≡ s
unfolding escape unescape_from
unescape_from-escape [] = refl
unescape_from-escape (c ∷ s) = unescape-code c (escape s) ∙ ap (λ r. c ∷ r) (unescape_from-escape s)

unescape_from-plain : (s : Text) → contains b'\\' s ≡ false → unescape_from 0 s ≡ s
unfolding unescape_from contains escaped
unescape_from-plain [] h = refl
unescape_from-plain (c ∷ s) h = ground (arith, unescape_from-plain s)

-- The test for a backslash changes nothing: the loop alone gives the same.
unescape_mount_field-loop : (s : Text) → unescape_mount_field s ≡ unescape_from 0 s
unfolding unescape_mount_field
unescape_mount_field-loop s = elim (Bool-cases (contains b'\\' s)) [
  | inl there ↦ rw (there)
  | inr plain ↦ rw (plain) (sym (unescape_from-plain s plain))
]

-- A path of any characters is what is read from its escaped form, so a point with blanks or
-- backslashes is known again.
pub unescape_mount_field-escape : (s : Text) → unescape_mount_field (escape s) ≡ s
unescape_mount_field-escape s = unescape_mount_field-loop (escape s) ∙ unescape_from-escape s
