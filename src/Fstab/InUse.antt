-- ===== src/Fstab/InUse.antt =====
-- crates/rinit-runtime/src/fstab.rs: the entries that the second wave passes over, beside its tests.
use rinit.Prelude.{
  ◌≡◌, refl, sym, ap, ◌∙◌, ◌≢◌, ◌⊎◌, inl, inr, Bool, true, false, ◌||◌, Option, none, some, List,
  [], ◌∷◌, arith, Bool-cases, Text, codes, text_eq, text_eq_iff,
}
use rinit.Prelude.Splits.{lines, words_by}
use rinit.Unit.Name.{is_whitespace}
use rinit.Fstab.{Entry, is_swap, unescape_mount_field}
use rinit.Fstab.Mounting.{second_word, points_at, is_mounted, is_due}

-- A row of the table of mounts has the point, its escapes undone, as its second word.
pub data Mounted (point : Text) : List Text → Type 0 where
  here :
      {line : Text} {ls : List Text} {device field : Text} {rest : List Text}
      → words_by is_whitespace line ≡ device ∷ field ∷ rest
      → unescape_mount_field field ≡ point
      → Mounted point (line ∷ ls)
  later : {line : Text} {ls : List Text} → Mounted point ls → Mounted point (line ∷ ls)

-- There is a table, and the point is in one of its rows.
pub data InUse (current : Option Text) (point : Text) : Type 0 where
  in_table :
      {table : Text} → current ≡ some table → Mounted point (lines table) → InUse current point

-- An entry for swap, or one whose point is mounted already, is passed over.
abbrev pub Passed : Option Text → Entry → Type 0
Passed current e = (e.fstype ≡ codes "swap") ⊎ InUse current e.mountpoint

abbrev pub Due : Option Text → Entry → Type 0
Due current e = (e.fstype ≢ codes "swap") × ¬ InUse current e.mountpoint

-- A row by its words.
row_points_at : Text → List Text → Bool
unfolding second_word
row_points_at point ws = elim (second_word ws) [
  | none ↦ false
  | some p ↦ text_eq (unescape_mount_field p) point
]

points_at-cons :
    (point line : Text) (ls : List Text)
    → points_at point (line ∷ ls)
      ≡ (row_points_at point (words_by is_whitespace line) || points_at point ls)
unfolding points_at row_points_at
points_at-cons point line ls = refl

row-Mounted :
    (point line : Text) (ls ws : List Text)
    → words_by is_whitespace line ≡ ws
    → row_points_at point ws ≡ true
    → Mounted point (line ∷ ls)
unfolding row_points_at second_word
row-Mounted point line ls (device ∷ field ∷ rest) split h =
    here split ((text_eq_iff (unescape_mount_field field) point).0 h)
row-Mounted point line ls (device ∷ []) split h = cc
row-Mounted point line ls [] split h = cc

points_at-Mounted : (point : Text) (ls : List Text) → points_at point ls ≡ true → Mounted point ls
unfolding points_at
points_at-Mounted point [] h = cc
points_at-Mounted point (line ∷ ls) h =
    let split = sym (points_at-cons point line ls) ∙ h in
    elim (Bool-cases (row_points_at point (words_by is_whitespace line))) [
      | inl found ↦ row-Mounted point line ls (words_by is_whitespace line) refl found
      | inr other ↦ later (points_at-Mounted point ls (ground arith))
    ]

Mounted-points_at : {point : Text} {ls : List Text} → Mounted point ls → points_at point ls ≡ true
unfolding row_points_at second_word
Mounted-points_at {point} (here {line} {ls} {device} {field} {rest} split e) =
    let same = (text_eq_iff (unescape_mount_field field) point).1 e in
    points_at-cons point line ls
    ∙ ap (λ ws. row_points_at point ws || points_at point ls) split
    ∙ ap (λ b. b || points_at point ls) same
Mounted-points_at {point} (later {line} {ls} h) =
    let rest = Mounted-points_at h in let step = points_at-cons point line ls in ground arith

is_mounted-InUse :
    (current : Option Text) (point : Text) → is_mounted current point ≡ true → InUse current point
unfolding is_mounted
is_mounted-InUse none point h = cc
is_mounted-InUse (some table) point h = in_table refl (points_at-Mounted point (lines table) h)

InUse-is_mounted :
    {current : Option Text} {point : Text} → InUse current point → is_mounted current point ≡ true
unfolding is_mounted
InUse-is_mounted {current} {point} (in_table {table} e h) =
    ap (λ o. is_mounted o point) e ∙ Mounted-points_at h

pub is_due-Due : (current : Option Text) (e : Entry) → is_due current e ≡ true → Due current e
unfolding is_due is_swap
is_due-Due current e h = (
  λ swap. let same = (text_eq_iff e.fstype (codes "swap")).1 swap in ground arith,
  λ used. let taken = InUse-is_mounted used in ground arith,
)

pub is_due-Passed :
    (current : Option Text) (e : Entry) → is_due current e ≡ false → Passed current e
unfolding is_due is_swap
is_due-Passed current e h = elim (Bool-cases (text_eq e.fstype (codes "swap"))) [
  | inl swap ↦ inl ((text_eq_iff e.fstype (codes "swap")).0 swap)
  | inr other ↦ inr (is_mounted-InUse current e.mountpoint (ground arith))
]
