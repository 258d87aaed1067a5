-- ===== src/Users/Rows.antt =====
-- crates/rinit-core/src/users.rs: the rows of /etc/group that list a user, beside the tests of the code.
use rinit.Prelude.{
  ℕ, ◌≡◌, refl, ap, ◌∙◌, ◌↔◌, inl, inr, true, false, ◌||◌, Option, none, some, List, [], ◌∷◌, arith,
  Bool-cases, Option-cases, Text, text_eq, text_eq_iff,
}
use rinit.Prelude.Word.{u32_max}
use rinit.Prelude.Slices.{split_on, trim_by}
use rinit.Prelude.Splits.{is_empty_text}
use rinit.Prelude.Decimal.{parse_word}
use rinit.Unit.Name.{is_whitespace}
use rinit.Users.{id_in, lists_member, granted_to, granted_by, granted}

-- One of the members is the name, with the blanks around it cut.
pub data Listed (name : Text) : List Text → Type 0 where
  here : {m : Text} {ms : List Text} → trim_by is_whitespace m ≡ name → Listed name (m ∷ ms)
  later : {m : Text} {ms : List Text} → Listed name ms → Listed name (m ∷ ms)

-- A row of at least four fields, of which the third is the number and the fourth lists the name.
pub data Grants (name : Text) (gid : ℕ) (line : Text) : Type 0 where
  row :
      {group password id members : Text} {rest : List Text}
      → split_on b':' line ≡ group ∷ password ∷ id ∷ members ∷ rest
      → parse_word u32_max (trim_by is_whitespace id) ≡ some gid
      → Listed name (split_on b',' members)
      → Grants name gid line

-- One of the rows does.
pub data Granted (name : Text) (gid : ℕ) : List Text → Type 0 where
  here : {line : Text} {ls : List Text} → Grants name gid line → Granted name gid (line ∷ ls)
  later : {line : Text} {ls : List Text} → Granted name gid ls → Granted name gid (line ∷ ls)

lists_member-Listed : (name : Text) (ms : List Text) → lists_member name ms ≡ true → Listed name ms
unfolding lists_member
lists_member-Listed name [] h = cc
lists_member-Listed name (m ∷ ms) h = elim (Bool-cases (text_eq (trim_by is_whitespace m) name)) [
  | inl same ↦ here ((text_eq_iff (trim_by is_whitespace m) name).0 same)
  | inr other ↦ later (lists_member-Listed name ms (rw (other, lists_member) at h))
]

Listed-lists_member : {name : Text} {ms : List Text} → Listed name ms → lists_member name ms ≡ true
unfolding lists_member
Listed-lists_member {name} (here {m} {ms} e) =
    let same = (text_eq_iff (trim_by is_whitespace m) name).1 e in ground arith
Listed-lists_member (later h) = ground (arith, Listed-lists_member h)

not-lists_member_empty :
    (name : Text) → is_empty_text name ≡ false → lists_member name (split_on b',' []) ≡ false
unfolding lists_member split_on is_empty_text trim_by text_eq rinit.Prelude.Slices.trim_start
not-lists_member_empty [] h = cc
not-lists_member_empty (c ∷ s) h = refl

granted_to-some :
    (name members : Text) (o : Option ℕ) (gid : ℕ)
    → granted_to name members o ≡ some gid
    → (o ≡ some gid) × (lists_member name (split_on b',' members) ≡ true)
unfolding granted_to
granted_to-some name members none gid h = cc
granted_to-some name members (some g) gid h =
    elim (Bool-cases (lists_member name (split_on b',' members))) [
      | inl listed ↦ (rw (listed, granted_to) at h, listed)
      | inr other ↦ absurd (let bad : none ≡ some gid = rw (other, granted_to) at h in cc)
    ]

fields-Grants :
    (name line : Text) (gid : ℕ) (fields : List Text)
    → is_empty_text name ≡ false
    → split_on b':' line ≡ fields
    → granted_by name fields ≡ some gid
    → Grants name gid line
unfolding granted_by id_in
fields-Grants name line gid (group ∷ password ∷ id ∷ members ∷ rest) ne split h =
    let (number, listed) =
      granted_to-some name members (parse_word u32_max (trim_by is_whitespace id)) gid h in
    row split number (lists_member-Listed name (split_on b',' members) listed)
fields-Grants name line gid (group ∷ password ∷ id ∷ []) ne split h =
    let (number, listed) =
      granted_to-some name [] (parse_word u32_max (trim_by is_whitespace id)) gid h in
    let empty = not-lists_member_empty name ne in cc
fields-Grants name line gid (group ∷ password ∷ []) ne split h = cc
fields-Grants name line gid (group ∷ []) ne split h = cc
fields-Grants name line gid [] ne split h = cc

pub granted-Grants :
    (name line : Text) (gid : ℕ)
    → is_empty_text name ≡ false
    → granted name line ≡ some gid
    → Grants name gid line
unfolding granted
granted-Grants name line gid ne h = fields-Grants name line gid (split_on b':' line) ne refl h

pub Grants-granted :
    {name line : Text} {gid : ℕ} → Grants name gid line → granted name line ≡ some gid
unfolding granted granted_by id_in granted_to
Grants-granted {name} (row {members} split number listed) =
    rw (split, number, Listed-lists_member listed, granted) refl
