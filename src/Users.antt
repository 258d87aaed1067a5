-- ===== src/Users.antt =====
-- crates/rinit-core/src/users.rs: names of users and groups in the text of /etc/passwd and /etc/group.
use rinit.Prelude.{
  ℕ, zero, suc, ◌+◌, ◌-◌, ◌*◌, ◌/◌, ◌%◌, ◌^◌, ◌≤◌, ◌<◌, min, max, ◌≡◌, refl, sym, ap, ◌∙◌, ◌≢◌, ◌↔◌,
  ◌⊎◌, inl, inr, Bool, true, false, not, ◌&&◌, ◌||◌, Option, none, some, List, [], ◌∷◌, ◌++◌, map,
  Memᴰ, arith, ltb, leb, ◌==◌, ==_iff, if◌then◌else◌, ltb→lt, lt→ltb, leb→le, Bool-cases,
  Option-cases, length, get_elem?, take, drop, length-append, length-drop, take-append, drop-append,
  List-cases, All, All-append, All-drop, Text, codes, text_eq, text_eq_iff, Result, ok, err, ◌>>=◌,
  ◌>>◌, Result-cases,
}
use rinit.Prelude.Word.{u32_max}
use rinit.Prelude.Slices.{split_on, trim_by}
use rinit.Prelude.Splits.{is_empty_text, lines}
use rinit.Prelude.Decimal.{parse_word}
use rinit.Unit.Name.{is_whitespace}
use mathlib.Core.Option as Opt
pub mod Rows
pub mod Membership
mod Samples

-- `trim` also strips the carriage return of a line's end.
unfoldable pub id_in : Text → Option ℕ
id_in field = parse_word u32_max (trim_by is_whitespace field)

both : Option ℕ → Option ℕ → Option (ℕ × ℕ)
both (some a) (some b) = some (a, b)
both _ _ = none

ids_of : Text → List Text → Option (ℕ × ℕ)
unfolding both id_in
ids_of name (first ∷ _ ∷ uid ∷ gid ∷ _) =
    if text_eq first name then both (id_in uid) (id_in gid) else none
ids_of name _ = none

-- The user's and the group's number in a row of passwd that is this name's.
unfoldable pub row_ids : Text → Text → Option (ℕ × ℕ)
unfolding ids_of
row_ids name line = ids_of name (split_on b':' line)

third_of : Text → List Text → Option ℕ
unfolding id_in
third_of name (first ∷ _ ∷ id ∷ _) = if text_eq first name then id_in id else none
third_of name _ = none

unfoldable pub row_id : Text → Text → Option ℕ
unfolding third_of
row_id name line = third_of name (split_on b':' line)

unfoldable pub find_map : {A : Type 0} → (Text → Option A) → List Text → Option A
find_map f [] = none
find_map f (line ∷ rest) = elim (f line) [ some a ↦ some a | none ↦ find_map f rest ]

unfoldable pub passwd_ids : Text → Text → Option (ℕ × ℕ)
unfolding find_map row_ids
passwd_ids contents name =
    if is_empty_text name then none else find_map (row_ids name) (lines contents)

unfoldable pub passwd_uid : Text → Text → Option ℕ
unfolding passwd_ids
passwd_uid contents name = Opt.map (λ (uid, _). uid) (passwd_ids contents name)

unfoldable pub id_of : Text → Text → Option ℕ
unfolding find_map row_id
id_of contents name = if is_empty_text name then none else find_map (row_id name) (lines contents)

unfoldable pub group_gid : Text → Text → Option ℕ
unfolding id_of
group_gid contents name = id_of contents name

unfoldable pub lists_member : Text → List Text → Bool
lists_member name [] = false
lists_member name (m ∷ ms) = text_eq (trim_by is_whitespace m) name || lists_member name ms

unfoldable pub granted_to : Text → Text → Option ℕ → Option ℕ
unfolding lists_member
granted_to name members none = none
granted_to name members (some gid) =
    if lists_member name (split_on b',' members) then some gid else none

unfoldable pub granted_by : Text → List Text → Option ℕ
unfolding granted_to id_in
granted_by name (_ ∷ _ ∷ gid ∷ members ∷ _) = granted_to name members (id_in gid)
granted_by name (_ ∷ _ ∷ gid ∷ []) = granted_to name [] (id_in gid)
granted_by name _ = none

-- The group that a row of group gives the user.
unfoldable pub granted : Text → Text → Option ℕ
unfolding granted_by
granted name line = granted_by name (split_on b':' line)

unfoldable pub has_gid : ℕ → List ℕ → Bool
has_gid gid [] = false
has_gid gid (g ∷ gs) = g == gid || has_gid gid gs

-- The loop of `supplementary_gids`.
unfoldable pub gids_from : Text → List ℕ → List Text → List ℕ
unfolding has_gid
gids_from name gids [] = gids
gids_from name gids (line ∷ rest) = elim (granted name line) [
  | none ↦ gids_from name gids rest
  | some gid ↦ elim (has_gid gid gids) [
    | true ↦ gids_from name gids rest
    | false ↦ gids_from name (gids ++ gid ∷ []) rest
  ]
]

unfoldable pub supplementary_gids : Text → Text → List ℕ
unfolding gids_from
supplementary_gids contents name =
    if is_empty_text name then [] else gids_from name [] (lines contents)
