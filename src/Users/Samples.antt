-- ===== src/Users/Samples.antt =====
-- crates/rinit-core/src/users.rs: the theorem on a concrete file, and tests.
use rinit.Prelude.{
  ℕ, zero, suc, ◌+◌, ◌-◌, ◌*◌, ◌/◌, ◌%◌, ◌^◌, ◌≤◌, ◌<◌, min, max, ◌≡◌, refl, sym, ap, ◌∙◌, ◌≢◌, ◌↔◌,
  ◌⊎◌, inl, inr, Bool, true, false, not, ◌&&◌, ◌||◌, Option, none, some, List, [], ◌∷◌, ◌++◌, map,
  Memᴰ, arith, ltb, leb, ◌==◌, ==_iff, if◌then◌else◌, ltb→lt, lt→ltb, leb→le, Bool-cases,
  Option-cases, length, get_elem?, take, drop, length-append, length-drop, take-append, drop-append,
  List-cases, All, All-append, All-drop, Text, codes, text_eq, text_eq_iff, Result, ok, err, ◌>>=◌,
  ◌>>◌, Result-cases,
}
use rinit.Prelude.Splits.{lines}
use rinit.Users.{passwd_ids, passwd_uid, group_gid, has_gid, supplementary_gids}
use rinit.Users.Rows.{Granted}
use rinit.Users.Membership.{Distinct, supplementary_gids_exact}

abbrev groups : Text
groups =
    codes "root:x:0:\nwheel:x:10:ann\naudio:x:63: ann ,dave\nshort:x\nwheel2:x:10:ann\nlast:x:7"

supplementary_gids_exact_example :
    ((gid : ℕ)
      → (has_gid gid (supplementary_gids groups (codes "ann")) ≡ true)
        ↔ Granted (codes "ann") gid (lines groups))
    × Distinct (supplementary_gids groups (codes "ann"))
unfolding rinit.Prelude.Splits.is_empty_text
supplementary_gids_exact_example = supplementary_gids_exact groups (codes "ann") refl

supplementary_gids-groups :
    (supplementary_gids groups (codes "ann") ≡ 10 ∷ 63 ∷ []) × (supplementary_gids groups [] ≡ [])
unfolding supplementary_gids rinit.Prelude.Splits.is_empty_text lines rinit.Users.granted
    rinit.Prelude.Slices.split_on rinit.Prelude.Slices.strip_suffix
    rinit.Prelude.Slices.strip_prefix rinit.Prelude.Decimal.parse_word rinit.Prelude.Slices.trim_by
    rinit.Prelude.Slices.trim_start rinit.Unit.Name.is_whitespace text_eq
supplementary_gids-groups = (refl, refl)

passwd_ids-rows :
    (passwd_ids (codes "u:x:7::/h:/s\nu:x:8:9:g:/h:/s\r\n") (codes "u") ≡ some (8, 9))
    × (passwd_uid (codes "rootx:x:7:7::/:/b\n") (codes "root") ≡ none)
    × (group_gid groups (codes "last") ≡ some 7)
unfolding passwd_ids passwd_uid group_gid rinit.Prelude.Splits.is_empty_text lines
    rinit.Prelude.Slices.split_on rinit.Prelude.Slices.strip_suffix
    rinit.Prelude.Slices.strip_prefix text_eq rinit.Prelude.Decimal.parse_word
    rinit.Prelude.Slices.trim_by rinit.Prelude.Slices.trim_start rinit.Unit.Name.is_whitespace
passwd_ids-rows = (refl, refl, refl)
