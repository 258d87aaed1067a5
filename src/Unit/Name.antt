-- ===== src/Unit/Name.antt =====
-- crates/rinit-core/src/unit/mod.rs: the validated names of units.
-- A name is a list of code points. A valid one is ASCII, so its bytes are its code points.
use rinit.Prelude.{
  ℕ, zero, suc, ◌≡◌, ◌↔◌, Bool, true, false, not, ◌&&◌, ◌||◌, ◌==◌, ltb, leb, if◌then◌else◌, Option,
  none, some, List, [], ◌∷◌, ◌++◌, Text, text_eq, text_eq_iff, codes, length, Result, ok, err,
  arith,
}
use rinit.Prelude.Slices.{all, strip_suffix, trim_by, split_once, contains}
use mathlib.Core.Option as Opt
pub mod Canonical
pub mod Template
mod Samples

pub data UnitType : Type 0 where
  service target : UnitType

unfoldable pub suffix : UnitType → Text
suffix service = codes ".service"
suffix target = codes ".target"

abbrev pub max_unit_name_bytes : ℕ
max_unit_name_bytes = 255

pub record UnitName : Type 0 where
  pub canonical : Text
  pub ty : UnitType

-- The one error that `parse` raises; the other cases of CoreError come from other modules.
pub data NameError : Type 0 where
  invalid_unit_name : Text → NameError

-- The code points with the property White_Space, which `str::trim` removes.
unfoldable pub is_whitespace : ℕ → Bool
is_whitespace c =
    leb 9 c && leb c 13
    || c == 0x20
    || c == 0x85
    || c == 0xa0
    || c == 0x1680
    || leb 0x2000 c && leb c 0x200a
    || c == 0x2028
    || c == 0x2029
    || c == 0x202f
    || c == 0x205f
    || c == 0x3000

unfoldable pub is_name_char : ℕ → Bool
is_name_char b =
    leb b'0' b && leb b b'9'
    || leb b'A' b && leb b b'Z'
    || leb b'a' b && leb b b'z'
    || b == b':'
    || b == b'_'
    || b == b'.'
    || b == b'@'
    || b == b'-'

unfoldable pub is_valid_unit_name : Text → Bool
unfolding is_name_char all
is_valid_unit_name [] = false
is_valid_unit_name (c ∷ s) = all is_name_char (c ∷ s)

-- The name that a stem and a type stand for, unless it is empty or too long.
within_bound : Text → UnitType → Result NameError UnitName
within_bound canonical ty =
    if ltb max_unit_name_bytes (length canonical)
    then err (invalid_unit_name canonical)
    else ok (record { canonical = canonical; ty = ty })

suffixed : Text → Text → UnitType → Result NameError UnitName
unfolding within_bound
suffixed name [] ty = err (invalid_unit_name name)
suffixed name (_ ∷ _) ty = within_bound name ty

resolve : Text → Option Text → Option Text → Result NameError UnitName
unfolding suffixed within_bound suffix
resolve name (some stem) _ = suffixed name stem service
resolve name none (some stem) = suffixed name stem target
resolve name none none = within_bound (name ++ suffix service) service

parse_trimmed : Text → Result NameError UnitName
unfolding is_valid_unit_name resolve
parse_trimmed name =
    if is_valid_unit_name name
    then resolve name (strip_suffix (suffix service) name) (strip_suffix (suffix target) name)
    else err (invalid_unit_name name)

unfoldable pub parse : Text → Result NameError UnitName
unfolding parse_trimmed
parse name = parse_trimmed (trim_by is_whitespace name)

unfoldable pub stem : UnitName → Text
stem n = Opt.get_or (strip_suffix (suffix n.ty) n.canonical) n.canonical

-- What stands behind the first `@`, unless nothing does.
nonempty : Text × Text → Option Text
nonempty (_, []) = none
nonempty (_, c ∷ s) = some (c ∷ s)

unfoldable pub instance_of : UnitName → Option Text
unfolding nonempty
instance_of n = elim (split_once b'@' (stem n)) [ none ↦ none | some r ↦ nonempty r ]

unfoldable pub is_template : UnitName → Bool
unfolding instance_of
is_template n = contains b'@' (stem n) && (elim (instance_of n) [ none ↦ true | some _ ↦ false ])

unfoldable pub ok_of : Result NameError UnitName → Option UnitName
ok_of (ok n) = some n
ok_of (err _) = none

template_from : UnitType → Option (Text × Text) → Option UnitName
unfolding ok_of
template_from ty none = none
template_from ty (some (prefix, [])) = none
template_from ty (some (prefix, _ ∷ _)) = ok_of (parse (prefix ++ b'@' ∷ suffix ty))

unfoldable pub template : UnitName → Option UnitName
unfolding template_from
template n = template_from n.ty (split_once b'@' (stem n))

unfoldable pub prefix_of : UnitName → Text
prefix_of n = elim (split_once b'@' (stem n)) [ none ↦ stem n | some (p, _) ↦ p ]

unfoldable pub type_eq : UnitType → UnitType → Bool
type_eq service service = true
type_eq target target = true
type_eq _ _ = false

-- The derived equality.
unfoldable pub name_eq : UnitName → UnitName → Bool
unfolding type_eq
name_eq m n = text_eq m.canonical n.canonical && type_eq m.ty n.ty

type_eq_iff : (s t : UnitType) → (type_eq s t ≡ true) ↔ (s ≡ t)
unfolding type_eq
type_eq_iff s t = ground arith

pub name_eq_iff : (m n : UnitName) → (name_eq m n ≡ true) ↔ (m ≡ n)
unfolding name_eq
name_eq_iff m n = ground (arith, text_eq_iff m.canonical n.canonical, type_eq_iff m.ty n.ty)
