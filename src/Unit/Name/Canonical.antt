-- ===== src/Unit/Name/Canonical.antt =====
-- crates/rinit-core/src/unit/mod.rs: canonical names and `parse`.
use rinit.Prelude.{
  ℕ, ◌≤◌, ◌≡◌, refl, ◌∙◌, ◌≢◌, ◌↔◌, inl, inr, true, not, Option, none, some, [], ◌∷◌, ◌++◌, Text,
  length, ok, err, arith, Bool-cases, codes,
}
use rinit.Prelude.Slices.{
  all, all-append, strip_suffix, strip_suffix-append, eq_of_strip_suffix, trim_by, trim_by_none,
  strip_prefix,
}
use rinit.Unit.Name.{
  UnitType, service, target, suffix, max_unit_name_bytes, UnitName, is_whitespace, is_name_char,
  is_valid_unit_name, within_bound, suffixed, resolve, parse_trimmed, parse,
}
use mathlib.Core.List.{reverse-append}

pub record IsCanonical (n : UnitName) : Type 0 where
  pub chars : all is_name_char n.canonical ≡ true
  pub bounded : length n.canonical ≤ max_unit_name_bytes
  pub body : Text
  pub body_nonempty : body ≢ []
  pub shape : n.canonical ≡ body ++ suffix n.ty

all_of_valid : (s : Text) → is_valid_unit_name s ≡ true → all is_name_char s ≡ true
unfolding is_valid_unit_name
all_of_valid [] h = cc
all_of_valid (c ∷ s) h = h

valid_nonempty : (s : Text) → is_valid_unit_name s ≡ true → s ≢ []
unfolding is_valid_unit_name
valid_nonempty [] h e = cc
valid_nonempty (c ∷ s) h e = cc

suffix_chars : (ty : UnitType) → all is_name_char (suffix ty) ≡ true
unfolding all is_name_char suffix
suffix_chars service = refl
suffix_chars target = refl

within_bound-eq-ok :
    (name : Text) (ty : UnitType) (n : UnitName)
    → within_bound name ty ≡ ok n
    → (name ≡ n.canonical) × (ty ≡ n.ty) × (length name ≤ max_unit_name_bytes)
unfolding within_bound
within_bound-eq-ok name ty n h = ground arith

within_bound-IsCanonical :
    (body : Text) (ty : UnitType) (name : Text) (n : UnitName)
    → name ≡ body ++ suffix ty
    → body ≢ []
    → all is_name_char name ≡ true
    → within_bound name ty ≡ ok n
    → IsCanonical n
within_bound-IsCanonical body ty name n shape ne chars h =
    let (same, typed, fits) = within_bound-eq-ok name ty n h in
    record {
      chars = rw same at chars;
      bounded = rw same at fits;
      body = body;
      body_nonempty = ne;
      shape = rw (same, typed) at shape;
    }

resolve-IsCanonical :
    (name : Text) (n : UnitName)
    → is_valid_unit_name name ≡ true
    → (a b : Option Text) → strip_suffix (suffix service) name ≡ a
    → strip_suffix (suffix target) name ≡ b
    → resolve name a b ≡ ok n
    → IsCanonical n
unfolding resolve suffixed
resolve-IsCanonical name n v (some []) b ha hb h = cc
resolve-IsCanonical name n v (some (c ∷ s)) b ha hb h =
    within_bound-IsCanonical (c ∷ s) service name n (eq_of_strip_suffix (suffix service) name ha)
      (λ e. cc) (all_of_valid name v) h
resolve-IsCanonical name n v none (some []) ha hb h = cc
resolve-IsCanonical name n v none (some (c ∷ s)) ha hb h =
    within_bound-IsCanonical (c ∷ s) target name n (eq_of_strip_suffix (suffix target) name hb)
      (λ e. cc) (all_of_valid name v) h
resolve-IsCanonical name n v none none ha hb h =
    within_bound-IsCanonical name service (name ++ suffix service) n refl (valid_nonempty name v)
      (ground (
        arith,
        all-append is_name_char name (suffix service),
        all_of_valid name v,
        suffix_chars service,
      ))
      h

-- A name that `parse` returns is canonical: its characters are admissible, at most 255 of them,
-- and it is a stem that is not empty followed by the suffix of its type.
pub parse-IsCanonical : (s : Text) (n : UnitName) → parse s ≡ ok n → IsCanonical n
unfolding parse
parse-IsCanonical s n h =
    let name = trim_by is_whitespace s in
    elim (Bool-cases (is_valid_unit_name name)) [
      | inl v ↦ resolve-IsCanonical name n v _ _ refl refl (rw (v, parse_trimmed) at h)
      | inr bad ↦ let no_name : err _ ≡ ok n = rw (bad, parse_trimmed) at h in cc
    ]

no_space : (c : ℕ) → is_name_char c ≡ true → not (is_whitespace c) ≡ true
unfolding is_name_char is_whitespace
no_space c h = ground arith

no_spaces : (s : Text) → all is_name_char s ≡ true → all (λ c. not (is_whitespace c)) s ≡ true
unfolding all
no_spaces [] h = refl
no_spaces (c ∷ s) h = ground (arith, no_space c, no_spaces s)

valid_of_all : (s : Text) → s ≢ [] → all is_name_char s ≡ true → is_valid_unit_name s ≡ true
unfolding is_valid_unit_name
valid_of_all [] ne h = absurd (ne refl)
valid_of_all (c ∷ s) ne h = h

append_nonempty : (s t : Text) → s ≢ [] → s ++ t ≢ []
append_nonempty [] t ne e = ne refl
append_nonempty (c ∷ s) t ne e = cc

-- No text ends both in `.service` and in `.target`.
target_not_service : (s : Text) → strip_suffix (suffix service) (s ++ suffix target) ≡ none
unfolding strip_suffix strip_prefix suffix
target_not_service s = rw (reverse-append s (codes ".target"))

suffixed_nonempty :
    (name s : Text) (ty : UnitType) → s ≢ [] → suffixed name s ty ≡ within_bound name ty
unfolding suffixed
suffixed_nonempty name [] ty ne = absurd (ne refl)
suffixed_nonempty name (c ∷ s) ty ne = refl

resolve_canonical :
    (s : Text) (ty : UnitType)
    → s ≢ []
    → let name = s ++ suffix ty in
      resolve name (strip_suffix (suffix service) name) (strip_suffix (suffix target) name)
      ≡ within_bound name ty
unfolding resolve
resolve_canonical s service ne =
    rw (strip_suffix-append s (suffix service)) (suffixed_nonempty _ s service ne)
resolve_canonical s target ne =
    rw (target_not_service s, strip_suffix-append s (suffix target))
      (suffixed_nonempty _ s target ne)

within_bound_fits :
    (n : UnitName) → length n.canonical ≤ max_unit_name_bytes → within_bound n.canonical n.ty ≡ ok n
unfolding within_bound
within_bound_fits n h = ground arith

-- A canonical name is read back as itself.
pub parse_canonical : (n : UnitName) → IsCanonical n → parse n.canonical ≡ ok n
unfolding parse parse_trimmed
parse_canonical n c =
    let ne : n.canonical ≢ [] = rw c.shape (append_nonempty c.body (suffix n.ty) c.body_nonempty) in
    let resolved = resolve_canonical c.body n.ty c.body_nonempty in
    rw
      (
        trim_by_none is_whitespace n.canonical (no_spaces n.canonical c.chars),
        valid_of_all n.canonical ne c.chars,
      )
      ((rw (← c.shape) at resolved) ∙ within_bound_fits n c.bounded)

-- A name is canonical exactly when `parse` reads its own text as that name. So the names in use
-- are the fixed points of parsing, and printing one and reading it again loses nothing.
pub canonical_iff_parse : (n : UnitName) → IsCanonical n ↔ (parse n.canonical ≡ ok n)
canonical_iff_parse n = (parse_canonical n, parse-IsCanonical n.canonical n)
