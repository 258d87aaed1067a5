-- ===== src/Unit/Name/Template.antt =====
-- crates/rinit-core/src/unit/mod.rs: templates, instances, and the parts of a name.
use rinit.Prelude.{
  ℕ, ◌≤◌, ◌≡◌, refl, ap, sym, ◌∙◌, ◌≢◌, Bool, true, false, Option, none, some, [], ◌∷◌, ◌++◌, Text,
  length, length-append, ok, arith,
}
use rinit.Prelude.Slices.{
  all, all-append, strip_suffix-append, split_once, split_once-append, split_once_sound, contains,
  contains-mid,
}
use rinit.Unit.Name.{
  UnitType, suffix, UnitName, is_name_char, parse, stem, nonempty, instance_of, is_template, ok_of,
  template_from, template, prefix_of, max_unit_name_bytes,
}
use rinit.Unit.Name.Canonical.{IsCanonical, parse_canonical}
use mathlib.Core.List.{append_assoc}

stem_of_shape : (n : UnitName) (body : Text) → n.canonical ≡ body ++ suffix n.ty → stem n ≡ body
unfolding stem
stem_of_shape n body e = rw (e, strip_suffix-append body (suffix n.ty))

pub stem_canonical : (n : UnitName) (c : IsCanonical n) → stem n ≡ c.body
stem_canonical n c = stem_of_shape n c.body c.shape

-- A name with an instance, taken apart.
record Parts (n : UnitName) (i : Text) : Type 0 where
  front : Text
  split : split_once b'@' (stem n) ≡ some (front, i)
  whole : stem n ≡ front ++ b'@' ∷ i
  first : contains b'@' front ≡ false
  named : i ≢ []

nonempty-eq-some : (r : Text × Text) {i : Text} → nonempty r ≡ some i → (r.1 ≡ i) × (i ≢ [])
unfolding nonempty
nonempty-eq-some (a, []) h = cc
nonempty-eq-some (a, c ∷ s) {i} h = let e : c ∷ s ≡ i = cc in (e, λ z. cc)

parts : (n : UnitName) (i : Text) → instance_of n ≡ some i → Parts n i
unfolding instance_of
parts n i h = go (split_once b'@' (stem n)) refl h
  where
    go :
        (o : Option (Text × Text))
        → split_once b'@' (stem n) ≡ o
        → (let m : Option Text = elim o [ none ↦ none | some r ↦ nonempty r ] in m) ≡ some i
        → Parts n i
    go none e m = cc
    go (some (a, b)) e m =
        let (same, ne) = nonempty-eq-some (a, b) m in
        let e' : split_once b'@' (stem n) ≡ some (a, i) = e ∙ ap (λ t. some (a, t)) same in
        let (whole, first) = split_once_sound b'@' (stem n) a i e' in
        record { front = a; split = e'; whole = whole; first = first; named = ne }

-- The template that the parts of a name point at.
template_name : Text → UnitType → UnitName
template_name front ty = record { canonical = front ++ b'@' ∷ suffix ty; ty = ty }

keeps_chars :
    (p : ℕ → Bool) (f i s : Text) (c : ℕ)
    → all p ((f ++ c ∷ i) ++ s) ≡ true
    → all p (f ++ c ∷ s) ≡ true
unfolding all
keeps_chars p f i s c h =
    ground (arith, all-append p (f ++ c ∷ i) s, all-append p f (c ∷ i), all-append p f (c ∷ s))

keeps_bound : (f i s : Text) (c n : ℕ) → length ((f ++ c ∷ i) ++ s) ≤ n → length (f ++ c ∷ s) ≤ n
keeps_bound f i s c n h =
    omega (arith, length-append (f ++ c ∷ i) s, length-append f (c ∷ i), length-append f (c ∷ s))

snoc_nonempty : (f : Text) (c : ℕ) → f ++ c ∷ [] ≢ []
snoc_nonempty [] c e = cc
snoc_nonempty (d ∷ f) c e = cc

template_name-IsCanonical :
    (n : UnitName) (i : Text) (c : IsCanonical n) (p : Parts n i)
    → IsCanonical (template_name p.front n.ty)
unfolding template_name
template_name-IsCanonical n i c p =
    let shape : n.canonical ≡ (p.front ++ b'@' ∷ i) ++ suffix n.ty =
      c.shape ∙ ap (λ t. t ++ suffix n.ty) (sym (stem_canonical n c) ∙ p.whole) in
    record {
      chars = keeps_chars is_name_char p.front i (suffix n.ty) b'@' (rw shape at c.chars);
      bounded =
          keeps_bound p.front i (suffix n.ty) b'@' max_unit_name_bytes (rw shape at c.bounded);
      body = p.front ++ b'@' ∷ [];
      body_nonempty = snoc_nonempty p.front b'@';
      shape = sym (append_assoc p.front (b'@' ∷ []) (suffix n.ty));
    }

template_from_instance :
    (ty : UnitType) (front i : Text)
    → i ≢ []
    → template_from ty (some (front, i)) ≡ ok_of (parse (front ++ b'@' ∷ suffix ty))
unfolding template_from
template_from_instance ty front [] ne = absurd (ne refl)
template_from_instance ty front (c ∷ i) ne = refl

-- What `template` promises of an instance.
pub record TemplateOf (n t : UnitName) (i : Text) : Type 0 where
  pub found : template n ≡ some t
  pub canonical : IsCanonical t
  pub is_one : is_template t ≡ true
  pub no_instance : instance_of t ≡ none
  pub same_type : t.ty ≡ n.ty
  pub same_prefix : prefix_of t ≡ prefix_of n
  pub rejoined : n.canonical ≡ (prefix_of n ++ b'@' ∷ i) ++ suffix n.ty

module _ (n t : UnitName) (front i : Text) where
  template_found :
      split_once b'@' (stem n) ≡ some (front, i)
      → i ≢ []
      → t ≡ template_name front n.ty
      → IsCanonical t
      → template n ≡ some t
  unfolding template ok_of template_name
  template_found cut ne e c =
      let read : parse (front ++ b'@' ∷ suffix n.ty) ≡ ok t =
        ap (λ u. parse u.canonical) (sym e) ∙ parse_canonical t c in
      ap (template_from n.ty) cut ∙ template_from_instance n.ty front i ne ∙ ap ok_of read

module _ (t : UnitName) (front : Text) where
  template_has :
      stem t ≡ front ++ b'@' ∷ []
      → split_once b'@' (stem t) ≡ some (front, [])
      → (is_template t ≡ true) × (instance_of t ≡ none) × (prefix_of t ≡ front)
  unfolding is_template instance_of prefix_of nonempty
  template_has back cut = ground (arith, has)
    where
      has : contains b'@' (stem t) ≡ true
      has = rw back (contains-mid b'@' front [])

prefix_of_split :
    (n : UnitName) (front i : Text)
    → split_once b'@' (stem n) ≡ some (front, i)
    → prefix_of n ≡ front
unfolding prefix_of
prefix_of_split n front i e = rw (e, prefix_of)

-- An instance `p@i` of a canonical name has a template: the canonical name `p@` of the same type,
-- which is a template and not an instance. The instance's name is made of its prefix, the `@`, its
-- instance part and its suffix.
pub template-instance_of :
    (n : UnitName) (i : Text)
    → IsCanonical n
    → instance_of n ≡ some i
    → (t : UnitName) × TemplateOf n t i
unfolding template_name
template-instance_of n i c h =
    let p = parts n i h in
    let t = template_name p.front n.ty in
    let tc = template_name-IsCanonical n i c p in
    let back : stem t ≡ p.front ++ b'@' ∷ [] =
      stem_of_shape t (p.front ++ b'@' ∷ [])
        (sym (append_assoc p.front (b'@' ∷ []) (suffix n.ty))) in
    let cut : split_once b'@' (stem t) ≡ some (p.front, []) =
      ap (split_once b'@') back ∙ split_once-append b'@' p.front [] p.first in
    let (one, bare, front) = template_has t p.front back cut in
    let mine = prefix_of_split n p.front i p.split in
    (
      t,
      record {
        found = template_found n t p.front i p.split p.named refl tc;
        canonical = tc;
        is_one = one;
        no_instance = bare;
        same_type = refl;
        same_prefix = front ∙ sym mine;
        rejoined =
            c.shape
            ∙ ap (λ b. b ++ suffix n.ty)
                (sym (stem_canonical n c) ∙ p.whole ∙ ap (λ b. b ++ b'@' ∷ i) (sym mine));
      },
    )
