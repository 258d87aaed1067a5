-- ===== src/Unit/Specifiers/Expansion.antt =====
-- crates/rinit-core/src/unit/template.rs: what a template's text stands for, as a relation.
use rinit.Prelude.{
  inl, inr, ℕ, ◌==◌, ==_iff, Bool-cases, Option-cases, none, some, [], ◌∷◌, ◌++◌, Text, ◌≡◌, ◌≢◌,
  refl, sym, ap, ◌∙◌, ◌↔◌, arith, if◌then◌else◌,
}
use rinit.Unit.Name.{UnitName, instance_of, prefix_of}
use rinit.Unit.Specifiers.{specifier, expand, substitute}
use mathlib.Core.List.{append_assoc, append-nil}
use mathlib.Core.Path.{subst}

-- What stands for the letter behind a `%`: the instance, the whole name, the prefix or a `%`.
pub data Stands (n : UnitName) (inst : Text) (d : ℕ) (u : Text) : Type 0 where
  the_instance : d ≡ b'i' → u ≡ inst → Stands n inst d u
  the_name : d ≡ b'n' → u ≡ n.canonical → Stands n inst d u
  the_prefix : d ≡ b'p' → u ≡ prefix_of n → Stands n inst d u
  a_percent : d ≡ b'%' → u ≡ b'%' ∷ [] → Stands n inst d u

-- A text and what it stands for: a plain character stands for itself, and a `%` with the letter
-- behind it for what that letter names.
pub data Expands (n : UnitName) (inst : Text) : Text → Text → Type 0 where
  end : Expands n inst [] []
  plain : {c : ℕ} {s t : Text} → c ≢ b'%' → Expands n inst s t → Expands n inst (c ∷ s) (c ∷ t)
  percent :
      {c d : ℕ} {s t u v : Text}
      → c ≡ b'%'
      → Stands n inst d u
      → Expands n inst s t
      → v ≡ u ++ t
      → Expands n inst (c ∷ d ∷ s) v

module _ (n : UnitName) (inst : Text) where
  specifier-Stands : (d : ℕ) (u : Text) → specifier n inst d ≡ some u → Stands n inst d u
  unfolding specifier
  specifier-Stands d u h = grind (arith, the_instance, the_name, the_prefix, a_percent)

  Stands-specifier : {d : ℕ} {u : Text} → Stands n inst d u → specifier n inst d ≡ some u
  unfolding specifier
  Stands-specifier (the_instance e f) = ground arith
  Stands-specifier (the_name e f) = ground arith
  Stands-specifier (the_prefix e f) = ground arith
  Stands-specifier (a_percent e f) = ground arith

  expand_plain :
      (out : Text) (c : ℕ) (s : Text)
      → c ≢ b'%'
      → expand n inst out (c ∷ s) ≡ expand n inst (out ++ c ∷ []) s
  unfolding expand
  expand_plain out c [] ne = ground arith
  expand_plain out c (d ∷ s) ne = elim (Bool-cases (c == b'%')) [
    | inl e ↦ absurd (ne ((==_iff c b'%').0 e))
    | inr e ↦ rw (e, expand)
  ]

  expand_percent :
      (out : Text) (c d : ℕ) (s u : Text)
      → c ≡ b'%'
      → specifier n inst d ≡ some u
      → expand n inst out (c ∷ d ∷ s) ≡ expand n inst (out ++ u) s
  unfolding expand
  expand_percent out c d s u e h = rw ((==_iff c b'%').1 e, h, expand)

  Expands-expand :
      {s t : Text} (out : Text) → Expands n inst s t → expand n inst out s ≡ some (out ++ t)
  unfolding expand
  Expands-expand out end = rw append-nil
  Expands-expand out (plain {c} {s} {t} ne h) =
      expand_plain out c s ne
      ∙ Expands-expand (out ++ c ∷ []) h
      ∙ ap some (append_assoc out (c ∷ []) t)
  Expands-expand out (percent {c} {d} {s} {t} {u} {v} e st h w) =
      expand_percent out c d s u e (Stands-specifier st)
      ∙ Expands-expand (out ++ u) h
      ∙ ap some (append_assoc out u t ∙ ap (λ r. out ++ r) (sym w))

  -- What the loop added to the text that was there, and why.
  abbrev Added : Text → Text → Text → Type 0
  Added out s r = (t : Text) × Expands n inst s t × (r ≡ out ++ t)

  expand-Expands : (s out r : Text) → expand n inst out s ≡ some r → Added out s r
  unfolding expand
  expand-Expands [] out r h = ([], end, ground (arith, append-nil out))
  expand-Expands (c ∷ []) out r h = elim (Bool-cases (c == b'%')) [
    | inl e ↦ let bad : none ≡ some r = rw (e, expand) at h in cc
    | inr e ↦ (c ∷ [], plain (λ q. cc ((==_iff c b'%').1 q)) end, ground arith)
  ]
  expand-Expands (c ∷ d ∷ s) out r h = elim (Bool-cases (c == b'%')) [
    | inl e ↦ elim (Option-cases (specifier n inst d)) [
      | inl nothing ↦ let bad : none ≡ some r = rw (e, nothing, expand) at h in cc
      | inr (u, found) ↦
          let (t, x, w) = expand-Expands s (out ++ u) r (rw (e, found, expand) at h) in
          (
            u ++ t,
            percent ((==_iff c b'%').0 e) (specifier-Stands d u found) x refl,
            w ∙ append_assoc out u t,
          )
    ]
    | inr e ↦
        let (t, x, w) = expand-Expands (d ∷ s) (out ++ c ∷ []) r (rw (e, expand) at h) in
        (c ∷ t, plain (λ q. cc ((==_iff c b'%').1 q)) x, w ∙ append_assoc out (c ∷ []) t)
  ]

-- `substitute` answers with a text exactly when the name has an instance and the template's text
-- expands to that text for it. So it fails on a name with no instance, on a `%` at the end and on
-- a `%` with any other letter behind it, and what it answers is the only expansion.
pub substitute_iff_Expands :
    (text : Text) (n : UnitName) (out : Text)
    → (substitute text n ≡ some out)
      ↔ ((inst : Text) × (instance_of n ≡ some inst) × Expands n inst text out)
unfolding substitute
substitute_iff_Expands text n out = (sound, complete)
  where
    sound :
        substitute text n ≡ some out
        → (inst : Text) × (instance_of n ≡ some inst) × Expands n inst text out
    sound h = elim (Option-cases (instance_of n)) [
      | inl nothing ↦ let bad : none ≡ some out = rw (nothing, substitute) at h in cc
      | inr (inst, has) ↦
          let (t, x, w) = expand-Expands n inst text [] out (rw (has, substitute) at h) in
          (inst, has, subst (Expands n inst text) (sym w) x)
    ]

    complete :
        (inst : Text) × (instance_of n ≡ some inst) × Expands n inst text out
        → substitute text n ≡ some out
    complete (inst, has, x) = rw (has, substitute) (Expands-expand n inst [] x)

-- Every `%` written twice, which is how a template writes a text literally.
unfoldable pub escape : Text → Text
escape [] = []
escape (c ∷ s) = if c == b'%' then b'%' ∷ b'%' ∷ escape s else c ∷ escape s

escape-Expands : (n : UnitName) (inst s : Text) → Expands n inst (escape s) s
unfolding escape
escape-Expands n inst [] = end
escape-Expands n inst (c ∷ s) = elim (Bool-cases (c == b'%')) [
  | inl e ↦ rw e (
      percent refl (a_percent refl refl) (escape-Expands n inst s)
        (ap (λ d. d ∷ s) ((==_iff c b'%').0 e)))
  | inr e ↦ rw e (plain (λ q. cc ((==_iff c b'%').1 q)) (escape-Expands n inst s))
]

-- For a name with an instance, a text whose per cents are doubled is expanded to that text.
substitute-escape :
    (s : Text) (n : UnitName) (inst : Text)
    → instance_of n ≡ some inst
    → substitute (escape s) n ≡ some s
substitute-escape s n inst h =
    (substitute_iff_Expands (escape s) n s).1 (inst, h, escape-Expands n inst s)
