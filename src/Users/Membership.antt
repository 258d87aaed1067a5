-- ===== src/Users/Membership.antt =====
-- crates/rinit-core/src/users.rs: the supplementary groups are those that list the user.
use rinit.Prelude.{
  ℕ, ◌≡◌, ◌↔◌, ap, sym, refl, ◌∙◌, inl, inr, Bool, true, false, ◌||◌, Option, none, some, List, [],
  ◌∷◌, ◌++◌, arith, ◌==◌, ==_iff, Bool-cases, Option-cases, Text,
}
use rinit.Prelude.Splits.{is_empty_text, lines}
use rinit.Users.Rows.{Granted, here, later, granted-Grants, Grants-granted}
use rinit.Users.{granted, has_gid, gids_from, supplementary_gids}

-- No number is there twice.
unfoldable pub Distinct : List ℕ → Type 0
Distinct [] = Unit
Distinct (g ∷ gs) = (has_gid g gs ≡ false) × Distinct gs

abbrev gives : ℕ → Option ℕ → Bool
gives gid none = false
gives gid (some g) = g == gid

-- Whether a row gives the user this group.
unfoldable any_grants : Text → ℕ → List Text → Bool
any_grants name gid [] = false
any_grants name gid (line ∷ rest) = gives gid (granted name line) || any_grants name gid rest

has_gid-snoc : (x g : ℕ) (gs : List ℕ) → has_gid x (gs ++ g ∷ []) ≡ (has_gid x gs || g == x)
unfolding has_gid
has_gid-snoc x g [] = ground arith
has_gid-snoc x g (h ∷ gs) = ground (arith, has_gid-snoc x g gs)

Distinct-snoc : (g : ℕ) (gs : List ℕ) → Distinct gs → has_gid g gs ≡ false → Distinct (gs ++ g ∷ [])
unfolding Distinct has_gid
Distinct-snoc g [] d h = (refl, tt)
Distinct-snoc g (x ∷ gs) d h =
    (ground (arith, has_gid-snoc x g gs), Distinct-snoc g gs d.1 (ground arith))

already :
    (x g : ℕ) (gids : List ℕ) (b : Bool)
    → has_gid g gids ≡ true
    → (has_gid x gids || b) ≡ (has_gid x gids || (g == x || b))
already x g gids b h = elim (Bool-cases (g == x)) [
  | inr other ↦ rw (other)
  | inl e ↦ rw (← (==_iff g x).0 e, h)
]

gids_from-exact :
    (name : Text) (gids : List ℕ) (ls : List Text) (x : ℕ)
    → has_gid x (gids_from name gids ls) ≡ (has_gid x gids || any_grants name x ls)
unfolding gids_from any_grants
gids_from-exact name gids [] x = ground arith
gids_from-exact name gids (line ∷ rest) x = elim (Option-cases (granted name line)) [
  | inl nothing ↦ rw (nothing, gids_from, any_grants) (gids_from-exact name gids rest x)
  | inr (g, gives) ↦ elim (Bool-cases (has_gid g gids)) [
    | inl old ↦
        rw (gives, old, gids_from, any_grants)
          (gids_from-exact name gids rest x ∙ already x g gids (any_grants name x rest) old)
    | inr new ↦
        rw (gives, new, gids_from, any_grants)
          (gids_from-exact name (gids ++ g ∷ []) rest x ∙ ground (arith, has_gid-snoc x g gids))
  ]
]

gids_from-Distinct :
    (name : Text) (gids : List ℕ) (ls : List Text)
    → Distinct gids
    → Distinct (gids_from name gids ls)
unfolding gids_from
gids_from-Distinct name gids [] d = d
gids_from-Distinct name gids (line ∷ rest) d = elim (Option-cases (granted name line)) [
  | inl nothing ↦ rw (nothing, gids_from) (gids_from-Distinct name gids rest d)
  | inr (g, gives) ↦ elim (Bool-cases (has_gid g gids)) [
    | inl old ↦ rw (gives, old, gids_from) (gids_from-Distinct name gids rest d)
    | inr new ↦
        rw (gives, new, gids_from)
          (gids_from-Distinct name (gids ++ g ∷ []) rest (Distinct-snoc g gids d new))
  ]
]

any_grants-Granted :
    (name : Text) (gid : ℕ) (ls : List Text)
    → is_empty_text name ≡ false
    → any_grants name gid ls ≡ true
    → Granted name gid ls
unfolding any_grants
any_grants-Granted name gid [] ne h = cc
any_grants-Granted name gid (line ∷ rest) ne h = elim (Option-cases (granted name line)) [
  | inl nothing ↦ later (any_grants-Granted name gid rest ne (rw (nothing, any_grants) at h))
  | inr (g, given) ↦ elim (Bool-cases (g == gid)) [
    | inl same ↦ here (granted-Grants name line gid ne (given ∙ ap some ((==_iff g gid).0 same)))
    | inr other ↦ later (any_grants-Granted name gid rest ne (rw (given, other, any_grants) at h))
  ]
]

Granted-any_grants :
    {name : Text} {gid : ℕ} {ls : List Text} → Granted name gid ls → any_grants name gid ls ≡ true
unfolding any_grants
Granted-any_grants {gid} (here g) =
    let given = Grants-granted g in
    let same = (==_iff gid gid).1 refl in rw (given, same, any_grants) refl
Granted-any_grants (later h) = ground (arith, Granted-any_grants h)

-- The supplementary groups of a user with a name are exactly those of the rows of at least four
-- fields whose third is the group's number and whose fourth, parted at commas and without the blanks
-- around each member, has the user's name; and each is there once.
pub supplementary_gids_exact :
    (contents name : Text)
    → is_empty_text name ≡ false
    → ((gid : ℕ)
        → (has_gid gid (supplementary_gids contents name) ≡ true)
          ↔ Granted name gid (lines contents))
      × Distinct (supplementary_gids contents name)
unfolding supplementary_gids has_gid Distinct
supplementary_gids_exact contents name h =
    (λ gid. exact gid, rw (h) (gids_from-Distinct name [] (lines contents) tt))
  where
    exact :
        (gid : ℕ)
        → (has_gid gid (supplementary_gids contents name) ≡ true)
          ↔ Granted name gid (lines contents)
    exact gid =
        let same : has_gid gid (supplementary_gids contents name)
            ≡ any_grants name gid (lines contents) =
          rw (h) (gids_from-exact name [] (lines contents) gid) in
        (
          λ e. any_grants-Granted name gid (lines contents) h (sym same ∙ e),
          λ g. same ∙ Granted-any_grants g,
        )
