-- ===== src/Prelude/OrdMap.antt =====
-- Ordered maps, as alloc::collections::BTreeMap: the entries in the order of their keys.
use rinit.Prelude.Tests.{if◌then◌else◌, Bool-cases}
use rinit.Prelude.Order.{Order, same, same_iff}
use mathlib.Core.Path.{◌≡◌, refl}
use mathlib.Core.Logic.{inl, inr}
use rinit.Prelude.Lists.{All, All-mono}
use mathlib.Core.Bool.{Bool, true}
use mathlib.Core.Option.{Option, none, some}
use mathlib.Core.List.{List, [], ◌∷◌}
use native.Mathlib.Omega.{arith}

abbrev pub Entries {ℓ κ} : Type ℓ → Type κ → Type (ℓ ⊔ κ)
Entries K V = List (K × V)

module _ {ℓ κ} {K : Type ℓ} {V : Type κ} (o : Order K) where
  unfoldable pub lookup : K → Entries K V → Option V
  lookup k [] = none
  lookup k ((j, v) ∷ m) = if same o j k then some v else lookup k m

  unfoldable pub insert : K → V → Entries K V → Entries K V
  insert k v [] = (k, v) ∷ []
  insert k v ((j, w) ∷ m) =
      if same o j k
      then (k, v) ∷ m
      else if o.before k j
      then (k, v) ∷ (j, w) ∷ m
      else (j, w) ∷ insert k v m

  pub lookup-insert :
      (k j : K) (v : V) (m : Entries K V)
      → lookup j (insert k v m) ≡ (if same o k j then some v else lookup j m)
  unfolding lookup insert
  lookup-insert k j v [] = refl
  lookup-insert k j v ((i, w) ∷ m) =
      ground (arith, same_iff o k j, same_iff o i k, same_iff o i j, lookup-insert k j v m)

  -- Each key stands before all that follow it.
  abbrev pub IsSorted : Entries K V → Type (ℓ ⊔ κ)
  IsSorted [] = Unit
  IsSorted ((k, v) ∷ m) = All (λ e. o.before k e.0 ≡ true) m × IsSorted m

  lookup_absent : (k : K) (m : Entries K V) → All (λ e. o.before k e.0 ≡ true) m → lookup k m ≡ none
  unfolding lookup
  lookup_absent k [] h = refl
  lookup_absent k ((j, v) ∷ m) h = ground (arith, lookup_absent k m h.1)

  pub lookup_above :
      (k j : K) (v : V) (m : Entries K V)
      → IsSorted ((j, v) ∷ m)
      → o.before k j ≡ true
      → lookup k m ≡ none
  lookup_above k j v m h b = lookup_absent k m (
      All-mono (λ (e : K × V). o.before j e.0 ≡ true) (λ e. o.before k e.0 ≡ true)
        (λ e q. o.transitive k j e.0 b q) m h.0)

  All-insert :
      (P : K → Bool) (k : K) (v : V) (m : Entries K V)
      → P k ≡ true
      → All (λ e. P e.0 ≡ true) m
      → All (λ e. P e.0 ≡ true) (insert k v m)
  unfolding insert
  All-insert P k v [] p h = (p, tt)
  All-insert P k v ((j, w) ∷ m) p h = elim (Bool-cases (same o j k)) [
    | inl e ↦ rw (e, insert) (p, h.1)
    | inr ne ↦ elim (Bool-cases (o.before k j)) [
      | inl b ↦ rw (ne, b, insert) (p, h)
      | inr a ↦ rw (ne, a, insert) (h.0, All-insert P k v m p h.1)
    ]
  ]

  pub insert-IsSorted : (k : K) (v : V) (m : Entries K V) → IsSorted m → IsSorted (insert k v m)
  unfolding insert
  insert-IsSorted k v [] h = (tt, tt)
  insert-IsSorted k v ((j, w) ∷ m) h = elim (Bool-cases (same o j k)) [
    | inl e ↦ let eq : j ≡ k = (same_iff o j k).0 e in rw (e, insert) (rw eq at h)
    | inr ne ↦ elim (Bool-cases (o.before k j)) [
      | inl b ↦
          rw (ne, b, insert)
            (
              (
                b,
                All-mono (λ (e : K × V). o.before j e.0 ≡ true) (λ e. o.before k e.0 ≡ true)
                    (λ e q. o.transitive k j e.0 b q) m h.0,
              ),
              h,
            )
      | inr a ↦
          rw (ne, a, insert)
            (All-insert (o.before j) k v m (ground arith) h.0, insert-IsSorted k v m h.1)
    ]
  ]
