-- ===== src/Prelude/Order.antt =====
-- Strict linear orders as an interface, and the derived orders of texts, pairs and records.
use rinit.Prelude.Tests.{ltb, ◌==◌}
use rinit.Prelude.Texts.{Text}
use Prim.Native.Nat.{ℕ}
use mathlib.Core.Path.{◌≡◌, refl}
use mathlib.Core.Logic.{◌↔◌}
use mathlib.Core.Bool.{Bool, true, false, not, ◌&&◌, ◌||◌}
use mathlib.Core.List.{[], ◌∷◌}
use native.Mathlib.Omega.{arith}

-- `before a b` says that `a` stands before `b`.
pub record Order {ℓ} (A : Type ℓ) : Type ℓ where
  pub before : A → A → Bool
  pub irreflexive : (a : A) → before a a ≡ false
  pub transitive : (a b c : A) → before a b ≡ true → before b c ≡ true → before a c ≡ true
  pub connected : (a b : A) → before a b ≡ false → before b a ≡ false → a ≡ b

-- Equality by the order alone.
abbrev pub same {ℓ} : {A : Type ℓ} → Order A → A → A → Bool
same o a b = not (o.before a b) && not (o.before b a)

pub same_iff {ℓ} : {A : Type ℓ} (o : Order A) (a b : A) → (same o a b ≡ true) ↔ (a ≡ b)
same_iff o a b = (λ h. o.connected a b (ground arith) (ground arith), λ e. rw (e, o.irreflexive b))

-- The order of the numbers.
pub num_irreflexive : (a : ℕ) → ltb a a ≡ false
num_irreflexive a = ground arith

pub num_transitive : (a b c : ℕ) → ltb a b ≡ true → ltb b c ≡ true → ltb a c ≡ true
num_transitive a b c p q = ground arith

pub num_connected : (a b : ℕ) → ltb a b ≡ false → ltb b a ≡ false → a ≡ b
num_connected a b p q = ground arith

abbrev pub num_order : Order ℕ
num_order = record {
  before = ltb;
  irreflexive = num_irreflexive;
  transitive = num_transitive;
  connected = num_connected;
}

-- The lexicographic order of texts.
unfoldable pub text_before : Text → Text → Bool
text_before [] [] = false
text_before [] (_ ∷ _) = true
text_before (_ ∷ _) [] = false
text_before (a ∷ s) (b ∷ t) = ltb a b || a == b && text_before s t

pub text_irreflexive : (s : Text) → text_before s s ≡ false
unfolding text_before
text_irreflexive [] = refl
text_irreflexive (a ∷ s) = ground (arith, text_irreflexive s)

pub text_transitive :
    (s t u : Text) → text_before s t ≡ true → text_before t u ≡ true → text_before s u ≡ true
unfolding text_before
text_transitive [] [] u p q = cc
text_transitive [] (b ∷ t) [] p q = cc
text_transitive [] (b ∷ t) (c ∷ u) p q = refl
text_transitive (a ∷ s) [] u p q = cc
text_transitive (a ∷ s) (b ∷ t) [] p q = cc
text_transitive (a ∷ s) (b ∷ t) (c ∷ u) p q = ground (arith, text_transitive s t u)

pub text_connected : (s t : Text) → text_before s t ≡ false → text_before t s ≡ false → s ≡ t
unfolding text_before
text_connected [] [] p q = refl
text_connected [] (b ∷ t) p q = cc
text_connected (a ∷ s) [] p q = cc
text_connected (a ∷ s) (b ∷ t) p q = ground (arith, text_connected s t)

abbrev pub text_order : Order Text
text_order = record {
  before = text_before;
  irreflexive = text_irreflexive;
  transitive = text_transitive;
  connected = text_connected;
}

-- A derived order: by the first of two keys, and by the second where the first are equal.
module _ {ℓ κ μ} {A : Type ℓ} {B : Type κ} {C : Type μ} (o : Order A) (p : Order B) (first : C → A)
    (second : C → B) (whole : (c d : C) → first c ≡ first d → second c ≡ second d → c ≡ d) where
  abbrev pub lex_before : C → C → Bool
  lex_before c d =
      o.before (first c) (first d)
      || not (o.before (first d) (first c)) && p.before (second c) (second d)

  pub lex_irreflexive : (c : C) → lex_before c c ≡ false
  lex_irreflexive c = rw (o.irreflexive (first c), p.irreflexive (second c))

  pub lex_transitive :
      (c d e : C) → lex_before c d ≡ true → lex_before d e ≡ true → lex_before c e ≡ true
  lex_transitive c d e x y = ground (
    arith,
    o.transitive (first c) (first d) (first e),
    o.transitive (first e) (first c) (first d),
    o.transitive (first d) (first e) (first c),
    o.connected (first c) (first d),
    o.connected (first d) (first e),
    o.irreflexive (first c),
    p.transitive (second c) (second d) (second e),
  )

  pub lex_connected : (c d : C) → lex_before c d ≡ false → lex_before d c ≡ false → c ≡ d
  lex_connected c d x y =
      let one : first c ≡ first d = o.connected (first c) (first d) (ground arith) (ground arith) in
      whole c d one (p.connected (second c) (second d) (ground arith) (ground arith))

  abbrev pub lex_order : Order C
  lex_order = record {
    before = lex_before;
    irreflexive = lex_irreflexive;
    transitive = lex_transitive;
    connected = lex_connected;
  }
