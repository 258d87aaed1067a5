-- ===== src/Prelude/Slices.antt =====
-- The operations of `str` that the program uses, over code points, with their laws.
use mathlib.Core.Option as Opt
use mathlib.Core.List.{reverse, reverse-append, reverse-reverse}
use rinit.Prelude.Tests.{◌==◌, ==_iff, if◌then◌else◌, Bool-cases}
use rinit.Prelude.Texts.{Text}
use rinit.Prelude.Lists.{All}
use Prim.Native.Nat.{ℕ}
use mathlib.Core.Path.{◌≡◌, refl, ap, ap₂, sym, ◌∙◌}
use mathlib.Core.Logic.{inl, inr}
use mathlib.Core.Bool.{Bool, true, false, not, ◌&&◌, ◌||◌}
use mathlib.Core.Option.{Option, none, some}
use mathlib.Core.List.{List, [], ◌∷◌, ◌++◌}
use native.Mathlib.Omega.{arith}

module _ {ℓ} {A : Type ℓ} where
  unfoldable pub all : (A → Bool) → List A → Bool
  all p [] = true
  all p (x ∷ xs) = p x && all p xs

  pub all-append : (p : A → Bool) (xs ys : List A) → all p (xs ++ ys) ≡ (all p xs && all p ys)
  unfolding all
  all-append p [] ys = refl
  all-append p (x ∷ xs) ys = ground (arith, all-append p xs ys)

  pub all-reverse : (p : A → Bool) (xs : List A) → all p (reverse xs) ≡ all p xs
  unfolding all
  all-reverse p [] = refl
  all-reverse p (x ∷ xs) =
      ap (all p) (reverse-append (x ∷ []) xs)
      ∙ ground (arith, all-append p (reverse xs) (x ∷ []), all-reverse p xs)

unfoldable pub strip_prefix : Text → Text → Option Text
strip_prefix [] s = some s
strip_prefix (c ∷ p) [] = none
strip_prefix (c ∷ p) (d ∷ s) = if c == d then strip_prefix p s else none

pub strip_prefix-append : (p s : Text) → strip_prefix p (p ++ s) ≡ some s
unfolding strip_prefix
strip_prefix-append [] s = refl
strip_prefix-append (c ∷ p) s = ground (arith, strip_prefix-append p s)

pub eq_of_strip_prefix : (p s : Text) {r : Text} → strip_prefix p s ≡ some r → s ≡ p ++ r
unfolding strip_prefix
eq_of_strip_prefix [] s h = ground arith
eq_of_strip_prefix (c ∷ p) [] h = cc
eq_of_strip_prefix (c ∷ p) (d ∷ s) {r} h = elim (Bool-cases (c == d)) [
  | inr ne ↦ let bad : none ≡ some r = rw (ne, strip_prefix) at h in cc
  | inl e ↦
      let tail = eq_of_strip_prefix p s {r = r} (rw (e, strip_prefix) at h) in
      let same : c ≡ d = (==_iff c d).0 e in cc
]

unfoldable pub strip_suffix : Text → Text → Option Text
strip_suffix suf s = Opt.map reverse (strip_prefix (reverse suf) (reverse s))

pub strip_suffix-append : (s suf : Text) → strip_suffix suf (s ++ suf) ≡ some s
unfolding strip_suffix
strip_suffix-append s suf =
    rw (reverse-append s suf, strip_prefix-append (reverse suf) (reverse s), reverse-reverse s)

pub eq_of_strip_suffix : (suf s : Text) {r : Text} → strip_suffix suf s ≡ some r → s ≡ r ++ suf
unfolding strip_suffix
eq_of_strip_suffix suf s {r} h =
    let (t, found, turned) =
      (Opt.map-eq-some_iff reverse (strip_prefix (reverse suf) (reverse s))).0 h in
    let back = eq_of_strip_prefix (reverse suf) (reverse s) {r = t} found in
    sym (reverse-reverse s)
    ∙ ap reverse back
    ∙ reverse-append (reverse suf) t
    ∙ ap₂ (λ a b. a ++ b) turned (reverse-reverse suf)

unfoldable pub trim_start : (ℕ → Bool) → Text → Text
trim_start space [] = []
trim_start space (c ∷ s) = if space c then trim_start space s else c ∷ s

unfoldable pub trim_by : (ℕ → Bool) → Text → Text
trim_by space s = reverse (trim_start space (reverse (trim_start space s)))

trim_start_none :
    (space : ℕ → Bool) (s : Text) → all (λ c. not (space c)) s ≡ true → trim_start space s ≡ s
unfolding trim_start all
trim_start_none space [] h = refl
trim_start_none space (c ∷ s) h = ground arith

pub trim_by_none :
    (space : ℕ → Bool) (s : Text) → all (λ c. not (space c)) s ≡ true → trim_by space s ≡ s
unfolding trim_by
trim_by_none space s h = rw (
  trim_start_none space s h,
  trim_start_none space (reverse s) (all-reverse (λ c. not (space c)) s ∙ h),
  reverse-reverse s,
)

-- The first `c` divides the text.
unfoldable pub split_once : ℕ → Text → Option (Text × Text)
split_once c [] = none
split_once c (d ∷ s) =
    if d == c then some ([], s) else Opt.map (λ (a, b). (d ∷ a, b)) (split_once c s)

unfoldable pub contains : ℕ → Text → Bool
contains c [] = false
contains c (d ∷ s) = d == c || contains c s

pub split_once-append :
    (c : ℕ) (a b : Text) → contains c a ≡ false → split_once c (a ++ c ∷ b) ≡ some (a, b)
unfolding split_once contains
split_once-append c [] b h = ground arith
split_once-append c (d ∷ a) b h = ground (arith, split_once-append c a b)

pub split_once_sound :
    (c : ℕ) (s a b : Text)
    → split_once c s ≡ some (a, b)
    → (s ≡ a ++ c ∷ b) × (contains c a ≡ false)
unfolding split_once contains
split_once_sound c [] a b h = cc
split_once_sound c (d ∷ s) a b h = elim (Bool-cases (d == c)) [
  | inl e ↦ ground arith
  | inr ne ↦
      let (r, found, shape) =
        (Opt.map-eq-some_iff _ (split_once c s)).0 (rw (ne, split_once) at h) in
      let ih = split_once_sound c s r.0 r.1 found in ground arith
]

pub split_once_none : (c : ℕ) (s : Text) → split_once c s ≡ none → contains c s ≡ false
unfolding split_once contains
split_once_none c [] h = refl
split_once_none c (d ∷ s) h = ground (arith, split_once_none c s)

pub split_once_absent : (c : ℕ) (s : Text) → contains c s ≡ false → split_once c s ≡ none
unfolding split_once contains
split_once_absent c [] h = refl
split_once_absent c (d ∷ s) h = ground (arith, split_once_absent c s)

pub contains-mid : (c : ℕ) (a b : Text) → contains c (a ++ c ∷ b) ≡ true
unfolding contains
contains-mid c [] b = ground arith
contains-mid c (d ∷ a) b = ground (arith, contains-mid c a b)

-- The pieces between the separators `c`; there is always at least one.
push_front : ℕ → List Text → List Text
push_front d [] = (d ∷ []) ∷ []
push_front d (piece ∷ pieces) = (d ∷ piece) ∷ pieces

unfoldable pub split_on : ℕ → Text → List Text
unfolding push_front
split_on c [] = [] ∷ []
split_on c (d ∷ s) = if d == c then [] ∷ split_on c s else push_front d (split_on c s)

-- The pieces with a separator between each two.
unfoldable pub join_with : ℕ → List Text → Text
join_with c [] = []
join_with c (s ∷ []) = s
join_with c (s ∷ t ∷ ts) = s ++ c ∷ join_with c (t ∷ ts)

split_on_plain : (c : ℕ) (s : Text) → contains c s ≡ false → split_on c s ≡ s ∷ []
unfolding split_on contains
split_on_plain c [] h = refl
split_on_plain c (d ∷ s) h = ground (arith, split_on_plain c s)

split_on-append :
    (c : ℕ) (s t : Text) → contains c s ≡ false → split_on c (s ++ c ∷ t) ≡ s ∷ split_on c t
unfolding split_on contains
split_on-append c [] t h = ground arith
split_on-append c (d ∷ s) t h = ground (arith, split_on-append c s t)

pub split_on-join_with :
    (c : ℕ) (s : Text) (ts : List Text)
    → All (λ t. contains c t ≡ false) (s ∷ ts)
    → split_on c (join_with c (s ∷ ts)) ≡ s ∷ ts
unfolding join_with
split_on-join_with c s [] h = split_on_plain c s h.0
split_on-join_with c s (t ∷ ts) h =
    split_on-append c s (join_with c (t ∷ ts)) h.0 ∙ ap (λ r. s ∷ r) (split_on-join_with c t ts h.1)

pub contains-snoc : (d n : ℕ) (o : Text) → contains d (o ++ n ∷ []) ≡ (contains d o || n == d)
unfolding contains
contains-snoc d n [] = ground arith
contains-snoc d n (x ∷ o) = ground (arith, contains-snoc d n o)
