-- ===== src/Logger/Eviction.antt =====
-- crates/rinit-core/src/logger.rs: what evicting and truncating keep.
use rinit.Prelude.{
  ℕ, zero, suc, ◌+◌, ◌-◌, ◌≤◌, ◌<◌, max, ◌≡◌, refl, sym, inl, inr, List, [], ◌∷◌, ◌++◌, arith, ltb,
  Bool-cases, length, take, drop,
}
use mathlib.Core.Path.{subst}
use rinit.Control.Wire.{Bytes}
use rinit.Control.Responses.{back_up}
use rinit.Logger.{LogLine, line_cost, truncate, evict}

unfoldable pub total : ℕ → List LogLine → ℕ
unfolding line_cost
total overhead [] = 0
total overhead (l ∷ ls) = line_cost overhead l.unit l.text + total overhead ls

pub total-snoc :
    (o : ℕ) (ls : List LogLine) (l : LogLine)
    → total o (ls ++ l ∷ []) ≡ total o ls + line_cost o l.unit l.text
unfolding total
total-snoc o [] l = omega arith
total-snoc o (m ∷ ls) l = ground (arith, total-snoc o ls l)

-- The longest end of the lines that fits: as few as need be are dropped, from the front.
pub record IsLongestEnd (o max : ℕ) (ls kept : List LogLine) : Type 0 where
  pub dropped : ℕ
  pub shape : kept ≡ drop dropped ls
  pub fits : total o kept ≤ max
  pub least : (j : ℕ) → j < dropped → max < total o (drop j ls)

-- The lines that are kept, and their bytes.
abbrev pub Exact : ℕ → ℕ → List LogLine → List LogLine × ℕ → Type 0
Exact o max ls (kept, bytes) = (bytes ≡ total o kept) × IsLongestEnd o max ls kept

earlier :
    (o max : ℕ) (l : LogLine) (ls : List LogLine) (k : ℕ)
    → max < total o (l ∷ ls)
    → ((j : ℕ) → j < k → max < total o (drop j ls))
    → (j : ℕ) → j < suc k
    → max < total o (drop j (l ∷ ls))
earlier o max l ls k h least zero i = h
earlier o max l ls k h least (suc j) i = least j (omega arith)

pub evict-longest :
    (o max : ℕ) (ls : List LogLine) (bytes : ℕ)
    → bytes ≡ total o ls
    → Exact o max ls (evict o max ls bytes)
unfolding evict total
evict-longest o max [] bytes h = (
  h,
  record { dropped = 0; shape = refl; fits = omega arith; least = λ j i. absurd (omega arith) },
)
evict-longest o max (l ∷ ls) bytes h = elim (Bool-cases (ltb max bytes)) [
  | inr fits ↦
      let run : evict o max (l ∷ ls) bytes ≡ (l ∷ ls, bytes) = rw (fits, evict) in
      subst (Exact o max (l ∷ ls)) (sym run) (
        h,
        record {
          dropped = 0;
          shape = refl;
          fits = ground arith;
          least = λ j i. absurd (omega arith);
        },
      )
  | inl over ↦
      let rest = bytes - line_cost o l.unit l.text in
      let run : evict o max (l ∷ ls) bytes ≡ evict o max ls rest = rw (over, evict) in
      let (sum, e) = evict-longest o max ls rest (omega arith) in
      subst (Exact o max (l ∷ ls)) (sym run) (
        sum,
        record {
          dropped = suc e.dropped;
          shape = e.shape;
          fits = e.fits;
          least = earlier o max l ls e.dropped (ground arith) e.least;
        },
      )
]

length-take_le : (n : ℕ) (s : Bytes) → length (take n s) ≤ n
length-take_le zero s = omega arith
length-take_le (suc n) [] = omega arith
length-take_le (suc n) (c ∷ s) = ground (arith, length-take_le n s)

back_up_le : (text : Bytes) (n : ℕ) → back_up text n ≤ n
unfolding back_up
back_up_le text zero = omega arith
back_up_le text (suc n) = ground (arith, back_up_le text n)

pub length-truncate : (text : Bytes) (max : ℕ) → length (truncate text max) ≤ max
unfolding truncate
length-truncate text max =
    ground (arith, back_up_le text max, length-take_le (back_up text max) text)
