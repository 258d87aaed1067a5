-- ===== src/Prelude/Printed.antt =====
-- Numbers as `to_string` writes them: their decimal digits, without leading zeros.
use rinit.Prelude.{
  ℕ, zero, suc, ◌+◌, ◌-◌, ◌*◌, ◌/◌, ◌%◌, ◌≤◌, ◌<◌, ◌≡◌, refl, sym, ap, ◌∙◌, inl, inr, true, false,
  none, some, [], ◌∷◌, ◌++◌, arith, ltb, if◌then◌else◌, ltb→lt, Bool-cases, Text,
}
use rinit.Prelude.Slices.{contains, contains-snoc}
use rinit.Prelude.Decimal.{is_digit, digits_from, unsigned, parse_word}

-- The digits of a number, at most `fuel + 1` of them.
unfoldable pub digits : ℕ → ℕ → Text
digits zero n = (b'0' + n) ∷ []
digits (suc fuel) n =
    let front = digits fuel (n / 10) in
    if ltb n 10 then (b'0' + n) ∷ [] else front ++ (b'0' + n % 10) ∷ []

-- A number has no more digits than it counts.
unfoldable pub decimal : ℕ → Text
unfolding digits
decimal n = digits n n

digits_from-snoc :
    (acc c : ℕ) (s : Text) (n : ℕ)
    → is_digit c ≡ true
    → digits_from acc s ≡ some n
    → digits_from acc (s ++ c ∷ []) ≡ some (n * 10 + (c - b'0'))
unfolding digits_from
digits_from-snoc acc c [] n h e = ground arith
digits_from-snoc acc c (d ∷ s) n h e = elim (Bool-cases (is_digit d)) [
  | inr other ↦ absurd (let bad : none ≡ some n = rw (other, digits_from) at e in cc)
  | inl digit ↦
      rw (digit) (digits_from-snoc (acc * 10 + (d - b'0')) c s n h (rw (digit, digits_from) at e))
]

digit_code : (n : ℕ) → n < 10 → (is_digit (b'0' + n) ≡ true) × ((b'0' + n) - b'0' ≡ n)
digit_code n h = (ground arith, omega arith)

digits-read : (fuel n : ℕ) → n ≤ fuel → digits_from 0 (digits fuel n) ≡ some n
unfolding digits digits_from
digits-read zero n h = let (d, back) = digit_code n (omega arith) in rw (d) (ap some (omega arith))
digits-read (suc fuel) n h = elim (Bool-cases (ltb n 10)) [
  | inl small ↦
      let (d, back) = digit_code n (ltb→lt n 10 small) in rw (small, d) (ap some (omega arith))
  | inr large ↦
      let bound : n / 10 ≤ fuel = ground arith in
      let (d, back) = digit_code (n % 10) (omega arith) in
      rw (large) (
        digits_from-snoc 0 (b'0' + n % 10) (digits fuel (n / 10)) (n / 10) d
          (digits-read fuel (n / 10) bound)
        ∙ ap some (omega arith))
]

-- The first character of a number is a digit.
digits-first :
    (fuel n : ℕ) → n ≤ fuel → (c : ℕ) × (s : Text) × (digits fuel n ≡ c ∷ s) × (is_digit c ≡ true)
unfolding digits
digits-first zero n h = (b'0' + n, [], refl, (digit_code n (omega arith)).0)
digits-first (suc fuel) n h = elim (Bool-cases (ltb n 10)) [
  | inl small ↦ (b'0' + n, [], rw (small), (digit_code n (ltb→lt n 10 small)).0)
  | inr large ↦
      let (c, s, shape, digit) = digits-first fuel (n / 10) (ground arith) in
      (c, s ++ (b'0' + n % 10) ∷ [], rw (large, shape), digit)
]

unsigned_of :
    (top c : ℕ) (s : Text) (n : ℕ)
    → digits_from 0 (c ∷ s) ≡ some n
    → n ≤ top
    → unsigned top (c ∷ s) ≡ some n
unfolding unsigned
unsigned_of top c s n e h = ground arith

parse_word_digit :
    (top c : ℕ) (s : Text) → is_digit c ≡ true → parse_word top (c ∷ s) ≡ unsigned top (c ∷ s)
unfolding parse_word
parse_word_digit top c s h = ground arith

contains-digits :
    (c fuel n : ℕ) → is_digit c ≡ false → n ≤ fuel → contains c (digits fuel n) ≡ false
unfolding contains digits
contains-digits c zero n h i = let (d, back) = digit_code n (omega arith) in ground arith
contains-digits c (suc fuel) n h i = elim (Bool-cases (ltb n 10)) [
  | inl small ↦ let (d, back) = digit_code n (ltb→lt n 10 small) in rw (small) (ground arith)
  | inr large ↦
      let (d, back) = digit_code (n % 10) (omega arith) in
      rw (large) (
        contains-snoc c (b'0' + n % 10) (digits fuel (n / 10))
        ∙ ground (arith, contains-digits c fuel (n / 10) h (ground arith)))
]

pub contains-decimal : (c n : ℕ) → is_digit c ≡ false → contains c (decimal n) ≡ false
unfolding decimal
contains-decimal c n h = contains-digits c n n h (omega arith)

-- What is written is read back.
pub parse_word-decimal : (top n : ℕ) → n ≤ top → parse_word top (decimal n) ≡ some n
unfolding parse_word unsigned decimal
parse_word-decimal top n h =
    let (c, s, shape, digit) = digits-first n n (omega arith) in
    ap (parse_word top) shape
    ∙ parse_word_digit top c s digit
    ∙ unsigned_of top c s n (ap (digits_from 0) (sym shape) ∙ digits-read n n (omega arith)) h
