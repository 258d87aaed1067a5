-- ===== src/Prelude/Decimal.antt =====
-- Unsigned numbers as `str::parse` reads them: decimal digits with an optional `+`, in a word.
use rinit.Prelude.Tests.{leb, ◌==◌, if◌then◌else◌}
use rinit.Prelude.Texts.{Text}
use Prim.Native.Nat.{ℕ, ◌+◌, ◌-◌, ◌*◌, ◌≤◌}
use mathlib.Core.Path.{◌≡◌}
use mathlib.Core.Bool.{Bool, ◌&&◌}
use mathlib.Core.Option.{Option, none, some}
use mathlib.Core.List.{[], ◌∷◌}
use native.Mathlib.Omega.{arith}

abbrev pub is_digit : ℕ → Bool
is_digit c = leb b'0' c && leb c b'9'

-- The number that `acc` and the digits behind it stand for.
unfoldable pub digits_from : ℕ → Text → Option ℕ
digits_from acc [] = some acc
digits_from acc (c ∷ s) =
    let rest = digits_from (acc * 10 + (c - b'0')) s in if is_digit c then rest else none

abbrev within : ℕ → Option ℕ → Option ℕ
within top none = none
within top (some n) = if leb n top then some n else none

unfoldable pub unsigned : ℕ → Text → Option ℕ
unfolding digits_from
unsigned top [] = none
unsigned top (c ∷ s) = within top (digits_from 0 (c ∷ s))

-- The word's largest value is `top`.
unfoldable pub parse_word : ℕ → Text → Option ℕ
unfolding unsigned
parse_word top [] = none
parse_word top (c ∷ s) = if c == b'+' then unsigned top s else unsigned top (c ∷ s)

unsigned-le : (top : ℕ) (s : Text) (n : ℕ) → unsigned top s ≡ some n → n ≤ top
unfolding unsigned
unsigned-le top [] n h = cc
unsigned-le top (c ∷ s) n h = ground arith

pub parse_word-le : (top : ℕ) (s : Text) (n : ℕ) → parse_word top s ≡ some n → n ≤ top
unfolding parse_word
parse_word-le top [] n h = cc
parse_word-le top (c ∷ s) n h = ground (arith, unsigned-le top s n, unsigned-le top (c ∷ s) n)
