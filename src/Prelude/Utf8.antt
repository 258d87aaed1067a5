-- ===== src/Prelude/Utf8.antt =====
-- UTF-8 as core::str reads it: from_utf8 and String::from_utf8_lossy over one decoder.
use rinit.Prelude.Tests.{leb, ltb, ◌==◌, if◌then◌else◌}
use rinit.Prelude.Lists.{All}
use rinit.Prelude.Texts.{Text}
use Prim.Native.Nat.{ℕ, zero, suc, ◌+◌, ◌-◌, ◌*◌, ◌%◌, ◌<◌}
use mathlib.Core.Path.{◌≡◌, refl}
use mathlib.Core.Bool.{Bool, ◌&&◌}
use mathlib.Core.Option.{Option, none, some}
use mathlib.Core.List.{List, [], ◌∷◌, ◌++◌}
use native.Mathlib.Omega.{arith}
use mathlib.Core.Option as Opt

-- The bytes of a sequence still to come: how many after the next, the bits so far, and the range
-- that the next byte must lie in.
pub record Pending : Type 0 where
  pub left : ℕ
  pub bits : ℕ
  pub low : ℕ
  pub high : ℕ

-- What the first byte of a sequence says.
pub data Lead : Type 0 where
  ascii : ℕ → Lead
  opens : Pending → Lead
  invalid : Lead

abbrev between : ℕ → ℕ → ℕ → Bool
between lo hi b = leb lo b && leb b hi

abbrev opening : ℕ → ℕ → ℕ → ℕ → Lead
opening left bits low high = opens (record { left = left; bits = bits; low = low; high = high })

unfoldable pub lead : ℕ → Lead
lead b =
    if ltb b 0x80
    then ascii b
    else if between 0xc2 0xdf b
    then opening 0 (b - 0xc0) 0x80 0xbf
    else if b == 0xe0
    then opening 1 0 0xa0 0xbf
    else if b == 0xed
    then opening 1 13 0x80 0x9f
    else if between 0xe1 0xef b
    then opening 1 (b - 0xe0) 0x80 0xbf
    else if b == 0xf0
    then opening 2 0 0x90 0xbf
    else if between 0xf1 0xf3 b
    then opening 2 (b - 0xf0) 0x80 0xbf
    else if b == 0xf4
    then opening 2 4 0x80 0x8f
    else invalid

-- A byte at the start of a sequence: the pieces it completes, and the sequence it opens.
abbrev fresh : Lead → List (Option ℕ) × Option Pending
fresh (ascii c) = (some c ∷ [], none)
fresh (opens p) = ([], some p)
fresh invalid = (none ∷ [], none)

abbrev continued : ℕ → ℕ → List (Option ℕ) × Option Pending
continued zero bits = (some bits ∷ [], none)
continued (suc k) bits = ([], some (record { left = k; bits = bits; low = 0x80; high = 0xbf }))

-- A byte that the open sequence does not admit ends it as one invalid piece and starts anew.
unfoldable pub advance : Option Pending → ℕ → List (Option ℕ) × Option Pending
unfolding lead
advance none b = fresh (lead b)
advance (some p) b =
    if between p.low p.high b
    then continued p.left (p.bits * 64 + b % 64)
    else (none ∷ (fresh (lead b)).0, (fresh (lead b)).1)

-- The code points, with `none` for each piece that is not UTF-8.
unfoldable pub pieces : Option Pending → List ℕ → List (Option ℕ)
unfolding advance
pieces none [] = []
pieces (some _) [] = none ∷ []
pieces st (b ∷ bs) = (advance st b).0 ++ pieces (advance st b).1 bs

unfoldable pub whole : List (Option ℕ) → Option Text
whole [] = some []
whole (none ∷ _) = none
whole (some c ∷ ps) = Opt.map (λ s. c ∷ s) (whole ps)

unfoldable pub patched : List (Option ℕ) → Text
patched [] = []
patched (none ∷ ps) = 0xfffd ∷ patched ps
patched (some c ∷ ps) = c ∷ patched ps

unfoldable pub from_utf8 : List ℕ → Option Text
unfolding pieces whole
from_utf8 bytes = whole (pieces none bytes)

unfoldable pub from_utf8_lossy : List ℕ → Text
unfolding pieces patched
from_utf8_lossy bytes = patched (pieces none bytes)

euro : from_utf8 (0x41 ∷ 0xe2 ∷ 0x82 ∷ 0xac ∷ []) ≡ some (0x41 ∷ 0x20ac ∷ [])
unfolding from_utf8
euro = refl

cut_short :
    from_utf8_lossy (0x41 ∷ 0xe2 ∷ 0x82 ∷ 0x41 ∷ 0xff ∷ []) ≡ 0x41 ∷ 0xfffd ∷ 0x41 ∷ 0xfffd ∷ []
unfolding from_utf8_lossy
cut_short = refl

-- ASCII is read as itself.
pub from_utf8_ascii : (s : List ℕ) → All (λ c. c < 128) s → from_utf8 s ≡ some s
unfolding from_utf8
from_utf8_ascii [] h = refl
from_utf8_ascii (c ∷ s) h = ground (arith, from_utf8_ascii s h.1)
