-- ===== src/Prelude/Word.antt =====
-- Machine words: the saturating, wrapping and shifting operations of u32 and u64.
use Prim.Native.Nat.{ℕ, ◌+◌, ◌-◌, ◌*◌, ◌/◌, ◌%◌, ◌^◌, min}

abbrev pub u32_mod : ℕ
u32_mod = 4294967296

abbrev pub u64_mod : ℕ
u64_mod = 18446744073709551616

abbrev pub u32_max : ℕ
u32_max = 4294967295

abbrev pub u64_max : ℕ
u64_max = 18446744073709551615

-- saturating_add, saturating_sub and saturating_mul at the type's largest value.
abbrev pub sat_add : ℕ → ℕ → ℕ → ℕ
sat_add top a b = min (a + b) top

abbrev pub sat_sub : ℕ → ℕ → ℕ
sat_sub a b = a - b

abbrev pub sat_mul : ℕ → ℕ → ℕ → ℕ
sat_mul top a b = min (a * b) top

-- x << k and x >> k on u64: the bits that leave the word are lost.
abbrev pub shl64 : ℕ → ℕ → ℕ
shl64 x k = x * 2 ^ k % u64_mod

abbrev pub shr64 : ℕ → ℕ → ℕ
shr64 x k = x / 2 ^ k

abbrev pub wrapping_mul64 : ℕ → ℕ → ℕ
wrapping_mul64 a b = a * b % u64_mod
