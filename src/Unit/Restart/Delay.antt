-- ===== src/Unit/Restart/Delay.antt =====
-- crates/rinit-core/src/unit/restart.rs: the delay before a restart.
use rinit.Prelude.{
  ℕ, zero, suc, ◌+◌, ◌-◌, ◌*◌, ◌/◌, ◌^◌, ◌≤◌, min, ◌≡◌, refl, inl, inr, some, [], ◌∷◌, ◌++◌, arith,
  ◌==◌, if◌then◌else◌, Bool-cases,
}
use rinit.Prelude.Word.{u32_max, u64_max, sat_add, sat_mul}
use rinit.Prelude.Duration.{Duration, from_millis}
use rinit.Unit.Job.{Millis}
use rinit.Unit.Restart.{
  as_millis, Jitter, next_below, BackoffState, backoff_exponent_cap, factor_of, next_delay,
  has_been_stable_since, count_failure, judge, on_failure, trim, expire,
}

pub as_millis-from_millis : (ms : ℕ) → ms ≤ u64_max → as_millis (from_millis ms) ≡ ms
unfolding as_millis
as_millis-from_millis ms h = omega arith

next_below_le : (j : Jitter) (bound : ℕ) → (next_below j bound).1 ≤ bound
unfolding next_below
next_below_le j bound = ground arith

pow_cases : (n : ℕ) → n ≤ 5 → (2 ^ n ≤ 32) × (factor_of n ≡ 2 ^ n)
unfolding factor_of
pow_cases zero h = (omega arith, refl)
pow_cases (suc zero) h = (omega arith, refl)
pow_cases (suc (suc zero)) h = (omega arith, refl)
pow_cases (suc (suc (suc zero))) h = (omega arith, refl)
pow_cases (suc (suc (suc (suc zero)))) h = (omega arith, refl)
pow_cases (suc (suc (suc (suc (suc zero))))) h = (omega arith, refl)
pow_cases (suc (suc (suc (suc (suc (suc n)))))) h = absurd (omega arith)

-- The exponent that a count of restarts leads to.
abbrev pub exponent_of : ℕ → ℕ
exponent_of n = min (n - 1) backoff_exponent_cap

-- The base times two to the exponent, and at most a quarter of the base more.
abbrev pub Within : ℕ → ℕ → ℕ → Type 0
Within base n d = (base * 2 ^ exponent_of n ≤ d) × (d ≤ base * 2 ^ exponent_of n + base / 4)

scaled_exact :
    (base n : ℕ)
    → n ≤ 5
    → base * 32 ≤ u64_max
    → min (sat_mul u64_max base (factor_of n)) (sat_mul u64_max base (2 ^ backoff_exponent_cap))
      ≡ base * 2 ^ n
scaled_exact base n h fits =
    let (small, same) = pow_cases n h in
    let below : base * 2 ^ n ≤ base * 32 = grind arith in rw same (omega arith)

sum_within :
    (p q e : ℕ)
    → e ≤ q
    → p + q ≤ u64_max
    → let d = as_millis (from_millis (sat_add u64_max p e)) in (p ≤ d) × (d ≤ p + q)
sum_within p q e h fits =
    let d = as_millis-from_millis (sat_add u64_max p e) (omega arith) in
    (omega (arith, d), omega (arith, d))

next_delay-Within :
    (b : BackoffState)
    → as_millis b.base * 32 + as_millis b.base / 4 ≤ u64_max
    → Within (as_millis b.base) b.consecutive (as_millis (next_delay b).1)
unfolding next_delay
next_delay-Within b fits =
    let base = as_millis b.base in
    let n = exponent_of b.consecutive in
    let exact = scaled_exact base n (omega arith) (omega arith) in
    let small = pow_cases n (omega arith) in
    let below : base * 2 ^ n ≤ base * 32 = grind arith in
    let extra = next_below_le b.jitter (base / 4) in
    rw exact
      (sum_within (base * 2 ^ n) (base / 4) (next_below b.jitter (base / 4)).1 extra (omega arith))

next_delay_keeps : (b : BackoffState) → (next_delay b).0.consecutive ≡ b.consecutive
unfolding next_delay
next_delay_keeps b = refl

judge-Delays :
    (c : BackoffState) (now : Millis) (d : Duration)
    → (judge c now).1 ≡ some d
    → (origin : BackoffState) × (origin.base ≡ c.base)
      × (origin.consecutive ≡ (judge c now).0.consecutive)
      × ((next_delay origin).1 ≡ d)
unfolding judge
judge-Delays c now d h =
    let width = as_millis c.interval in
    let w = trim c.burst (expire now width (c.window ++ now ∷ [])) in
    elim (Bool-cases (width == 0)) [
      | inl z ↦ (c, refl, ground (arith, next_delay_keeps c), ground arith)
      | inr nz ↦
          let c' = record c { window = w } in
          (c', refl, ground (arith, next_delay_keeps c'), ground arith)
    ]

judge_counts : (c : BackoffState) (now : Millis) → (judge c now).0.consecutive ≡ c.consecutive
unfolding judge
judge_counts c now = ground (
  arith,
  next_delay_keeps c,
  next_delay_keeps (record c {
    window = trim c.burst (expire now (as_millis c.interval) (c.window ++ now ∷ []));
  }),
)

-- A failure that is answered with a delay is answered with the base delay, doubled for each
-- restart before this one up to five times, and at most a quarter of the base more; as long as 32
-- times the base and that quarter fit in 64 bits, nothing wraps or saturates. The count starts again
-- at 1 after a stable run, and goes up by one otherwise.
pub on_failure_delay :
    (b : BackoffState) (now : Millis) (d : Duration)
    → as_millis b.base * 32 + as_millis b.base / 4 ≤ u64_max
    → (on_failure b now).1 ≡ some d
    → Within (as_millis b.base) (on_failure b now).0.consecutive (as_millis d)
      × ((on_failure b now).0.consecutive
          ≡ (if has_been_stable_since b now then 1 else sat_add u32_max b.consecutive 1))
unfolding on_failure count_failure
on_failure_delay b now d fits h =
    let c = count_failure b now in
    let (o, same_base, same_count, made) = judge-Delays c now d h in
    let within = next_delay-Within o (rw same_base fits) in
    (rw (← same_count, ← made) (rw same_base at within), ground (arith, judge_counts c now))
