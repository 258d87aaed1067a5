-- ===== src/Unit/Restart/Bounds.antt =====
-- crates/rinit-core/src/unit/restart.rs: the sizes of the bookkeeping, and the disabled breaker.
use rinit.Prelude.{
  ℕ, ◌%◌, ◌≤◌, ◌<◌, max, ◌≡◌, refl, ap, ◌∙◌, ◌≢◌, ◌↔◌, ◌⊎◌, inl, inr, Bool, true, false, none, some,
  List, [], ◌∷◌, ◌++◌, arith, leb, length, All,
}
use rinit.Prelude.Word.{u32_mod, u32_max}
use rinit.Prelude.Duration.{Duration}
use rinit.Unit.Job.{Millis}
use rinit.Unit.Restart.{
  as_millis, BackoffState, new, trim, expire, reconfigure, on_active, next_delay, count_failure,
  judge, on_failure, is_tripped, reset,
}
use rinit.Unit.Restart.Window.{length-trim}

-- The window never holds more than `burst` times, and the counters fit their words.
pub record IsBounded (b : BackoffState) : Type 0 where
  pub burst_positive : 0 < b.burst
  pub burst_word : b.burst < u32_mod
  pub window_bounded : length b.window ≤ b.burst
  pub count_word : b.consecutive ≤ u32_max

-- One call of the bookkeeping's interface.
pub data Call : Type 0 where
  reconfigured : Duration → ℕ → Duration → Call
  activated : Millis → Call
  failed_at : Millis → Call
  was_reset : Call

unfoldable pub apply : BackoffState → Call → BackoffState
apply b (reconfigured base burst interval) = reconfigure b base burst interval
apply b (activated now) = on_active b now
apply b (failed_at now) = (on_failure b now).0
apply b was_reset = reset b

unfoldable pub apply_all : BackoffState → List Call → BackoffState
apply_all b [] = b
apply_all b (c ∷ cs) = apply_all (apply b c) cs

-- A call whose arguments are of their types.
abbrev pub IsTyped : Call → Type 0
IsTyped (reconfigured base burst interval) = burst < u32_mod
IsTyped _ = Unit

pub new-IsBounded :
    (base : Duration) (burst : ℕ) (interval : Duration) (seed : ℕ)
    → burst < u32_mod
    → IsBounded (new base burst interval seed)
unfolding new
new-IsBounded base burst interval seed h = omega arith

next_delay_fields :
    (b : BackoffState)
    → ((next_delay b).0.consecutive ≡ b.consecutive)
      × ((next_delay b).0.burst ≡ b.burst)
      × ((next_delay b).0.window ≡ b.window)
      × ((next_delay b).0.interval ≡ b.interval)
unfolding next_delay
next_delay_fields b = (refl, refl, refl, refl)

judge-IsBounded : (b : BackoffState) (now : Millis) → IsBounded b → IsBounded (judge b now).0
unfolding judge
judge-IsBounded b now h =
    let w = trim b.burst (expire now (as_millis b.interval) (b.window ++ now ∷ [])) in
    ground (
      arith,
      next_delay_fields b,
      next_delay_fields (record b { window = w }),
      length-trim b.burst (expire now (as_millis b.interval) (b.window ++ now ∷ [])),
    )

count_failure-IsBounded :
    (b : BackoffState) (now : Millis) → IsBounded b → IsBounded (count_failure b now)
unfolding count_failure
count_failure-IsBounded b now h = ground arith

apply-IsBounded : (b : BackoffState) (c : Call) → IsTyped c → IsBounded b → IsBounded (apply b c)
unfolding apply on_failure on_active reset reconfigure
apply-IsBounded b (reconfigured base burst interval) t h =
    omega (arith, length-trim (max burst 1) b.window)
apply-IsBounded b (activated now) t h = omega arith
apply-IsBounded b (failed_at now) t h =
    judge-IsBounded (count_failure b now) now (count_failure-IsBounded b now h)
apply-IsBounded b was_reset t h = omega arith

apply_all-IsBounded :
    (b : BackoffState) (cs : List Call) → All IsTyped cs → IsBounded b → IsBounded (apply_all b cs)
unfolding apply_all
apply_all-IsBounded b [] t h = h
apply_all-IsBounded b (c ∷ cs) t h =
    apply_all-IsBounded (apply b c) cs t.1 (apply-IsBounded b c t.0 h)

-- After any calls to a new bookkeeping, whose bursts are u32 values, the window holds at most
-- `burst` failures and `burst` is at least 1; both counters are u32 values.
pub calls-IsBounded :
    (base : Duration) (burst : ℕ) (interval : Duration) (seed : ℕ) (cs : List Call)
    → burst < u32_mod
    → All IsTyped cs
    → IsBounded (apply_all (new base burst interval seed) cs)
calls-IsBounded base burst interval seed cs h t =
    apply_all-IsBounded (new base burst interval seed) cs t
      (new-IsBounded base burst interval seed h)

judge_off :
    (b : BackoffState) (now : Millis)
    → as_millis b.interval ≡ 0
    → ((judge b now).1 ≢ none) × ((judge b now).0.window ≡ b.window)
unfolding judge
judge_off b now z = ground (arith, next_delay_fields b)

module _ (b : BackoffState) (now : Millis) (wide : 0 < as_millis b.interval)
    (real : 0 < b.burst) where
  slid : BackoffState
  slid = record b {
    window = trim b.burst (expire now (as_millis b.interval) (b.window ++ now ∷ []));
  }

  tripped : Bool
  unfolding slid
  tripped = leb b.burst (length slid.window % u32_mod)

  judge_on :
      ((tripped ≡ true) × (judge b now ≡ (slid, none)))
      ⊎ ((tripped ≡ false) × (judge b now ≡ ((next_delay slid).0, some (next_delay slid).1)))
  unfolding judge slid tripped
  judge_on = ground arith

  is_tripped-slid : is_tripped slid ≡ tripped
  unfolding is_tripped slid tripped
  is_tripped-slid = ground arith

  is_tripped_delayed : is_tripped (next_delay slid).0 ≡ tripped
  unfolding is_tripped slid tripped
  is_tripped_delayed = ground (arith, next_delay_fields slid)

  judge_tripped : ((judge b now).1 ≡ none) ↔ (is_tripped (judge b now).0 ≡ true)
  judge_tripped = elim judge_on [
    | inl (t, e) ↦ rw e (λ _. is_tripped-slid ∙ t, λ _. refl)
    | inr (t, e) ↦ rw e (λ h. cc, λ h. cc (is_tripped_delayed))
  ]

shorter : (b : BackoffState) (now : Millis) → length (count_failure b now).window ≤ length b.window
unfolding count_failure
shorter b now = ground arith

-- With an interval of zero there is no breaker: a failure is always answered with a delay, and the
-- window does not grow.
disabled_breaker :
    (b : BackoffState) (now : Millis)
    → as_millis b.interval ≡ 0
    → ((on_failure b now).1 ≢ none) × (length (on_failure b now).0.window ≤ length b.window)
unfolding on_failure count_failure
disabled_breaker b now z =
    let (some_delay, same) = judge_off (count_failure b now) now z in
    (some_delay, omega (arith, ap length same, shorter b now))

-- With any other interval a failure is refused a restart exactly when `is_tripped` says afterwards
-- that the breaker has tripped.
refusal-is_tripped :
    (b : BackoffState) (now : Millis)
    → 0 < b.burst
    → 0 < as_millis b.interval
    → ((on_failure b now).1 ≡ none) ↔ (is_tripped (on_failure b now).0 ≡ true)
unfolding on_failure count_failure
refusal-is_tripped b now real wide = judge_tripped (count_failure b now) now wide real
