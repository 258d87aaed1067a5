-- ===== src/Unit/Restart/Samples.antt =====
-- crates/rinit-core/src/unit/restart.rs: the theorems on the breaker and the delays at concrete
-- histories.
use rinit.Prelude.{◌≤◌, max, ◌≡◌, refl, ◌↔◌, none, [], ◌∷◌, arith, if◌then◌else◌}
use rinit.Prelude.Word.{sat_add, u32_max}
use rinit.Prelude.Duration.{from_secs, zero_duration}
use rinit.Unit.Restart.{
  as_millis, BackoffState, new, has_been_stable_since, on_failure, next_delay, next_below,
  count_failure, judge, trim, expire, factor_of,
}
use rinit.Unit.Restart.Window.{recent_count}
use rinit.Unit.Restart.Breaker.{fail_all, breaker_exact}
use rinit.Unit.Restart.Delay.{Within, on_failure_delay}
use rinit.Unit.Restart.Bounds.{
  IsBounded, reconfigured, activated, failed_at, was_reset, apply_all, calls-IsBounded,
}

-- No base delay, at most three failures in ten seconds.
abbrev three_in_ten : BackoffState
three_in_ten = new zero_duration 3 (from_secs 10) 0

-- The failure at 1 s is too old to count at 12 s, so the third of the others is refused.
breaker_exact_example :
    ((on_failure (fail_all three_in_ten (1000 ∷ 5000 ∷ 9000 ∷ [])) 12000).1 ≡ none)
    ↔ (max 3 1 ≤ recent_count 12000 (as_millis (from_secs 10)) (1000 ∷ 5000 ∷ 9000 ∷ 12000 ∷ []))
unfolding as_millis
breaker_exact_example =
    breaker_exact zero_duration 3 (from_secs 10) 0 (1000 ∷ 5000 ∷ 9000 ∷ []) 12000 (omega arith)
      (omega arith) (omega arith)

three_recent : recent_count 12000 10000 (1000 ∷ 5000 ∷ 9000 ∷ 12000 ∷ []) ≡ 3
unfolding recent_count
three_recent = refl

-- The second failure in a row of a unit with a base of two milliseconds.
abbrev failed_once : BackoffState
failed_once = record (new (record { secs = 0; nanos = 2000000 }) 3 (from_secs 10) 1) {
  consecutive = 1;
}

on_failure_delay_example :
    Within
      (as_millis failed_once.base)
      (on_failure failed_once 50).0.consecutive
      (as_millis (record { secs = 0; nanos = 4000000 }))
    × ((on_failure failed_once 50).0.consecutive ≡ (
        if has_been_stable_since failed_once 50
        then 1
        else sat_add u32_max failed_once.consecutive 1))
unfolding on_failure count_failure judge next_delay next_below as_millis new has_been_stable_since
    trim expire factor_of
on_failure_delay_example =
    on_failure_delay failed_once 50 (record { secs = 0; nanos = 4000000 }) (omega arith) refl

calls-IsBounded_example : IsBounded (
    apply_all three_in_ten (
      activated 1
      ∷ failed_at 2
      ∷ reconfigured zero_duration 1 (from_secs 5)
      ∷ failed_at 3
      ∷ was_reset
      ∷ []))
calls-IsBounded_example =
    calls-IsBounded zero_duration 3 (from_secs 10) 0
      (activated 1
        ∷ failed_at 2
        ∷ reconfigured zero_duration 1 (from_secs 5)
        ∷ failed_at 3
        ∷ was_reset
        ∷ [])
      (omega arith) (tt, (tt, (omega arith, (tt, (tt, tt)))))

abbrev no_breaker : BackoffState
no_breaker = new zero_duration 2 zero_duration 7
