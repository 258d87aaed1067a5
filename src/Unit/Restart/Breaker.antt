-- ===== src/Unit/Restart/Breaker.antt =====
-- crates/rinit-core/src/unit/restart.rs: the breaker after a history of failures.
use rinit.Prelude.{
  ℕ, ◌-◌, ◌≤◌, ◌<◌, min, max, ◌≡◌, refl, sym, ap, ◌∙◌, ◌↔◌, inl, inr, none, List, [], ◌∷◌, ◌++◌,
  arith, leb, Bool-cases, length, All,
}
use mathlib.Core.Path.{ap₂, subst}
use mathlib.Core.List.{append_assoc, append-nil}
use rinit.Prelude.{All-last}
use rinit.Prelude.Word.{u32_mod}
use rinit.Prelude.Duration.{Duration}
use rinit.Unit.Job.{Millis}
use rinit.Unit.Restart.{
  as_millis, BackoffState, new, trim, expire, next_delay, count_failure, judge, on_failure,
}
use rinit.Unit.Restart.Window.{
  length-trim, Ascending, Ascending-append, Ascending-front, recent_count, expire-expire,
  trim-expire-trim, length-expire,
}

-- The failures at these times, one after the other.
unfoldable pub fail_all : BackoffState → List Millis → BackoffState
fail_all b [] = b
fail_all b (t ∷ ts) = fail_all (on_failure b t).0 ts

-- What a failure does to the fields, where there is a breaker and the unit was not up.
record Counts (b : BackoffState) (now : Millis) : Type 0 where
  window_after :
      (on_failure b now).0.window
      ≡ trim b.burst (expire now (as_millis b.interval) (b.window ++ now ∷ []))
  burst_after : (on_failure b now).0.burst ≡ b.burst
  interval_after : (on_failure b now).0.interval ≡ b.interval
  active_after : (on_failure b now).0.became_active_at ≡ none

on_failure-Counts :
    (b : BackoffState) (now : Millis)
    → b.became_active_at ≡ none
    → 0 < as_millis b.interval
    → Counts b now
unfolding on_failure count_failure judge next_delay
on_failure-Counts b now up wide = ground arith

expire-All :
    (P : ℕ → Type 0) (now width : ℕ) (h : List Millis) → All P h → All P (expire now width h)
unfolding expire
expire-All P now width [] a = a
expire-All P now width (t ∷ ts) a = elim (Bool-cases (leb width (now - t))) [
  | inl old ↦ rw (old, expire) (expire-All P now width ts a.1)
  | inr young ↦ rw (young, expire) a
]

expire-Ascending : (now width : ℕ) (h : List Millis) → Ascending h → Ascending (expire now width h)
unfolding expire
expire-Ascending now width [] a = a
expire-Ascending now width (t ∷ ts) a = elim (Bool-cases (leb width (now - t))) [
  | inl old ↦ rw (old, expire) (expire-Ascending now width ts a.1)
  | inr young ↦ rw (young, expire) a
]

-- The bookkeeping after a history of failures that no run of the unit interrupted: at every later
-- time the window makes the same of a new failure as the whole history would.
record Tracks (burst width : ℕ) (b : BackoffState) (h : List Millis) : Type 0 where
  faithful :
      (now : Millis)
      → All (λ s. s ≤ now) h
      → trim burst (expire now width (b.window ++ now ∷ []))
        ≡ trim burst (expire now width (h ++ now ∷ []))
  burst_kept : b.burst ≡ burst
  width_kept : as_millis b.interval ≡ width
  down : b.became_active_at ≡ none

module _ (burst width : ℕ) (wide : 0 < width) where
  Tracks-on_failure :
      (b : BackoffState) (h : List Millis) (t : Millis)
      → Tracks burst width b h
      → Ascending h
      → All (λ s. s ≤ t) h
      → Tracks burst width (on_failure b t).0 (h ++ t ∷ [])
  Tracks-on_failure b h t tr asc le =
      let w : 0 < as_millis b.interval = rw tr.width_kept wide in
      let c = on_failure-Counts b t tr.down w in
      let now_kept : (on_failure b t).0.window ≡ trim burst (expire t width (h ++ t ∷ [])) =
        c.window_after
        ∙ ap₂ (λ m n. trim m (expire t n (b.window ++ t ∷ []))) tr.burst_kept tr.width_kept
        ∙ tr.faithful t le in
      let whole = h ++ t ∷ [] in
      let inside = expire t width whole in
      record {
        faithful = λ now all_le.
            let t_le : t ≤ now = All-last (λ s. s ≤ now) h t all_le in
            ap (λ v. trim burst (expire now width (v ++ now ∷ []))) now_kept
            ∙ trim-expire-trim burst now width inside
                (expire-Ascending t width whole (Ascending-append h t asc le))
                (expire-All (λ s. s ≤ now) t width whole all_le)
            ∙ ap (trim burst) (expire-expire t now width whole (now ∷ []) t_le);
        burst_kept = c.burst_after ∙ tr.burst_kept;
        width_kept = ap as_millis c.interval_after ∙ tr.width_kept;
        down = c.active_after;
      }

  Tracks-fail_all :
      (rest : List Millis) (b : BackoffState) (h : List Millis)
      → Tracks burst width b h
      → Ascending (h ++ rest)
      → Tracks burst width (fail_all b rest) (h ++ rest)
  unfolding fail_all
  Tracks-fail_all [] b h tr asc = rw append-nil tr
  Tracks-fail_all (t ∷ ts) b h tr asc =
      let (front, le) = Ascending-front h t ts asc in
      let same = append_assoc h (t ∷ []) ts in
      subst (Tracks burst width (fail_all (on_failure b t).0 ts)) same (
        Tracks-fail_all ts (on_failure b t).0 (h ++ t ∷ []) (Tracks-on_failure b h t tr front le)
          (subst Ascending (sym same) asc))

-- The breaker's answer, by the window as it is after the failure.
answer_none :
    (b : BackoffState) (now : Millis)
    → b.became_active_at ≡ none
    → 0 < as_millis b.interval
    → b.burst < u32_mod
    → ((on_failure b now).1 ≡ none)
      ↔ (b.burst ≤ length (trim b.burst (expire now (as_millis b.interval) (b.window ++ now ∷ []))))
unfolding on_failure count_failure judge
answer_none b now up wide small =
    ground (arith, length-trim b.burst (expire now (as_millis b.interval) (b.window ++ now ∷ [])))

new-Tracks :
    (base : Duration) (burst : ℕ) (interval : Duration) (seed : ℕ)
    → Tracks (max burst 1) (as_millis interval) (new base burst interval seed) []
unfolding new
new-Tracks base burst interval seed = record {
  faithful = λ now h. refl;
  burst_kept = refl;
  width_kept = refl;
  down = refl;
}

-- A unit that fails at the times of `h` and then at `now`, with no run of it in between, is refused
-- a restart at `now` exactly when at least `burst` of its failures (at least one, if `burst` is 0)
-- are younger than the interval. The times are in order, the interval is not zero and `burst` is a
-- u32; what the window dropped on the way has no bearing on the answer.
pub breaker_exact :
    (base : Duration) (burst : ℕ) (interval : Duration) (seed : ℕ) (h : List Millis) (now : Millis)
    → 0 < as_millis interval
    → burst < u32_mod
    → Ascending (h ++ now ∷ [])
    → ((on_failure (fail_all (new base burst interval seed) h) now).1 ≡ none)
      ↔ (max burst 1 ≤ recent_count now (as_millis interval) (h ++ now ∷ []))
breaker_exact base burst interval seed h now wide small asc =
    let width = as_millis interval in
    let limit = max burst 1 in
    let b = fail_all (new base burst interval seed) h in
    let (front, le) = Ascending-front h now [] asc in
    let tr =
      Tracks-fail_all limit width wide h (new base burst interval seed) []
        (new-Tracks base burst interval seed) front in
    let small_burst : b.burst < u32_mod = omega (arith, tr.burst_kept) in
    let answered = answer_none b now tr.down (rw tr.width_kept wide) small_burst in
    let window =
      ap₂ (λ m n. trim m (expire now n (b.window ++ now ∷ []))) tr.burst_kept tr.width_kept
      ∙ tr.faithful now le in
    let size : length (trim b.burst (expire now (as_millis b.interval) (b.window ++ now ∷ [])))
        ≡ min limit (recent_count now width (h ++ now ∷ [])) =
      ap length window
      ∙ length-trim limit (expire now width (h ++ now ∷ []))
      ∙ ap (min limit) (length-expire now width (h ++ now ∷ []) asc) in
    (
      λ e. omega (arith, answered.0 e, size, tr.burst_kept),
      λ enough. answered.1 (omega (arith, size, tr.burst_kept)),
    )
