-- ===== src/Unit/Restart.antt =====
-- crates/rinit-core/src/unit/restart.rs: the delay before a restart, and the start-limit breaker.
use rinit.Prelude.{
  ℕ, zero, suc, ◌+◌, ◌-◌, ◌*◌, ◌/◌, ◌%◌, ◌^◌, ◌≤◌, ◌<◌, min, max, ◌≡◌, refl, sym, ap, ◌∙◌, ◌≢◌, ◌↔◌,
  ◌⊎◌, inl, inr, Bool, true, false, not, ◌&&◌, ◌||◌, Option, none, some, List, [], ◌∷◌, ◌++◌, map,
  Memᴰ, arith, ltb, leb, ◌==◌, ==_iff, if◌then◌else◌, ltb→lt, lt→ltb, leb→le, Bool-cases,
  Option-cases, length, get_elem?, take, drop, length-append, length-drop, take-append, drop-append,
  List-cases, All, All-append, All-drop, Text, codes, text_eq, text_eq_iff, Result, ok, err, ◌>>=◌,
  ◌>>◌, Result-cases,
}
use rinit.Prelude.Word.{
  u32_mod, u32_max, u64_max, sat_add, sat_sub, sat_mul, shl64, shr64, wrapping_mul64,
}
use rinit.Prelude.Duration.{Duration, zero_duration, from_millis, subsec_millis}
use rinit.Unit.Job.{Millis}
use Prim.Native.Nat.{bit_xor}
pub mod Window
pub mod Breaker
pub mod Delay
pub mod Bounds
mod Samples

abbrev pub backoff_exponent_cap : ℕ
backoff_exponent_cap = 5

unfoldable pub as_millis : Duration → ℕ
as_millis d = sat_add u64_max (sat_mul u64_max d.secs 1000) (subsec_millis d)

pub record Jitter : Type 0 where
  pub state : ℕ

unfoldable pub new_jitter : ℕ → Jitter
new_jitter seed = record { state = if seed == 0 then 0x9e3779b97f4a7c15 else seed }

-- The three steps of xorshift64*.
unfoldable pub xorshift : ℕ → ℕ
xorshift x =
    let a = bit_xor x (shr64 x 12) in let b = bit_xor a (shl64 a 25) in bit_xor b (shr64 b 27)

unfoldable pub next_below : Jitter → ℕ → Jitter × ℕ
unfolding xorshift
next_below j bound =
    let x = xorshift j.state in
    if bound == 0
    then (j, 0)
    else (record { state = x }, wrapping_mul64 x 0x2545f4914f6cdd1d % bound)

pub record BackoffState : Type 0 where
  pub base : Duration
  pub consecutive : ℕ  -- u32
  pub window : List Millis
  pub burst : ℕ  -- u32
  pub interval : Duration
  pub became_active_at : Option Millis
  pub jitter : Jitter

unfoldable pub new : Duration → ℕ → Duration → ℕ → BackoffState
unfolding new_jitter
new base burst interval seed = record {
  base = base;
  consecutive = 0;
  window = [];
  burst = max burst 1;
  interval = interval;
  became_active_at = none;
  jitter = new_jitter seed;
}

-- `while window.len() > burst { pop_front }`.
unfoldable pub trim : ℕ → List Millis → List Millis
trim burst [] = []
trim burst (t ∷ ts) = if ltb burst (length (t ∷ ts)) then trim burst ts else t ∷ ts

-- `while now - front >= width { pop_front }`.
unfoldable pub expire : Millis → ℕ → List Millis → List Millis
expire now width [] = []
expire now width (t ∷ ts) = if leb width (sat_sub now t) then expire now width ts else t ∷ ts

unfoldable pub reconfigure : BackoffState → Duration → ℕ → Duration → BackoffState
unfolding trim
reconfigure b base burst interval = record b {
  base = base;
  burst = max burst 1;
  interval = interval;
  window = trim (max burst 1) b.window;
}

unfoldable pub on_active : BackoffState → Millis → BackoffState
on_active b now = record b { became_active_at = some now }

stable_for : Duration → Millis → Option Millis → Bool
unfolding as_millis
stable_for interval now none = false
stable_for interval now (some at) =
    if interval.secs == 0 && interval.nanos == 0
    then true
    else leb (as_millis interval) (sat_sub now at)

unfoldable pub has_been_stable_since : BackoffState → Millis → Bool
unfolding stable_for
has_been_stable_since b now = stable_for b.interval now b.became_active_at

-- 1u64.checked_shl, or the largest word where the shift is too far.
factor_of : ℕ → ℕ
factor_of exponent = if ltb exponent 64 then 2 ^ exponent else u64_max

unfoldable pub next_delay : BackoffState → BackoffState × Duration
unfolding as_millis next_below factor_of
next_delay b =
    let base_ms = as_millis b.base in
    let exponent = min (sat_sub b.consecutive 1) backoff_exponent_cap in
    let scaled =
      min (sat_mul u64_max base_ms (factor_of exponent))
        (sat_mul u64_max base_ms (2 ^ backoff_exponent_cap)) in
    let (jitter', extra) = next_below b.jitter (base_ms / 4) in
    (record b { jitter = jitter' }, from_millis (sat_add u64_max scaled extra))

-- The start of `on_failure`: the reset after a stable run, and the count of this failure.
unfoldable pub count_failure : BackoffState → Millis → BackoffState
unfolding has_been_stable_since
count_failure b now =
    let stable = has_been_stable_since b now in
    record b {
      consecutive = sat_add u32_max (if stable then 0 else b.consecutive) 1;
      window = if stable then [] else b.window;
      became_active_at = none;
    }

answer : BackoffState × Duration → BackoffState × Option Duration
answer r = (r.0, some r.1)

-- The rest of it: with no interval there is no breaker; else the window slides and is counted.
unfoldable pub judge : BackoffState → Millis → BackoffState × Option Duration
unfolding answer
judge b now =
    let width = as_millis b.interval in
    let b' = record b { window = trim b.burst (expire now width (b.window ++ now ∷ [])) } in
    if width == 0
    then answer (next_delay b)
    else if leb b'.burst (length b'.window % u32_mod)
    then (b', none)
    else answer (next_delay b')

unfoldable pub on_failure : BackoffState → Millis → BackoffState × Option Duration
unfolding count_failure judge
on_failure b now = judge (count_failure b now) now

unfoldable pub is_tripped : BackoffState → Bool
unfolding as_millis
is_tripped b =
    not (as_millis b.interval == 0) && not (b.burst == 0) && leb b.burst (length b.window % u32_mod)

unfoldable pub reset : BackoffState → BackoffState
reset b = record b { consecutive = 0; window = []; became_active_at = none }
