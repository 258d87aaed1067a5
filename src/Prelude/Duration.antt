-- ===== src/Prelude/Duration.antt =====
-- core::time::Duration: whole seconds and the nanoseconds below one second.
use Prim.Native.Nat.{ℕ, ◌*◌, ◌/◌, ◌%◌}

pub record Duration : Type 0 where
  pub secs : ℕ
  pub nanos : ℕ

abbrev pub zero_duration : Duration
zero_duration = record { secs = 0; nanos = 0 }

abbrev pub from_secs : ℕ → Duration
from_secs s = record { secs = s; nanos = 0 }

abbrev pub from_millis : ℕ → Duration
from_millis ms = record { secs = ms / 1000; nanos = ms % 1000 * 1000000 }

abbrev pub subsec_millis : Duration → ℕ
subsec_millis d = d.nanos / 1000000
