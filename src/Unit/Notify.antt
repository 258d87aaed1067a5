-- ===== src/Unit/Notify.antt =====
-- crates/rinit-core/src/unit/notify.rs: the messages of the notify socket.
use rinit.Prelude.{
  ℕ, zero, suc, ◌+◌, ◌-◌, ◌*◌, ◌/◌, ◌%◌, ◌^◌, ◌≤◌, ◌<◌, min, max, ◌≡◌, refl, sym, ap, ◌∙◌, ◌≢◌, ◌↔◌,
  ◌⊎◌, inl, inr, Bool, true, false, not, ◌&&◌, ◌||◌, Option, none, some, List, [], ◌∷◌, ◌++◌, map,
  Memᴰ, arith, ltb, leb, ◌==◌, ==_iff, if◌then◌else◌, ltb→lt, lt→ltb, leb→le, Bool-cases,
  Option-cases, length, get_elem?, take, drop, length-append, length-drop, take-append, drop-append,
  List-cases, All, All-append, All-drop, Text, codes, text_eq, text_eq_iff, Result, ok, err, ◌>>=◌,
  ◌>>◌, Result-cases,
}
use rinit.Prelude.Slices.{split_once, split_on, strip_suffix}
use rinit.Prelude.Utf8.{from_utf8_lossy}
use mathlib.Core.Option as Opt
pub mod Lines
mod Samples

pub record NotifyMessage : Type 0 where
  pub ready : Bool
  pub status : Option Text
  pub watchdog : Bool

abbrev pub default : NotifyMessage
default = record { ready = false; status = none; watchdog = false }

-- The line's number within the datagram, from 1.
pub data NotifyError : Type 0 where
  malformed : ℕ → NotifyError

-- A line without the `\r` that a client in text mode leaves behind.
unfoldable pub bare : Text → Text
bare raw = Opt.get_or (strip_suffix (13 ∷ []) raw) raw

unfoldable pub assign : Text → Text → NotifyMessage → NotifyMessage
assign key value out =
    if text_eq key (codes "READY")
    then record out { ready = text_eq value (codes "1") }
    else if text_eq key (codes "STATUS")
    then record out { status = some (from_utf8_lossy value) }
    else if text_eq key (codes "WATCHDOG")
    then record out { watchdog = text_eq value (codes "1") }
    else out

-- One turn of the loop, on the line at this index.
read_fields : ℕ → Option (Text × Text) → NotifyMessage → Result NotifyError NotifyMessage
unfolding assign
read_fields index none out = err (malformed (index + 1))
read_fields index (some (key, value)) out = ok (assign key value out)

unfoldable pub read_line : ℕ → Text → NotifyMessage → Result NotifyError NotifyMessage
unfolding read_fields
read_line index [] out = ok out
read_line index (c ∷ s) out = read_fields index (split_once b'=' (c ∷ s)) out

unfoldable pub read_lines : ℕ → List Text → NotifyMessage → Result NotifyError NotifyMessage
unfolding read_line bare
read_lines index [] out = ok out
read_lines index (raw ∷ rest) out =
    read_line index (bare raw) out >>= λ out'. read_lines (index + 1) rest out'

unfoldable pub parse : List ℕ → Result NotifyError NotifyMessage
unfolding read_lines
parse message = read_lines 0 (split_on b'\n' message) default
