-- ===== src/Logger.antt =====
-- crates/rinit-core/src/logger.rs: the ring of service output, which is bounded by its bytes. Texts are the
-- bytes of UTF-8; `overhead` is LINE_OVERHEAD, which depends on the machine.
use rinit.Prelude.{
  ℕ, zero, suc, ◌+◌, ◌-◌, ◌*◌, ◌/◌, ◌%◌, ◌^◌, ◌≤◌, ◌<◌, min, max, ◌≡◌, refl, sym, ap, ◌∙◌, ◌≢◌, ◌↔◌,
  ◌⊎◌, inl, inr, Bool, true, false, not, ◌&&◌, ◌||◌, Option, none, some, List, [], ◌∷◌, ◌++◌, map,
  Memᴰ, arith, ltb, leb, ◌==◌, ==_iff, if◌then◌else◌, ltb→lt, lt→ltb, leb→le, Bool-cases,
  Option-cases, length, get_elem?, take, drop, length-append, length-drop, take-append, drop-append,
  List-cases, All, All-append, All-drop, Text, codes, text_eq, text_eq_iff, Result, ok, err, ◌>>=◌,
  ◌>>◌, Result-cases,
}
use rinit.Control.Wire.{Bytes}
use rinit.Unit.Name.{UnitName, name_eq}
use rinit.Control.Responses.{back_up}
use mathlib.Core.List.{reverse}
pub mod Eviction
pub mod Ring
mod Samples

abbrev pub default_max_bytes : ℕ
default_max_bytes = 262144

abbrev pub default_max_line_bytes : ℕ
default_max_line_bytes = 1024

pub record LogLine : Type 0 where
  pub unit : UnitName
  pub text : Bytes

pub record LogBuffer : Type 0 where
  pub lines : List LogLine
  pub bytes : ℕ
  pub max_bytes : ℕ
  pub max_line_bytes : ℕ

unfoldable pub line_cost : ℕ → UnitName → Bytes → ℕ
line_cost overhead unit text = length text + length unit.canonical + overhead

unfoldable pub new : ℕ → ℕ → LogBuffer
new max_bytes max_line_bytes = record {
  lines = [];
  bytes = 0;
  max_bytes = max_bytes;
  max_line_bytes = max_line_bytes;
}

unfoldable pub with_defaults : LogBuffer
unfolding new
with_defaults = new default_max_bytes default_max_line_bytes

unfoldable pub truncate : Bytes → ℕ → Bytes
truncate text max = if leb (length text) max then text else take (back_up text max) text

-- The loop of `push` that drops the oldest lines.
unfoldable pub evict : ℕ → ℕ → List LogLine → ℕ → List LogLine × ℕ
unfolding line_cost
evict overhead max [] bytes = ([], bytes)
evict overhead max (l ∷ ls) bytes = elim (ltb max bytes) [
  | true ↦ evict overhead max ls (bytes - line_cost overhead l.unit l.text)
  | false ↦ (l ∷ ls, bytes)
]

-- The line that `push` stores.
unfoldable pub stored : ℕ → LogBuffer → UnitName → Bytes → LogLine
unfolding truncate
stored overhead b unit text =
    let room = b.max_bytes - (length unit.canonical + overhead) in
    record { unit = unit; text = truncate text (min b.max_line_bytes room) }

unfoldable pub push : ℕ → LogBuffer → UnitName → Bytes → LogBuffer
unfolding evict stored
push overhead b unit text =
    if b.max_bytes == 0
    then b
    else let line = stored overhead b unit text in
      let (lines, bytes) =
        evict overhead b.max_bytes (b.lines ++ line ∷ [])
          (b.bytes + line_cost overhead line.unit line.text) in
      record b { lines = lines; bytes = bytes }

unfoldable pub tail : LogBuffer → ℕ → List LogLine
tail b count = drop (length b.lines - count) b.lines

unfoldable pub lines_of : UnitName → List LogLine → List LogLine
lines_of unit [] = []
lines_of unit (l ∷ ls) =
    let rest = lines_of unit ls in if name_eq l.unit unit then l ∷ rest else rest

unfoldable pub tail_for : LogBuffer → UnitName → ℕ → List LogLine
unfolding lines_of
tail_for b unit count = reverse (take count (reverse (lines_of unit b.lines)))

unfoldable pub accounted_bytes : LogBuffer → ℕ
accounted_bytes b = b.bytes
