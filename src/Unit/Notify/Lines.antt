-- ===== src/Unit/Notify/Lines.antt =====
-- crates/rinit-core/src/unit/notify.rs: the lines of a datagram.
use rinit.Prelude.{
  ℕ, ◌+◌, ◌≡◌, refl, ap, ◌∙◌, ◌≢◌, ◌⊎◌, Bool, true, false, Option, none, some, List, [], ◌∷◌, ◌++◌,
  arith, if◌then◌else◌, length, All, Text, codes, text_eq, text_eq_iff, ok, err,
}
use rinit.Prelude.Slices.{
  split_once, split_on, contains, join_with, split_on-join_with, split_once_none, split_once_absent,
}
use rinit.Prelude.Utf8.{from_utf8_lossy}
use rinit.Unit.Notify.{
  NotifyMessage, default, malformed, bare, assign, read_fields, read_line, read_lines, parse,
}

-- A line that the grammar admits: empty, or with a `=` in it.
abbrev pub Admissible : Text → Type 0
Admissible raw = (bare raw ≡ []) ⊎ (contains b'=' (bare raw) ≡ true)

-- The value that a line gives this key, if it is an assignment to it.
abbrev pub value_in : Text → Option (Text × Text) → Option Text
value_in key none = none
value_in key (some (k, v)) = if text_eq k key then some v else none

unfoldable pub line_value : Text → Text → Option Text
line_value key raw = value_in key (split_once b'=' (bare raw))

-- The value that the last line with this key gives it.
unfoldable pub last_value : Text → List Text → Option Text
last_value key [] = none
last_value key (raw ∷ rest) = elim (last_value key rest) [
  | some v ↦ some v
  | none ↦ line_value key raw
]

-- What a flag and the status become by a value, if there is one.
abbrev pub flag : Bool → Option Text → Bool
flag before none = before
flag before (some v) = text_eq v (codes "1")

abbrev pub shown : Option Text → Option Text → Option Text
shown before none = before
shown before (some v) = some (from_utf8_lossy v)

-- The message `m` is `out` with the last value of each key in these lines.
pub record Reflects (ls : List Text) (out m : NotifyMessage) : Type 0 where
  pub ready : m.ready ≡ flag out.ready (last_value (codes "READY") ls)
  pub status : m.status ≡ shown out.status (last_value (codes "STATUS") ls)
  pub watchdog : m.watchdog ≡ flag out.watchdog (last_value (codes "WATCHDOG") ls)

-- What one field does to the message.
record Shows (field : Option (Text × Text)) (out m : NotifyMessage) : Type 0 where
  ready : m.ready ≡ flag out.ready (value_in (codes "READY") field)
  status : m.status ≡ shown out.status (value_in (codes "STATUS") field)
  watchdog : m.watchdog ≡ flag out.watchdog (value_in (codes "WATCHDOG") field)

assign-Shows : (k v : Text) (out : NotifyMessage) → Shows (some (k, v)) out (assign k v out)
unfolding assign
assign-Shows k v out = ground (
  arith,
  text_eq_iff k (codes "READY"),
  text_eq_iff k (codes "STATUS"),
  text_eq_iff k (codes "WATCHDOG"),
)

read_line_admissible :
    (i : ℕ) (line : Text) (out : NotifyMessage)
    → (line ≡ []) ⊎ (contains b'=' line ≡ true)
    → (m : NotifyMessage) × (read_line i line out ≡ ok m) × Shows (split_once b'=' line) out m
unfolding read_line read_fields split_once
read_line_admissible i [] out h =
    (out, refl, record { ready = refl; status = refl; watchdog = refl })
read_line_admissible i (c ∷ s) out h = go (split_once b'=' (c ∷ s)) refl
  where
    go :
        (o : Option (Text × Text))
        → split_once b'=' (c ∷ s) ≡ o
        → (m : NotifyMessage) × (read_fields i o out ≡ ok m) × Shows o out m
    go none e = absurd (ground (arith, split_once_none b'=' (c ∷ s) e))
    go (some (k, v)) e = (assign k v out, refl, assign-Shows k v out)

read_line_bad :
    (i : ℕ) (line : Text) (out : NotifyMessage)
    → line ≢ []
    → contains b'=' line ≡ false
    → read_line i line out ≡ err (malformed (i + 1))
unfolding read_line read_fields
read_line_bad i [] out ne h = absurd (ne refl)
read_line_bad i (c ∷ s) out ne h = rw (split_once_absent b'=' (c ∷ s) h)

Reflects-cons :
    (raw : Text) (rest : List Text) (out mid m : NotifyMessage)
    → Shows (split_once b'=' (bare raw)) out mid
    → Reflects rest mid m
    → Reflects (raw ∷ rest) out m
unfolding last_value line_value
Reflects-cons raw rest out mid m a b = ground arith

-- If every line is empty or has a `=` in it, the message is read, and each of its fields is what
-- the last line with its key says: unknown keys and earlier values leave no trace.
pub read_lines-Admissible :
    (i : ℕ) (ls : List Text) (out : NotifyMessage)
    → All Admissible ls
    → (m : NotifyMessage) × (read_lines i ls out ≡ ok m) × Reflects ls out m
unfolding read_lines last_value
read_lines-Admissible i [] out h =
    (out, refl, record { ready = refl; status = refl; watchdog = refl })
read_lines-Admissible i (raw ∷ rest) out h =
    let (mid, first, a) = read_line_admissible i (bare raw) out h.0 in
    let (m, others, b) = read_lines-Admissible (i + 1) rest mid h.1 in
    (m, rw first others, Reflects-cons raw rest out mid m a b)

split_on-join_nonempty :
    (before : List Text) (raw : Text) (after : List Text)
    → All (λ t. contains b'\n' t ≡ false) (before ++ raw ∷ after)
    → split_on b'\n' (join_with b'\n' (before ++ raw ∷ after)) ≡ before ++ raw ∷ after
split_on-join_nonempty [] raw after h = split_on-join_with b'\n' raw after h
split_on-join_nonempty (b ∷ before) raw after h =
    split_on-join_with b'\n' b (before ++ raw ∷ after) h

-- The first line that is not empty and has no `=` is refused by its number.
pub read_lines_bad :
    (i : ℕ) (before : List Text) (raw : Text) (after : List Text) (out : NotifyMessage)
    → All Admissible before
    → bare raw ≢ []
    → contains b'=' (bare raw) ≡ false
    → read_lines i (before ++ raw ∷ after) out ≡ err (malformed (i + length before + 1))
unfolding read_lines
read_lines_bad i [] raw after out h ne bad =
    rw (read_line_bad i (bare raw) out ne bad) (ap (λ k. err (malformed k)) (omega arith))
read_lines_bad i (r ∷ before) raw after out h ne bad =
    let (mid, first, a) = read_line_admissible i (bare r) out h.0 in
    rw first (
      read_lines_bad (i + 1) before raw after mid h.1 ne bad
      ∙ ap (λ k. err (malformed k)) (omega arith))

-- A datagram of lines that are each empty or have a `=` in them is accepted, and each field of the
-- message is what the last line with its key says.
pub parse-Admissible :
    (s : Text) (ts : List Text)
    → All (λ t. contains b'\n' t ≡ false) (s ∷ ts)
    → All Admissible (s ∷ ts)
    → (m : NotifyMessage) × (parse (join_with b'\n' (s ∷ ts)) ≡ ok m) × Reflects (s ∷ ts) default m
unfolding parse
parse-Admissible s ts plain h =
    rw (split_on-join_with b'\n' s ts plain) (read_lines-Admissible 0 (s ∷ ts) default h)

-- A datagram is refused at its first line that is neither empty nor has a `=` in it, and the error
-- carries the number of that line, counted from 1.
pub parse_first_bad :
    (before : List Text) (raw : Text) (after : List Text)
    → All (λ t. contains b'\n' t ≡ false) (before ++ raw ∷ after)
    → All Admissible before
    → bare raw ≢ []
    → contains b'=' (bare raw) ≡ false
    → parse (join_with b'\n' (before ++ raw ∷ after)) ≡ err (malformed (length before + 1))
unfolding parse
parse_first_bad before raw after plain h ne bad =
    rw (split_on-join_nonempty before raw after plain) (
      read_lines_bad 0 before raw after default h ne bad
      ∙ ap (λ k. err (malformed k)) (omega arith))
