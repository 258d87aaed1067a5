-- ===== src/Prelude/Splits.antt =====
-- Lines, words and trimming, as `str` documents them.
use mathlib.Core.Option as Opt
use mathlib.Core.List.{reverse}
use rinit.Prelude.Tests.{leb, ◌==◌, if◌then◌else◌}
use rinit.Prelude.Texts.{Text}
use rinit.Prelude.Slices.{strip_suffix, trim_start}
use Prim.Native.Nat.{ℕ, ◌+◌}
use mathlib.Core.Bool.{Bool, true, false, ◌&&◌}
use mathlib.Core.List.{List, [], ◌∷◌, ◌++◌}

unfoldable pub is_empty_text : Text → Bool
is_empty_text [] = true
is_empty_text (_ ∷ _) = false

-- A text without one trailing carriage return.
unfoldable pub strip_return : Text → Text
strip_return s = Opt.get_or (strip_suffix (13 ∷ []) s) s

-- `str::lines`: what stands behind the last line feed is a line too, unless it is empty.
unfoldable pub lines_from : Text → Text → List Text
unfolding strip_return
lines_from cur [] = elim cur [ [] ↦ [] | c ∷ s ↦ (c ∷ s) ∷ [] ]
lines_from cur (c ∷ s) = elim (c == b'\n') [
  | true ↦ strip_return cur ∷ lines_from [] s
  | false ↦ lines_from (cur ++ c ∷ []) s
]

unfoldable pub lines : Text → List Text
unfolding lines_from
lines = lines_from []

unfoldable pub trim_end_by : (ℕ → Bool) → Text → Text
trim_end_by space s = reverse (trim_start space (reverse s))

-- The word read so far, if there is one, in front of the others.
unfoldable pub add_word : Text → List Text → List Text
add_word [] ws = ws
add_word (c ∷ s) ws = (c ∷ s) ∷ ws

-- `split_whitespace`.
unfoldable pub words_from : (ℕ → Bool) → Text → Text → List Text
unfolding add_word
words_from space cur [] = add_word cur []
words_from space cur (c ∷ s) = elim (space c) [
  | true ↦ add_word cur (words_from space [] s)
  | false ↦ words_from space (cur ++ c ∷ []) s
]

unfoldable pub words_by : (ℕ → Bool) → Text → List Text
unfolding words_from
words_by space = words_from space []

abbrev pub to_ascii_lower : ℕ → ℕ
to_ascii_lower c = if leb b'A' c && leb c b'Z' then c + 32 else c
