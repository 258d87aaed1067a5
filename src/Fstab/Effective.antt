-- ===== src/Fstab/Effective.antt =====
-- crates/rinit-runtime/src/fstab.rs: which options are in effect.
use rinit.Prelude.{
  ◌≡◌, refl, sym, ap, ◌∙◌, ◌⊎◌, inl, inr, Bool, true, false, Option, none, some, List, [], ◌∷◌,
  ◌++◌, arith, ◌==◌, if◌then◌else◌, Text,
}
use mathlib.Core.Option as Opt
use mathlib.Core.List.{append-nil, append_assoc}
use rinit.Fstab.{Entry}
use rinit.Fstab.Options.{
  Flag, flag_rank, Flags, set_flag, Meaning, turns, ignored, own, meaning_of, option_words, scan,
  joined, flags_and_data,
}

-- What an option says of a bit.
unfoldable pub says : Flag → Meaning → Option Bool
unfolding flag_rank
says g (turns f b) = if flag_rank g == flag_rank f then some b else none
says g ignored = none
says g own = none

abbrev later : Option Bool → Option Bool → Option Bool
later (some b) _ = some b
later none o = o

-- What the last option that speaks of a bit says.
unfoldable pub last_word : Flag → List Text → Option Bool
unfolding says
last_word g [] = none
last_word g (w ∷ ws) = later (last_word g ws) (says g (meaning_of w))

is_own : Meaning → Bool
is_own own = true
is_own _ = false

-- The options that are the filesystem's own.
unfoldable pub own_words : List Text → List Text
unfolding is_own
own_words [] = []
own_words (w ∷ ws) = let rest = own_words ws in if is_own (meaning_of w) then w ∷ rest else rest

Meaning-cases :
    (m : Meaning) → ((f : Flag) × (b : Bool) × (m ≡ turns f b)) ⊎ ((m ≡ ignored) ⊎ (m ≡ own))
Meaning-cases (turns f b) = inl (f, b, refl)
Meaning-cases ignored = inr (inl refl)
Meaning-cases own = inr (inr refl)

overridden :
    (o : Option Bool) (g f : Flag) (b : Bool) (flags : Flags) (m : Meaning)
    → m ≡ turns f b
    → Opt.get_or o (set_flag f b flags g) ≡ Opt.get_or (later o (says g m)) (flags g)
unfolding set_flag says
overridden (some c) g f b flags m h = refl
overridden none g f b flags (turns f' b') h = ground arith
overridden none g f b flags ignored h = cc
overridden none g f b flags own h = cc

unchanged :
    (o : Option Bool) (g : Flag) (m : Meaning) (c : Bool)
    → says g m ≡ none
    → Opt.get_or o c ≡ Opt.get_or (later o (says g m)) c
unchanged (some b) g m c h = refl
unchanged none g m c h = rw (h)

scan_flags :
    (g : Flag) (flags : Flags) (kept ws : List Text)
    → (scan flags kept ws).0 g ≡ Opt.get_or (last_word g ws) (flags g)
unfolding scan last_word says set_flag
scan_flags g flags kept [] = refl
scan_flags g flags kept (w ∷ ws) = elim (Meaning-cases (meaning_of w)) [
  | inl (f, b, m) ↦
      rw (m, scan)
        (scan_flags g (set_flag f b flags) kept ws
          ∙ overridden (last_word g ws) g f b flags (turns f b) refl)
  | inr (inl m) ↦
      rw (m, scan)
        (scan_flags g flags kept ws ∙ unchanged (last_word g ws) g ignored (flags g) refl)
  | inr (inr m) ↦
      rw (m, scan)
        (scan_flags g flags (kept ++ w ∷ []) ws ∙ unchanged (last_word g ws) g own (flags g) refl)
]

scan_words : (flags : Flags) (kept ws : List Text) → (scan flags kept ws).1 ≡ kept ++ own_words ws
unfolding scan own_words is_own
scan_words flags kept [] = sym (append-nil kept)
scan_words flags kept (w ∷ ws) = elim (Meaning-cases (meaning_of w)) [
  | inl (f, b, m) ↦ rw (m, scan, own_words) (scan_words (set_flag f b flags) kept ws)
  | inr (inl m) ↦ rw (m, scan, own_words) (scan_words flags kept ws)
  | inr (inr m) ↦
      rw (m, scan, own_words)
        (scan_words flags (kept ++ w ∷ []) ws ∙ append_assoc kept (w ∷ []) (own_words ws))
]

-- For each bit, the last option that sets or clears it decides, and without one it is clear; the
-- rest for the filesystem are the options that are its own, in their order.
pub flags_and_data_exact :
    (e : Entry)
    → ((g : Flag) → (flags_and_data e).0 g ≡ Opt.get_or (last_word g (option_words e)) false)
      × ((flags_and_data e).1 ≡ joined (own_words (option_words e)))
unfolding flags_and_data
flags_and_data_exact e = (
  λ g. scan_flags g (λ _. false) [] (option_words e),
  ap joined (scan_words (λ _. false) [] (option_words e)),
)
