-- ===== src/Fstab/Options.antt =====
-- crates/rinit-runtime/src/fstab.rs: the option field.
use rinit.Prelude.{
  ℕ, Bool, true, false, ◌||◌, Option, none, some, List, [], ◌∷◌, ◌++◌, ◌==◌, if◌then◌else◌, Text,
  codes, text_eq,
}
use rinit.Prelude.Slices.{strip_prefix, split_on, join_with, trim_by}
use rinit.Prelude.Splits.{is_empty_text}
use rinit.Unit.Name.{is_whitespace}
use rinit.Fstab.{Entry}

-- The MS_* bits that options set.
pub data Flag : Type 0 where
  rdonly synchronous dirsync noatime nodiratime relatime strictatime nosuid nodev noexec : Flag

unfoldable pub flag_rank : Flag → ℕ
flag_rank rdonly = 0
flag_rank synchronous = 1
flag_rank dirsync = 2
flag_rank noatime = 3
flag_rank nodiratime = 4
flag_rank relatime = 5
flag_rank strictatime = 6
flag_rank nosuid = 7
flag_rank nodev = 8
flag_rank noexec = 9

-- The word of flags, bit by bit.
abbrev pub Flags : Type 0
Flags = Flag → Bool

unfoldable pub set_flag : Flag → Bool → Flags → Flags
unfolding flag_rank
set_flag f b flags g = if flag_rank g == flag_rank f then b else flags g

-- What an option does: it sets or clears a bit, is for mount(8) only, or is the filesystem's.
pub data Meaning : Type 0 where
  turns : Flag → Bool → Meaning
  ignored own : Meaning

abbrev pub meaning_table : List (Text × Meaning)
meaning_table =
    (codes "ro", turns rdonly true)
    ∷ (codes "rw", turns rdonly false)
    ∷ (codes "sync", turns synchronous true)
    ∷ (codes "async", turns synchronous false)
    ∷ (codes "dirsync", turns dirsync true)
    ∷ (codes "noatime", turns noatime true)
    ∷ (codes "atime", turns noatime false)
    ∷ (codes "nodiratime", turns nodiratime true)
    ∷ (codes "diratime", turns nodiratime false)
    ∷ (codes "relatime", turns relatime true)
    ∷ (codes "norelatime", turns relatime false)
    ∷ (codes "strictatime", turns strictatime true)
    ∷ (codes "nostrictatime", turns strictatime false)
    ∷ (codes "suid", turns nosuid false)
    ∷ (codes "nosuid", turns nosuid true)
    ∷ (codes "dev", turns nodev false)
    ∷ (codes "nodev", turns nodev true)
    ∷ (codes "exec", turns noexec false)
    ∷ (codes "noexec", turns noexec true)
    ∷ (codes "defaults", ignored)
    ∷ (codes "auto", ignored)
    ∷ (codes "noauto", ignored)
    ∷ (codes "nofail", ignored)
    ∷ (codes "user", ignored)
    ∷ (codes "users", ignored)
    ∷ (codes "owner", ignored)
    ∷ (codes "group", ignored)
    ∷ (codes "_netdev", ignored)
    ∷ []

abbrev has_prefix : Text → Text → Bool
has_prefix p s = elim (strip_prefix p s) [ none ↦ false | some _ ↦ true ]

unfoldable pub meaning_in : Text → List (Text × Meaning) → Meaning
meaning_in option [] =
    if has_prefix (codes "x-") option || has_prefix (codes "comment=") option then ignored else own
meaning_in option ((t, m) ∷ rows) = if text_eq t option then m else meaning_in option rows

unfoldable pub meaning_of : Text → Meaning
unfolding meaning_in
meaning_of option = meaning_in option meaning_table

unfoldable pub nonempty_trimmed : List Text → List Text
nonempty_trimmed [] = []
nonempty_trimmed (o ∷ os) =
    let t = trim_by is_whitespace o in
    let rest = nonempty_trimmed os in if is_empty_text t then rest else t ∷ rest

unfoldable pub option_words : Entry → List Text
unfolding nonempty_trimmed
option_words e = nonempty_trimmed (split_on b',' e.options)

-- The loop of `flags_and_data`.
unfoldable pub scan : Flags → List Text → List Text → Flags × List Text
scan flags kept [] = (flags, kept)
scan flags kept (option ∷ rest) = elim (meaning_of option) [
  | turns f b ↦ scan (set_flag f b flags) kept rest
  | ignored ↦ scan flags kept rest
  | own ↦ scan flags (kept ++ option ∷ []) rest
]

abbrev pub joined : List Text → Option Text
joined [] = none
joined (o ∷ os) = some (join_with b',' (o ∷ os))

unfoldable pub flags_and_data : Entry → Flags × Option Text
unfolding scan
flags_and_data e = let (flags, kept) = scan (λ _. false) [] (option_words e) in (flags, joined kept)
