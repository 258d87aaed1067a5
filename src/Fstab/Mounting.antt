-- ===== src/Fstab/Mounting.antt =====
-- crates/rinit-runtime/src/fstab.rs: mounting the entries in the order of the file, with the system calls
-- as a parameter.
use rinit.Prelude.{
  ℕ, Bool, true, false, not, ◌&&◌, ◌||◌, Option, none, some, List, [], ◌∷◌, ◌++◌, Text, text_eq,
}
use rinit.Prelude.Splits.{lines, words_by}
use rinit.Unit.Name.{is_whitespace}
use rinit.Fstab.{Entry, Warning, cannot_create, cannot_mount, unescape_mount_field, is_swap, parse}
use rinit.Fstab.Options.{Flags, flags_and_data}

-- `MountOps`, as far as the second wave uses it: each call gives the error's number, if it fails,
-- and the state behind it.
pub record MountOps (S : Type 0) : Type 0 where
  pub mkdir_p : S → Text → Option ℕ × S
  pub mount_fs : S → Text → Text → Text → Flags → Option Text → Option ℕ × S

pub record FstabReport : Type 0 where
  pub mounted : List Text
  pub warnings : List Warning

-- The second field of a line of /proc/mounts is the point.
unfoldable pub second_word : List Text → Option Text
second_word (_ ∷ p ∷ _) = some p
second_word _ = none

unfoldable pub points_at : Text → List Text → Bool
unfolding second_word
points_at point [] = false
points_at point (line ∷ rest) =
    elim (second_word (words_by is_whitespace line)) [
      | none ↦ false
      | some p ↦ text_eq (unescape_mount_field p) point
    ]
    || points_at point rest

unfoldable pub is_mounted : Option Text → Text → Bool
unfolding points_at
is_mounted none point = false
is_mounted (some mounts) point = points_at point (lines mounts)

-- An entry that is not passed over.
unfoldable pub is_due : Option Text → Entry → Bool
is_due current e = not (is_swap e) && not (is_mounted current e.mountpoint)

-- What mounting one entry came to: nothing, or the warning.
unfoldable pub mount_entry : {S : Type 0} → MountOps S → S → Entry → Option Warning × S
mount_entry ops s e =
    let (made, s) = ops.mkdir_p s e.mountpoint in
    elim made [
      | some errno ↦ (some (cannot_create e.mountpoint errno), s)
      | none ↦
          let (flags, kept) = flags_and_data e in
          let (done, s) = ops.mount_fs s e.device e.mountpoint e.fstype flags kept in
          elim done [ some errno ↦ (some (cannot_mount e errno), s) | none ↦ (none, s) ]
    ]

abbrev pub noted : Text → Option Warning → FstabReport → FstabReport
noted point none r = record r { mounted = r.mounted ++ point ∷ [] }
noted point (some w) r = record r { warnings = r.warnings ++ w ∷ [] }

-- The loop over the entries.
unfoldable pub mount_all :
    {S : Type 0} → MountOps S → Option Text → S → FstabReport → List Entry → FstabReport × S
unfolding is_due mount_entry
mount_all ops current s r [] = (r, s)
mount_all ops current s r (e ∷ es) = elim (is_due current e) [
  | false ↦ mount_all ops current s r es
  | true ↦ let (w, t) = mount_entry ops s e in mount_all ops current t (noted e.mountpoint w r) es
]

unfoldable pub mount_with_mounted :
    {S : Type 0} → MountOps S → S → Text → Option Text → FstabReport × S
unfolding mount_all
mount_with_mounted ops s text current =
    let (entries, warnings) = parse text in
    mount_all ops current s (record { mounted = []; warnings = warnings }) entries

unfoldable pub mount_with : {S : Type 0} → MountOps S → S → Text → FstabReport × S
unfolding mount_with_mounted
mount_with ops s text = mount_with_mounted ops s text none
