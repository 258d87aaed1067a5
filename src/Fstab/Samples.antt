-- ===== src/Fstab/Samples.antt =====
-- crates/rinit-runtime/src/fstab.rs: the theorems on a concrete fstab, and tests.
use rinit.Prelude.{
  ℕ, zero, suc, ◌+◌, ◌-◌, ◌*◌, ◌/◌, ◌%◌, ◌^◌, ◌≤◌, ◌<◌, min, max, ◌≡◌, refl, sym, ap, ◌∙◌, ◌≢◌, ◌↔◌,
  ◌⊎◌, inl, inr, Bool, true, false, not, ◌&&◌, ◌||◌, Option, none, some, List, [], ◌∷◌, ◌++◌, map,
  Memᴰ, arith, ltb, leb, ◌==◌, ==_iff, if◌then◌else◌, ltb→lt, lt→ltb, leb→le, Bool-cases,
  Option-cases, length, get_elem?, take, drop, length-append, length-drop, take-append, drop-append,
  List-cases, All, All-append, All-drop, Text, codes, text_eq, text_eq_iff, Result, ok, err, ◌>>=◌,
  ◌>>◌, Result-cases,
}
use mathlib.Core.Option as Opt
use rinit.Fstab.{
  Entry, Warning, too_few_fields, not_absolute, cannot_create, cannot_mount, unescape_mount_field,
  parse, enabled,
}
use rinit.Fstab.Options.{Flag, nosuid, rdonly, noexec, Flags, option_words, joined, flags_and_data}
use rinit.Fstab.Mounting.{MountOps, FstabReport, mount_with_mounted}
use rinit.Fstab.Escapes.{escape, unescape_mount_field-escape}
use rinit.Fstab.Effective.{last_word, own_words, flags_and_data_exact}
use rinit.Fstab.Report.{IsReport, mount_with_mounted-IsReport}

abbrev table : Text
table =
    codes
      "# the board\n/dev/sda1 /data ext4 ro,nosuid,suid,mode=1 0 2\nswapfile none swap sw\ntmp tmp tmpfs rw\n/dev/b /my\\040disk vfat noauto\ncgroup /sys/fs/cgroup cgroup2 defaults\nshort line\n"

abbrev data_entry : Entry
data_entry = record {
  device = codes "/dev/sda1";
  mountpoint = codes "/data";
  fstype = codes "ext4";
  options = codes "ro,nosuid,suid,mode=1";
}

-- System calls that count themselves, and of which mounting on /data fails.
abbrev ops : MountOps ℕ
ops = record {
  mkdir_p = λ n _. (none, n + 1);
  mount_fs =
      λ n device point _ _ _. (if text_eq point (codes "/data") then some 19 else none, n + 1);
}

abbrev mounts : Option Text
mounts = some (codes "cgroup2 /sys/fs/cgroup cgroup2 rw 0 0\n")

mount_with_mounted-IsReport_example :
    IsReport ops mounts 0
      (mount_with_mounted ops 0 table mounts).1
      (parse table).0
      (parse table).1
      (mount_with_mounted ops 0 table mounts).0
mount_with_mounted-IsReport_example = mount_with_mounted-IsReport ops 0 table mounts

flags_and_data_exact_example :
    ((g : Flag)
      → (flags_and_data data_entry).0 g ≡ Opt.get_or (last_word g (option_words data_entry)) false)
    × ((flags_and_data data_entry).1 ≡ joined (own_words (option_words data_entry)))
flags_and_data_exact_example = flags_and_data_exact data_entry

unescape_mount_field-escape_example :
    unescape_mount_field (escape (codes "/my disk\\x")) ≡ codes "/my disk\\x"
unescape_mount_field-escape_example = unescape_mount_field-escape (codes "/my disk\\x")

flags_and_data-data :
    ((flags_and_data data_entry).0 rdonly ≡ true)
    × ((flags_and_data data_entry).0 nosuid ≡ false)
    × ((flags_and_data data_entry).1 ≡ some (codes "mode=1"))
unfolding flags_and_data option_words rinit.Prelude.Slices.split_on
    rinit.Prelude.Splits.is_empty_text rinit.Prelude.Slices.trim_by rinit.Prelude.Slices.trim_start
    rinit.Unit.Name.is_whitespace rinit.Fstab.Options.meaning_of text_eq
    rinit.Prelude.Slices.strip_prefix rinit.Fstab.Options.set_flag rinit.Prelude.Slices.join_with
flags_and_data-data = (refl, refl, refl)

mount_with_mounted-table : (mount_with_mounted ops 0 table none).0 ≡ record {
  mounted = codes "/sys/fs/cgroup" ∷ [];
  warnings =
      not_absolute 4 (codes "tmp")
      ∷ too_few_fields 7 (codes "short line")
      ∷ cannot_mount data_entry 19
      ∷ [];
}
unfolding mount_with_mounted parse rinit.Prelude.Splits.lines rinit.Prelude.Slices.trim_by
    rinit.Prelude.Slices.trim_start rinit.Prelude.Slices.strip_suffix
    rinit.Prelude.Slices.strip_prefix rinit.Unit.Name.is_whitespace rinit.Prelude.Splits.words_by
    text_eq unescape_mount_field rinit.Prelude.Slices.contains rinit.Prelude.Slices.split_on
    rinit.Fstab.Mounting.is_mounted
mount_with_mounted-table = refl

enabled-words :
    (enabled (codes "quiet nofstab ro\n") ≡ false) × (enabled (codes "quiet nofstabs") ≡ true)
unfolding enabled rinit.Prelude.Splits.words_by rinit.Unit.Name.is_whitespace text_eq
enabled-words = (refl, refl)
