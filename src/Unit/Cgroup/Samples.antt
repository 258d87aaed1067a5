-- ===== src/Unit/Cgroup/Samples.antt =====
-- crates/rinit-core/src/unit/cgroup.rs: the theorems on limits at concrete values, and tests.
use rinit.Prelude.{
  ℕ, zero, suc, ◌+◌, ◌-◌, ◌*◌, ◌/◌, ◌%◌, ◌^◌, ◌≤◌, ◌<◌, min, max, ◌≡◌, refl, sym, ap, ◌∙◌, ◌≢◌, ◌↔◌,
  ◌⊎◌, inl, inr, Bool, true, false, not, ◌&&◌, ◌||◌, Option, none, some, List, [], ◌∷◌, ◌++◌, map,
  Memᴰ, arith, ltb, leb, ◌==◌, ==_iff, if◌then◌else◌, ltb→lt, lt→ltb, leb→le, Bool-cases,
  Option-cases, length, get_elem?, take, drop, length-append, length-drop, take-append, drop-append,
  List-cases, All, All-append, All-drop, Text, codes, text_eq, text_eq_iff, Result, ok, err, ◌>>=◌,
  ◌>>◌, Result-cases,
}
use rinit.Prelude.Splits.{words_by}
use rinit.Prelude.Printed.{decimal}
use rinit.Prelude.Slices.{split_on}
use rinit.Unit.Name.{
  is_whitespace, UnitName, service, target, suffix, is_name_char, is_valid_unit_name,
}
use rinit.Unit.Name.{parse as parse_name}
use rinit.Unit.Config.{percent}
use rinit.Unit.Cgroup.{is_empty, lists_word, CgroupLimits, files}
use rinit.Unit.Cgroup.Plan.{SizeFits, QuotaFits, CountFits, IsFaithful, files-IsFaithful}
use rinit.Unit.Cgroup.Setup.{
  write_files, placed, Written, done, absent, refused, Kernel, create_dir, write_limit, setup_at,
}
use rinit.Unit.Cgroup.Placement.{Justified, setup_at-Justified}

abbrev limits : CgroupLimits
limits = record {
  cpu_max = some (percent 50);
  memory_max = some (record { bytes = 1048576 });
  memory_high = none;
  tasks_max = some 64;
}

files-limits :
    files limits
    ≡ (codes "cpu", codes "cpu.max", codes "50000 100000")
      ∷ (codes "memory", codes "memory.max", codes "1048576")
      ∷ (codes "pids", codes "pids.max", codes "64")
      ∷ []
unfolding files rinit.Prelude.Printed.decimal
files-limits = refl

files-IsFaithful_example : IsFaithful limits
unfolding SizeFits QuotaFits CountFits
files-IsFaithful_example = files-IsFaithful limits (record {
  cpu_max = omega arith;
  memory_max = omega arith;
  memory_high = tt;
  tasks_max = omega arith;
})

abbrev web : UnitName
web = record { canonical = codes "web.service"; ty = service }

parse_name-web : parse_name (codes "web") ≡ ok web
unfolding parse_name rinit.Prelude.Slices.trim_by rinit.Prelude.Slices.trim_start
    rinit.Unit.Name.is_whitespace rinit.Prelude.Slices.strip_suffix
    rinit.Prelude.Slices.strip_prefix
parse_name-web = refl

-- A kernel without the pids controller, which takes every write but that of `cpu.max`.
abbrev kernel : Written → Kernel
kernel answer = record {
  creates = true;
  controllers = some (codes "cpu memory");
  write = λ f v. if text_eq f (codes "cpu.max") then answer else done;
}

setup_at-Justified_example :
    Justified
      (kernel absent)
      (codes "/g/web")
      limits
      (setup_at (kernel absent) (codes "/g/web") limits)
setup_at-Justified_example = setup_at-Justified (kernel absent) (codes "/g/web") limits

setup_at-absent : setup_at (kernel absent) (codes "/g/web") limits ≡ (
  create_dir
      ∷ write_limit (codes "cpu.max") (codes "50000 100000")
      ∷ write_limit (codes "memory.max") (codes "1048576")
      ∷ [],
  ok (some (codes "/g/web")),
)
unfolding setup_at is_empty files write_files placed lists_word words_by is_whitespace text_eq
    decimal
setup_at-absent = refl

setup_at-refused :
    setup_at (kernel (refused 22)) (codes "/g/web") limits
    ≡ (create_dir ∷ write_limit (codes "cpu.max") (codes "50000 100000") ∷ [], err 22)
unfolding setup_at is_empty files write_files placed lists_word words_by is_whitespace text_eq
    decimal
setup_at-refused = refl
