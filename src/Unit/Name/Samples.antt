-- ===== src/Unit/Name/Samples.antt =====
-- crates/rinit-core/src/unit/mod.rs: the theorems on names at concrete ones.
use rinit.Prelude.{
  ℕ, ◌≡◌, ◌≢◌, refl, ◌↔◌, true, some, List, [], ◌∷◌, arith, Text, codes, text_eq, ok,
}
use rinit.Prelude.Slices.{all}
use rinit.Unit.Name.{
  UnitName, service, target, suffix, is_name_char, is_valid_unit_name, parse, stem, instance_of,
  template,
}
use rinit.Unit.Name.Canonical.{IsCanonical, parse-IsCanonical, canonical_iff_parse}
use rinit.Unit.Name.Template.{TemplateOf, template-instance_of}

abbrev getty : UnitName
getty = record { canonical = codes "getty@tty1.service"; ty = service }

abbrev boot : UnitName
boot = record { canonical = codes "boot.target"; ty = target }

-- A bare name with blanks about it.
parse-getty : parse (codes " getty@tty1 ") ≡ ok getty
unfolding parse rinit.Prelude.Slices.trim_by rinit.Prelude.Slices.trim_start
    rinit.Unit.Name.is_whitespace rinit.Prelude.Slices.strip_suffix
    rinit.Prelude.Slices.strip_prefix
parse-getty = refl

canonical_iff_parse_example : IsCanonical boot ↔ (parse (codes "boot.target") ≡ ok boot)
canonical_iff_parse_example = canonical_iff_parse boot

template-instance_of_example : (t : UnitName) × TemplateOf getty t (codes "tty1")
unfolding instance_of rinit.Prelude.Slices.split_once stem rinit.Prelude.Slices.strip_suffix
    rinit.Prelude.Slices.strip_prefix suffix
template-instance_of_example =
    template-instance_of getty (codes "tty1")
      (parse-IsCanonical (codes " getty@tty1 ") getty parse-getty) refl
