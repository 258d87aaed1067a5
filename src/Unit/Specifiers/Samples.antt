-- ===== src/Unit/Specifiers/Samples.antt =====
-- crates/rinit-core/src/unit/template.rs: the theorems on specifiers at a concrete template.
use rinit.Prelude.{ℕ, ◌≡◌, refl, ◌↔◌, some, List, [], ◌∷◌, arith, Text, codes}
use rinit.Unit.Name.{UnitName, service, instance_of}
use rinit.Unit.Specifiers.{substitute}
use rinit.Unit.Specifiers.Expansion.{Expands, substitute_iff_Expands}

abbrev tty : UnitName
tty = record { canonical = codes "getty@tty1.service"; ty = service }

substitute_iff_Expands_example :
    (substitute (codes "/dev/%i 5%%") tty ≡ some (codes "/dev/tty1 5%")) ↔ (
      (inst : Text) × (instance_of tty ≡ some inst)
      × Expands tty inst (codes "/dev/%i 5%%") (codes "/dev/tty1 5%"))
substitute_iff_Expands_example =
    substitute_iff_Expands (codes "/dev/%i 5%%") tty (codes "/dev/tty1 5%")

-- The template of the first example does expand so.
substituted : substitute (codes "/dev/%i 5%%") tty ≡ some (codes "/dev/tty1 5%")
unfolding substitute instance_of rinit.Prelude.Slices.split_once rinit.Unit.Name.stem
    rinit.Prelude.Slices.strip_suffix rinit.Prelude.Slices.strip_prefix rinit.Unit.Name.suffix
    rinit.Unit.Specifiers.specifier
substituted = refl
