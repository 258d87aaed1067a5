-- ===== src/Unit/Sandbox/Samples.antt =====
-- crates/rinit-core/src/unit/sandbox.rs: the theorem on the steps at a concrete sandbox, and tests.
use rinit.Prelude.{◌≡◌, refl, true, false, some, [], ◌∷◌}
use rinit.Unit.Sandbox.{
  no_new_privileges, keep_capabilities, set_inheritable, set_bounding_set, set_group, set_groups,
  set_user, raise_ambient, Sandbox, inherit, steps, is_inherited, drops_privileges,
}
use rinit.Unit.Sandbox.Order.{IsPlan, steps-IsPlan}

-- A server that keeps one capability under a user of its own.
abbrev server : Sandbox
server = record {
  uid = 33;
  gid = 33;
  groups = some [];
  no_new_privileges = true;
  bounding_set = some (10 ∷ []);
  ambient = some (10 ∷ []);
}

steps-IsPlan_example : IsPlan server
steps-IsPlan_example = steps-IsPlan server

steps-server :
    steps server
    ≡ no_new_privileges ∷ keep_capabilities ∷ set_inheritable ∷ set_bounding_set ∷ set_group
      ∷ set_groups ∷ set_user ∷ raise_ambient ∷ []
unfolding steps
steps-server = refl

steps-inherit :
    (steps inherit ≡ []) × (is_inherited inherit ≡ true) × (drops_privileges inherit ≡ false)
unfolding steps is_inherited drops_privileges
steps-inherit = (refl, refl, refl)
