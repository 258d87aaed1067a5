-- ===== src/Unit/Sandbox.antt =====
-- crates/rinit-core/src/unit/sandbox.rs: the plan of a privilege drop between fork and exec.
use rinit.Prelude.{
  ℕ, zero, suc, ◌+◌, ◌-◌, ◌*◌, ◌/◌, ◌%◌, ◌^◌, ◌≤◌, ◌<◌, min, max, ◌≡◌, refl, sym, ap, ◌∙◌, ◌≢◌, ◌↔◌,
  ◌⊎◌, inl, inr, Bool, true, false, not, ◌&&◌, ◌||◌, Option, none, some, List, [], ◌∷◌, ◌++◌, map,
  Memᴰ, arith, ltb, leb, ◌==◌, ==_iff, if◌then◌else◌, ltb→lt, lt→ltb, leb→le, Bool-cases,
  Option-cases, length, get_elem?, take, drop, length-append, length-drop, take-append, drop-append,
  List-cases, All, All-append, All-drop, Text, codes, text_eq, text_eq_iff, Result, ok, err, ◌>>=◌,
  ◌>>◌, Result-cases,
}
pub mod Order
mod Samples

pub data SandboxStep : Type 0 where
  no_new_privileges keep_capabilities set_inheritable set_bounding_set : SandboxStep
  set_group set_groups set_user raise_ambient : SandboxStep

pub record Sandbox : Type 0 where
  pub uid : ℕ
  pub gid : ℕ
  pub groups : Option (List ℕ)
  pub no_new_privileges : Bool
  pub bounding_set : Option (List ℕ)
  pub ambient : Option (List ℕ)

abbrev pub inherit : Sandbox
inherit = record {
  uid = 0;
  gid = 0;
  groups = none;
  no_new_privileges = false;
  bounding_set = none;
  ambient = none;
}

abbrev pub is_some : {A : Type 0} → Option A → Bool
is_some none = false
is_some (some _) = true

-- The steps, if they are wanted.
abbrev pub when : Bool → List SandboxStep → List SandboxStep
when b ss = if b then ss else []

unfoldable pub steps : Sandbox → List SandboxStep
steps s =
    when s.no_new_privileges (no_new_privileges ∷ [])
    ++ when (is_some s.ambient) (keep_capabilities ∷ set_inheritable ∷ [])
    ++ when (is_some s.bounding_set) (set_bounding_set ∷ [])
    ++ when (not (s.gid == 0)) (set_group ∷ [])
    ++ when (is_some s.groups) (set_groups ∷ [])
    ++ when (not (s.uid == 0)) (set_user ∷ [])
    ++ when (is_some s.ambient) (raise_ambient ∷ [])

unfoldable pub is_inherited : Sandbox → Bool
is_inherited s =
    not s.no_new_privileges
    && not (is_some s.ambient)
    && not (is_some s.bounding_set)
    && s.gid == 0
    && not (is_some s.groups)
    && s.uid == 0

unfoldable pub drops_privileges : Sandbox → Bool
drops_privileges s = not (s.uid == 0) || not (s.gid == 0)
