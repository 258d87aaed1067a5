-- ===== src/Unit/Sandbox/Order.antt =====
-- crates/rinit-core/src/unit/sandbox.rs: the order of the steps.
use rinit.Prelude.{
  ℕ, ◌<◌, ◌≡◌, ◌∙◌, ◌↔◌, Bool, true, false, not, ◌&&◌, ◌||◌, List, [], ◌∷◌, ◌++◌, arith, ◌==◌, All,
}
use mathlib.Core.Path.{ap₂}
use rinit.Unit.Sandbox.{
  SandboxStep, no_new_privileges, keep_capabilities, set_inheritable, set_bounding_set, set_group,
  set_groups, set_user, raise_ambient, Sandbox, is_some, when, steps, is_inherited,
  drops_privileges,
}

-- The place of a step in its declaration, which its derived order follows.
unfoldable pub step_rank : SandboxStep → ℕ
step_rank no_new_privileges = 0
step_rank keep_capabilities = 1
step_rank set_inheritable = 2
step_rank set_bounding_set = 3
step_rank set_group = 4
step_rank set_groups = 5
step_rank set_user = 6
step_rank raise_ambient = 7

unfoldable pub occurs : SandboxStep → List SandboxStep → Bool
unfolding step_rank
occurs s [] = false
occurs s (t ∷ ts) = step_rank t == step_rank s || occurs s ts

-- Each step has a smaller place than all behind it.
abbrev pub InOrder : List SandboxStep → Type 0
unfolding step_rank
InOrder [] = Unit
InOrder (s ∷ ss) = All (λ t. step_rank s < step_rank t) ss × InOrder ss

-- Which steps a sandbox asks for.
unfoldable pub asks_for : Sandbox → SandboxStep → Bool
asks_for s no_new_privileges = s.no_new_privileges
asks_for s keep_capabilities = is_some s.ambient
asks_for s set_inheritable = is_some s.ambient
asks_for s set_bounding_set = is_some s.bounding_set
asks_for s set_group = not (s.gid == 0)
asks_for s set_groups = is_some s.groups
asks_for s set_user = not (s.uid == 0)
asks_for s raise_ambient = is_some s.ambient

-- What holds of the steps: their order, which they are, and when there are none.
pub record IsPlan (s : Sandbox) : Type 0 where
  pub ordered : InOrder (steps s)
  pub exact : (t : SandboxStep) → occurs t (steps s) ≡ asks_for s t
  pub none_iff : (steps s ≡ []) ↔ (is_inherited s ≡ true)
  pub drop_iff : (occurs set_user (steps s) || occurs set_group (steps s)) ≡ drops_privileges s

-- The steps of a plan by its six tests.
abbrev plan_of : Bool → Bool → Bool → Bool → Bool → Bool → List SandboxStep
plan_of n a b g l u =
    when n (no_new_privileges ∷ [])
    ++ when a (keep_capabilities ∷ set_inheritable ∷ [])
    ++ when b (set_bounding_set ∷ [])
    ++ when g (set_group ∷ [])
    ++ when l (set_groups ∷ [])
    ++ when u (set_user ∷ [])
    ++ when a (raise_ambient ∷ [])

plan_of-InOrder : (n a b g l u : Bool) → InOrder (plan_of n a b g l u)
unfolding step_rank
plan_of-InOrder n a b g l u = ground arith

occurs-plan_of :
    (t : SandboxStep) (n a b g l u : Bool)
    → occurs t (plan_of n a b g l u) ≡ elim t [
      | no_new_privileges ↦ n
      | keep_capabilities ↦ a
      | set_inheritable ↦ a
      | set_bounding_set ↦ b
      | set_group ↦ g
      | set_groups ↦ l
      | set_user ↦ u
      | raise_ambient ↦ a
    ]
unfolding occurs step_rank
occurs-plan_of t n a b g l u = ground arith

plan_of_none :
    (n a b g l u : Bool)
    → (plan_of n a b (not g) l (not u) ≡ []) ↔ ((not n && not a && not b && g && not l && u) ≡ true)
plan_of_none n a b g l u = ground arith

asked :
    (s : Sandbox) (t : SandboxStep)
    → (elim t [
      | no_new_privileges ↦ s.no_new_privileges
      | keep_capabilities ↦ is_some s.ambient
      | set_inheritable ↦ is_some s.ambient
      | set_bounding_set ↦ is_some s.bounding_set
      | set_group ↦ not (s.gid == 0)
      | set_groups ↦ is_some s.groups
      | set_user ↦ not (s.uid == 0)
      | raise_ambient ↦ is_some s.ambient
    ])
      ≡ asks_for s t
unfolding asks_for
asked s t = ground arith

-- For every sandbox: the steps stand in the order of their declaration, each at most once; they are
-- the steps that its fields ask for; there are none exactly if the sandbox is inherited; and the user
-- or the group is set exactly if the sandbox drops privileges.
pub steps-IsPlan : (s : Sandbox) → IsPlan s
unfolding steps is_inherited drops_privileges asks_for
steps-IsPlan s = record {
  ordered = plan_of-InOrder _ _ _ _ _ _;
  exact = λ t. occurs-plan_of t _ _ _ _ _ _ ∙ asked s t;
  none_iff = plan_of_none _ _ _ _ _ _;
  drop_iff =
      ap₂ (λ x y. x || y) (occurs-plan_of set_user _ _ _ _ _ _)
        (occurs-plan_of set_group _ _ _ _ _ _);
}
