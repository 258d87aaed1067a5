-- ===== src/Unit/Dependency.antt =====
-- crates/rinit-core/src/unit/dependency.rs: the dependency graph and its errors. An index is a position in the sorted units.
use rinit.Prelude.{
  ℕ, zero, suc, ◌+◌, ◌-◌, ◌*◌, ◌/◌, ◌%◌, ◌^◌, ◌≤◌, ◌<◌, min, max, ◌≡◌, refl, sym, ap, ◌∙◌, ◌≢◌, ◌↔◌,
  ◌⊎◌, inl, inr, Bool, true, false, not, ◌&&◌, ◌||◌, Option, none, some, List, [], ◌∷◌, ◌++◌, map,
  Memᴰ, arith, ltb, leb, ◌==◌, ==_iff, if◌then◌else◌, ltb→lt, lt→ltb, leb→le, Bool-cases,
  Option-cases, length, get_elem?, take, drop, length-append, length-drop, take-append, drop-append,
  List-cases, All, All-append, All-drop, Text, codes, text_eq, text_eq_iff, Result, ok, err, ◌>>=◌,
  ◌>>◌, Result-cases,
}
use rinit.Prelude.Slices.{contains}
use rinit.Prelude.Order.{Order, lex_order, text_order, num_order}
use rinit.Unit.Name.{UnitName, UnitType, service, target, name_eq}
use mathlib.Core.Option as Opt
use rinit.Unit.Config.{UnitConfig}
pub mod Scheduling
pub mod Building
pub mod Sockets
pub mod Kahn
pub mod Accepted
pub mod Closure
pub mod Search
pub mod Cycle
mod Samples

pub data DependencyError : Type 0 where
  cycle : List UnitName → DependencyError
  missing_dependency : UnitName → UnitName → Text → DependencyError
  unknown_default_target : UnitName → DependencyError
  duplicate_socket : Text → UnitName → UnitName → DependencyError
  duplicate_unit : UnitName → DependencyError

-- For each unit's index the indices it points at.
abbrev pub Adjacency : Type 0
Adjacency = List (List ℕ)

pub record DependencyGraph : Type 0 where
  pub units : List UnitName
  pub dependencies : Adjacency
  pub activations : Adjacency
  pub warnings : List Text

-- The derived order of the names: by the text, and then by the type.
unfoldable pub type_rank : UnitType → ℕ
type_rank service = 0
type_rank target = 1

pub rank_injective :
    (m n : UnitName) → m.canonical ≡ n.canonical → type_rank m.ty ≡ type_rank n.ty → m ≡ n
unfolding type_rank
rank_injective m n p q = ground arith

abbrev pub name_order : Order UnitName
unfolding type_rank
name_order = lex_order text_order num_order (λ n. n.canonical) (λ n. type_rank n.ty) rank_injective

-- The index of a name. On the sorted units, which hold no name twice, a binary search finds it too.
unfoldable pub position : UnitName → List UnitName → Option ℕ
position name [] = none
position name (u ∷ us) = if name_eq u name then some 0 else Opt.map suc (position name us)

unfoldable pub push_unique : List ℕ → ℕ → List ℕ
push_unique list value = if contains value list then list else list ++ value ∷ []

-- The names at these indices; an index out of range has none.
unfoldable pub names_at : List UnitName → List ℕ → List UnitName
names_at units [] = []
names_at units (i ∷ is) = elim (get_elem? units i) [
  | none ↦ names_at units is
  | some u ↦ u ∷ names_at units is
]

abbrev pub row : Adjacency → ℕ → List ℕ
row deps i = Opt.get_or (get_elem? deps i) []

unfoldable pub dependencies_of : DependencyGraph → UnitName → List UnitName
unfolding position names_at
dependencies_of g unit = elim (position unit g.units) [
  | none ↦ []
  | some i ↦ names_at g.units (row g.dependencies i)
]

-- Targets are never launched.
unfoldable pub spawns_process : UnitConfig → Bool
spawns_process config = elim config.kind [ service ↦ true | target ↦ false ]
