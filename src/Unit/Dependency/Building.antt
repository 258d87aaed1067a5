-- ===== src/Unit/Dependency/Building.antt =====
-- crates/rinit-core/src/unit/dependency.rs: building the graph, and the schedule of a boot.
use rinit.Prelude.{
  ℕ, zero, suc, Bool, true, false, Option, none, some, List, [], ◌∷◌, ◌++◌, map, if◌then◌else◌,
  Text, codes, Result, ok, err, ◌>>=◌,
}
use rinit.Unit.Name.{UnitName, name_eq}
use rinit.Unit.Dependency.{
  DependencyError, missing_dependency, unknown_default_target, duplicate_unit, Adjacency,
  DependencyGraph, name_order, position, push_unique,
}
use rinit.Unit.Config.{Dependencies, UnitConfig, has_name}
use rinit.Unit.Dependency.Scheduling.{check_acyclic, levels}

pub data Edge : Type 0 where
  requires wants after : Edge

unfoldable pub directive : Edge → Text
directive requires = codes "Requires"
directive wants = codes "Wants"
directive after = codes "After"

unfoldable pub activates : Edge → Bool
activates after = false
activates _ = true

-- The stable sort by name.
unfoldable pub insert_config : UnitConfig → List UnitConfig → List UnitConfig
insert_config c [] = c ∷ []
insert_config c (d ∷ cs) =
    if name_order.before d.name c.name then d ∷ insert_config c cs else c ∷ d ∷ cs

unfoldable pub sort_configs : List UnitConfig → List UnitConfig
unfolding insert_config
sort_configs [] = []
sort_configs (c ∷ cs) = insert_config c (sort_configs cs)

-- The names of the sorted units behind `last`, or the error for one that is there twice.
unfoldable pub distinct_names :
    Option UnitName → List UnitConfig → Result DependencyError (List UnitName)
distinct_names last [] = ok []
distinct_names none (c ∷ cs) = distinct_names (some c.name) cs >>= λ us. ok (c.name ∷ us)
distinct_names (some u) (c ∷ cs) = elim (name_eq u c.name) [
  | true ↦ err (duplicate_unit c.name)
  | false ↦ distinct_names (some c.name) cs >>= λ us. ok (c.name ∷ us)
]

unfoldable pub push_at : ℕ → ℕ → Adjacency → Adjacency
unfolding push_unique
push_at i value [] = []
push_at zero value (r ∷ rows) = push_unique r value ∷ rows
push_at (suc i) value (r ∷ rows) = r ∷ push_at i value rows

-- What the loop over the units builds.
pub record Draft : Type 0 where
  pub dependencies : Adjacency
  pub activations : Adjacency
  pub warnings : List Text

abbrev pub missing_text : UnitName → Text → UnitName → Text
missing_text name key unit =
    name.canonical
    ++ codes ": "
    ++ key
    ++ codes "="
    ++ unit.canonical
    ++ codes " but no such unit file exists"

module _ (units : List UnitName) (name : UnitName) (me : ℕ) where
  -- `Before=`: the other unit waits for this one.
  unfoldable pub add_before : List UnitName → Draft → Result DependencyError Draft
  unfolding push_at
  add_before [] d = ok d
  add_before (unit ∷ rest) d = elim (position unit units) [
    | none ↦ err (missing_dependency name unit (codes "Before"))
    | some other ↦ add_before rest (record d { dependencies = push_at other me d.dependencies })
  ]

  -- `Conflicts=`: no edge, and a warning for a name that is no unit.
  unfoldable pub add_conflicts : List UnitName → Draft → Draft
  add_conflicts [] d = d
  add_conflicts (unit ∷ rest) d = elim (position unit units) [
    | none ↦
        add_conflicts rest
          (record d { warnings = d.warnings ++ missing_text name (codes "Conflicts") unit ∷ [] })
    | some _ ↦ add_conflicts rest d
  ]

  unfoldable pub add_missing : UnitName → Edge → Draft → Result DependencyError Draft
  unfolding directive
  add_missing unit wants d =
      ok (record d { warnings = d.warnings ++ missing_text name (codes "Wants") unit ∷ [] })
  add_missing unit edge d = err (missing_dependency name unit (directive edge))

  unfoldable pub add_edge : UnitName → Edge → Draft → Result DependencyError Draft
  unfolding add_missing push_at activates
  add_edge unit edge d = elim (position unit units) [
    | none ↦ add_missing unit edge d
    | some other ↦ ok (record d {
      dependencies = push_at me other d.dependencies;
      activations = if activates edge then push_at me other d.activations else d.activations;
    })
  ]

  unfoldable pub add_edges : List (UnitName × Edge) → Draft → Result DependencyError Draft
  unfolding add_edge
  add_edges [] d = ok d
  add_edges ((unit, edge) ∷ rest) d = add_edge unit edge d >>= λ d'. add_edges rest d'

abbrev pub edges_of : Dependencies → List (UnitName × Edge)
edges_of deps =
    map (λ u. (u, requires)) deps.requires
    ++ map (λ u. (u, wants)) deps.wants
    ++ map (λ u. (u, after)) deps.after

unfoldable pub add_unit : List UnitName → UnitConfig → Draft → Result DependencyError Draft
unfolding add_before add_conflicts add_edges
add_unit units cfg d = elim (position cfg.name units) [
  | none ↦ ok d
  | some me ↦ add_before units cfg.name me cfg.deps.before d >>= λ d'.
      add_edges units cfg.name me (edges_of cfg.deps)
        (add_conflicts units cfg.name me cfg.deps.conflicts d')
]

unfoldable pub add_units : List UnitName → List UnitConfig → Draft → Result DependencyError Draft
unfolding add_unit
add_units units [] d = ok d
add_units units (cfg ∷ cfgs) d = add_unit units cfg d >>= λ d'. add_units units cfgs d'

abbrev pub empty_draft : List UnitName → Draft
empty_draft units = record {
  dependencies = map (λ _. []) units;
  activations = map (λ _. []) units;
  warnings = [];
}

abbrev pub graph_of : List UnitName → Draft → DependencyGraph
graph_of units d = record {
  units = units;
  dependencies = d.dependencies;
  activations = d.activations;
  warnings = d.warnings;
}

unfoldable pub build : List UnitConfig → Result DependencyError DependencyGraph
unfolding sort_configs distinct_names add_units check_acyclic
build configs = distinct_names none (sort_configs configs) >>= λ units.
    add_units units (sort_configs configs) (empty_draft units) >>= λ d.
    check_acyclic (graph_of units d) >>= λ _. ok (graph_of units d)

unfoldable pub schedule : List UnitConfig → UnitName → Result DependencyError (List (List UnitName))
unfolding build levels
schedule configs default_target = build configs >>= λ g. elim (has_name default_target g.units) [
  | true ↦ levels g
  | false ↦ err (unknown_default_target default_target)
]
