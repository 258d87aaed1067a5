-- ===== src/Unit/Dependency/Samples.antt =====
-- crates/rinit-core/src/unit/dependency.rs: the theorems on the graph at a concrete unit directory.
use rinit.Prelude.{◌+◌, ◌≡◌, refl, arith, List, [], ◌∷◌, Text, codes, text_eq, ok, err}
use rinit.Prelude.Slices.{contains}
use rinit.Prelude.Order.{text_before}
use rinit.Unit.Name.{UnitName, service, name_eq}
use rinit.Unit.Dependency.{
  DependencyError, cycle, missing_dependency, DependencyGraph, type_rank, position, push_unique,
  names_at, dependencies_of,
}
use rinit.Unit.Config.{new_config, no_dependencies, UnitConfig, has_name}
use rinit.Unit.Dependency.Scheduling.{topological_order, closure_of}
use rinit.Unit.Dependency.Building.{build, schedule}
use rinit.Unit.Dependency.Kahn.{IsSchedule}
use rinit.Unit.Dependency.Closure.{IsClosure, closure_of-IsClosure}
use rinit.Unit.Dependency.Cycle.{ClosedWalk, find_cycle-ClosedWalk}
use rinit.Unit.Dependency.Search.{search_cycle_enough}
use rinit.Unit.Dependency.Scheduling.{
  unseen, on_stack, set_mark, search_cycle, search_from, edge_count, find_cycle,
}
use rinit.Unit.Dependency.Accepted.{build-IsSchedule}

abbrev named : Text → UnitName
named s = record { canonical = s; ty = service }

abbrev app : UnitName
app = named (codes "app.service")

abbrev db : UnitName
db = named (codes "db.service")

abbrev log : UnitName
log = named (codes "log.service")

abbrev config : UnitName → List UnitName → List UnitName → UnitConfig
unfolding new_config
config name requires after = record (new_config name) {
  deps = record no_dependencies { requires = requires; after = after };
}

-- The application requires the database and starts after the log, as does the database.
abbrev directory : List UnitConfig
directory = config log [] [] ∷ config app (db ∷ []) (log ∷ db ∷ []) ∷ config db [] (log ∷ []) ∷ []

abbrev directory_graph : DependencyGraph
directory_graph = record {
  units = app ∷ db ∷ log ∷ [];
  dependencies = (1 ∷ 2 ∷ []) ∷ (2 ∷ []) ∷ [] ∷ [];
  activations = (1 ∷ []) ∷ [] ∷ [] ∷ [];
  warnings = [];
}

build-directory : build directory ≡ ok directory_graph
unfolding build name_eq text_eq type_rank text_before position contains config
build-directory = refl

build-IsSchedule_example :
    (names : List UnitName) × (topological_order directory_graph ≡ ok names)
    × IsSchedule directory_graph names
build-IsSchedule_example = build-IsSchedule directory directory_graph build-directory

scheduled_levels : schedule directory app ≡ ok ((log ∷ []) ∷ (db ∷ []) ∷ (app ∷ []) ∷ [])
unfolding schedule name_eq text_eq rinit.Unit.Dependency.name_order text_before position contains
    has_name names_at dependencies_of config
scheduled_levels = refl

-- Two units that wait for each other are reported as a closed path.
two_way :
    build (config app [] (db ∷ []) ∷ config db [] (app ∷ []) ∷ [])
    ≡ err (cycle (app ∷ db ∷ app ∷ []))
unfolding build name_eq text_eq rinit.Unit.Dependency.name_order text_before position contains
    names_at config new_config
two_way = refl

app_pulls_db : closure_of directory_graph app ≡ app ∷ db ∷ []
unfolding closure_of name_eq text_eq position names_at contains
app_pulls_db = refl

closure_of-IsClosure_example : IsClosure directory_graph 0 (closure_of directory_graph app)
unfolding position name_eq text_eq
closure_of-IsClosure_example = closure_of-IsClosure directory_graph app 0 refl

-- The two units of `two_way`.
abbrev looped : DependencyGraph
looped = record {
  units = app ∷ db ∷ [];
  dependencies = (1 ∷ []) ∷ (0 ∷ []) ∷ [];
  activations = [] ∷ [] ∷ [];
  warnings = [];
}

find_cycle-ClosedWalk_example :
    (find_cycle looped ≡ cycle (app ∷ db ∷ app ∷ []))
    × ClosedWalk looped.dependencies (0 ∷ 1 ∷ 0 ∷ [])
unfolding search_from names_at
find_cycle-ClosedWalk_example = find_cycle-ClosedWalk looped (0 ∷ 1 ∷ 0 ∷ []) refl refl

search_cycle_enough_example :
    search_cycle
      (2 + 2 + 1 + 9)
      looped.dependencies
      (set_mark 0 on_stack (unseen ∷ unseen ∷ []))
      (0 ∷ [])
      ((0, 0) ∷ [])
    ≡ search_cycle
        (2 + 2 + 1)
        looped.dependencies
        (set_mark 0 on_stack (unseen ∷ unseen ∷ []))
        (0 ∷ [])
        ((0, 0) ∷ [])
unfolding edge_count
search_cycle_enough_example =
    search_cycle_enough looped.dependencies (unseen ∷ unseen ∷ []) [] 0 9 (omega arith) refl
