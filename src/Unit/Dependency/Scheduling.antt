-- ===== src/Unit/Dependency/Scheduling.antt =====
-- crates/rinit-core/src/unit/dependency.rs: the topological order, the cycle that prevents one, the
-- levels of starting and the closure of a target.
use rinit.Prelude.{
  ℕ, zero, suc, ◌+◌, ◌-◌, max, Bool, true, false, not, ◌&&◌, Option, none, some, List, [], ◌∷◌,
  ◌++◌, map, ltb, ◌==◌, if◌then◌else◌, length, get_elem?, Result, ok, err, ◌>>=◌,
}
use rinit.Prelude.Slices.{contains}
use rinit.Unit.Name.{UnitName, name_eq}
use rinit.Unit.Dependency.{
  DependencyError, cycle, Adjacency, DependencyGraph, name_order, position, names_at, row,
  dependencies_of,
}
use mathlib.Core.Option as Opt

-- The state of the loop of `topological_order`; `ordered` holds the indices of its names.
pub record Rounds : Type 0 where
  pub remaining : List ℕ
  pub placed : List Bool
  pub ordered : List ℕ

-- The indices, counted from `i`, of the units that are not placed and wait for nothing.
unfoldable pub ready_from : ℕ → List Bool → List ℕ → List ℕ
ready_from i (p ∷ ps) (r ∷ rs) =
    let rest = ready_from (i + 1) ps rs in if not p && r == 0 then i ∷ rest else rest
ready_from i _ _ = []

unfoldable pub named_before : List UnitName → ℕ → ℕ → Bool
named_before units a b = elim (get_elem? units a) [
  | none ↦ false
  | some m ↦ elim (get_elem? units b) [ none ↦ false | some n ↦ name_order.before m n ]
]

-- `min_by`: the first of the least.
unfoldable pub least : List UnitName → List ℕ → Option ℕ
unfolding named_before
least units [] = none
least units (i ∷ is) = elim (least units is) [
  | none ↦ some i
  | some j ↦ if named_before units j i then some j else some i
]

-- One less for each unit that was waiting on `next`.
unfoldable pub lower : ℕ → Adjacency → List ℕ → List ℕ
lower next (deps ∷ rows) (r ∷ rs) = (if contains next deps then r - 1 else r) ∷ lower next rows rs
lower next _ rs = rs

unfoldable pub mark_placed : ℕ → List Bool → List Bool
mark_placed i [] = []
mark_placed zero (p ∷ ps) = true ∷ ps
mark_placed (suc i) (p ∷ ps) = p ∷ mark_placed i ps

unfoldable pub place : Adjacency → Rounds → ℕ → Rounds
unfolding lower mark_placed
place dependencies s next = record {
  remaining = lower next dependencies s.remaining;
  placed = mark_placed next s.placed;
  ordered = s.ordered ++ next ∷ [];
}

-- The loop; each round adds one unit, so the number of those that are left counts the rounds.
unfoldable pub run_rounds : DependencyGraph → ℕ → Rounds → Option (List ℕ)
unfolding place least ready_from
run_rounds g zero s = some s.ordered
run_rounds g (suc left) s = elim (least g.units (ready_from 0 s.placed s.remaining)) [
  | none ↦ none
  | some next ↦ run_rounds g left (place g.dependencies s next)
]

abbrev pub first_round : DependencyGraph → Rounds
first_round g = record {
  remaining = map length g.dependencies;
  placed = map (λ _. false) g.dependencies;
  ordered = [];
}

pub data Mark : Type 0 where
  unseen on_stack done : Mark

unfoldable pub set_mark : ℕ → Mark → List Mark → List Mark
set_mark i m [] = []
set_mark zero m (_ ∷ ms) = m ∷ ms
set_mark (suc i) m (n ∷ ms) = n ∷ set_mark i m ms

abbrev pub mark_at : List Mark → ℕ → Mark
mark_at marks i = Opt.get_or (get_elem? marks i) done

unfoldable pub drop_last : List ℕ → List ℕ
drop_last [] = []
drop_last (i ∷ []) = []
drop_last (i ∷ j ∷ is) = i ∷ drop_last (j ∷ is)

-- The stack from this index on.
unfoldable pub from_first : ℕ → List ℕ → Option (List ℕ)
from_first next [] = none
from_first next (i ∷ is) = if i == next then some (i ∷ is) else from_first next is

-- The inner loop of `find_cycle`: the cycle as an error, or the marks and the stack that it leaves.
-- A turn passes one edge or finishes one unit.
unfoldable pub search_cycle :
    ℕ → Adjacency → List Mark → List ℕ → List (ℕ × ℕ) → Result (List ℕ) (List Mark × List ℕ)
unfolding set_mark drop_last from_first
search_cycle zero deps marks stack work = ok (marks, stack)
search_cycle (suc k) deps marks stack [] = ok (marks, stack)
search_cycle (suc k) deps marks stack ((node, cursor) ∷ work) =
    elim (get_elem? (row deps node) cursor) [
      | none ↦ search_cycle k deps (set_mark node done marks) (drop_last stack) work
      | some next ↦ elim (mark_at marks next) [
        | unseen ↦
            search_cycle k deps (set_mark next on_stack marks) (stack ++ next ∷ [])
              ((next, 0) ∷ (node, suc cursor) ∷ work)
        | on_stack ↦ err (Opt.get_or (from_first next stack) stack ++ next ∷ [])
        | done ↦ search_cycle k deps marks stack ((node, suc cursor) ∷ work)
      ]
    ]

unfoldable pub edge_count : Adjacency → ℕ
edge_count [] = 0
edge_count (deps ∷ rows) = length deps + edge_count rows

-- The outer loop, over the units from `start` on.
unfoldable pub search_from : Adjacency → ℕ → ℕ → List Mark → List ℕ → Result (List ℕ) (Unit {0})
unfolding search_cycle edge_count
search_from deps zero start marks stack = ok tt
search_from deps (suc left) start marks stack = elim (mark_at marks start) [
  | unseen ↦
      search_cycle (length deps + edge_count deps + 1) deps (set_mark start on_stack marks)
        (stack ++ start ∷ []) ((start, 0) ∷ [])
      >>= λ (marks', stack'). search_from deps left (suc start) marks' stack'
  | on_stack ↦ search_from deps left (suc start) marks stack
  | done ↦ search_from deps left (suc start) marks stack
]

unfoldable pub find_cycle : DependencyGraph → DependencyError
unfolding search_from
find_cycle g = elim (search_from g.dependencies (length g.units) 0 (map (λ _. unseen) g.units) []) [
  | ok _ ↦ cycle g.units
  | err path ↦ cycle (names_at g.units path)
]

unfoldable pub topological_order : DependencyGraph → Result DependencyError (List UnitName)
unfolding run_rounds find_cycle
topological_order g = elim (run_rounds g (length g.units) (first_round g)) [
  | none ↦ err (find_cycle g)
  | some ordered ↦ ok (names_at g.units ordered)
]

unfoldable pub check_acyclic : DependencyGraph → Result DependencyError (Unit {0})
unfolding topological_order
check_acyclic g = topological_order g >>= λ _. ok tt

unfoldable pub level_in : List (UnitName × ℕ) → UnitName → ℕ
level_in [] dep = 0
level_in ((n, l) ∷ level_of) dep = if name_eq n dep then l else level_in level_of dep

unfoldable pub deepest : List (UnitName × ℕ) → List UnitName → ℕ
unfolding level_in
deepest level_of [] = 0
deepest level_of (dep ∷ deps) = max (level_in level_of dep) (deepest level_of deps)

unfoldable pub level_for : List (UnitName × ℕ) → List UnitName → ℕ
unfolding deepest
level_for level_of [] = 0
level_for level_of (dep ∷ deps) = deepest level_of (dep ∷ deps) + 1

-- The levels, as many as are needed, with the unit at the end of its own.
unfoldable pub push_level : ℕ → UnitName → List (List UnitName) → List (List UnitName)
push_level zero u [] = (u ∷ []) ∷ []
push_level zero u (l ∷ ls) = (l ++ u ∷ []) ∷ ls
push_level (suc level) u [] = [] ∷ push_level level u []
push_level (suc level) u (l ∷ ls) = l ∷ push_level level u ls

unfoldable pub levels_loop :
    DependencyGraph
    → List (UnitName × ℕ)
    → List (List UnitName)
    → List UnitName
    → List (List UnitName)
unfolding level_for push_level
levels_loop g level_of levels [] = levels
levels_loop g level_of levels (unit ∷ order) =
    let level = level_for level_of (dependencies_of g unit) in
    levels_loop g (level_of ++ (unit, level) ∷ []) (push_level level unit levels) order

unfoldable pub levels : DependencyGraph → Result DependencyError (List (List UnitName))
unfolding levels_loop topological_order
levels g = topological_order g >>= λ order. ok (levels_loop g [] [] order)

-- A set of indices as an ascending list.
unfoldable pub insert_index : ℕ → List ℕ → List ℕ
insert_index i [] = i ∷ []
insert_index i (j ∷ js) =
    if ltb i j then i ∷ j ∷ js else if i == j then j ∷ js else j ∷ insert_index i js

unfoldable pub reversed : List ℕ → List ℕ
reversed [] = []
reversed (x ∷ xs) = reversed xs ++ x ∷ []

-- The loop of `closure_of`. The list is the stack from its top; an index is expanded once, so the
-- start and every edge are popped at most once.
unfoldable pub visit : ℕ → Adjacency → List ℕ → List ℕ → List ℕ
unfolding insert_index reversed
visit zero rows seen stack = seen
visit (suc k) rows seen [] = seen
visit (suc k) rows seen (index ∷ stack) = elim (contains index seen) [
  | true ↦ visit k rows seen stack
  | false ↦ visit k rows (insert_index index seen) (reversed (row rows index) ++ stack)
]

unfoldable pub closure_of : DependencyGraph → UnitName → List UnitName
unfolding visit edge_count
closure_of g target = elim (position target g.units) [
  | none ↦ []
  | some start ↦
      names_at g.units (visit (edge_count g.activations + 2) g.activations [] (start ∷ []))
]
