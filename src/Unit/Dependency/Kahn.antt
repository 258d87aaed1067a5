-- ===== src/Unit/Dependency/Kahn.antt =====
-- crates/rinit-core/src/unit/dependency.rs: the rounds of the topological order.
use rinit.Prelude.{
  ℕ, zero, suc, ◌+◌, ◌<◌, ◌≡◌, refl, sym, ap, ◌∙◌, inl, inr, Bool, true, false, not, ◌&&◌, none,
  some, List, [], ◌∷◌, ◌++◌, map, arith, ◌==◌, ==_iff, if◌then◌else◌, Bool-cases, Option-cases,
  length, All, ok, err,
}
use rinit.Prelude.{All-mono}
use rinit.Prelude.Slices.{contains, contains-snoc}
use rinit.Unit.Name.{UnitName}
use rinit.Unit.Dependency.{Adjacency, DependencyGraph, names_at, row}
use rinit.Unit.Dependency.Scheduling.{
  Rounds, ready_from, named_before, least, lower, mark_placed, place, run_rounds, first_round,
  find_cycle, topological_order,
}
use mathlib.Core.List.{append_assoc, append-nil}
use mathlib.Core.Path.{ap₂, subst}

-- No index twice.
abbrev pub Distinct : List ℕ → Type 0
Distinct [] = Unit
Distinct (d ∷ ds) = (contains d ds ≡ false) × Distinct ds

-- Each index is one of a unit, is not among those before it, and has all it waits for among them.
abbrev pub Respects : Adjacency → List ℕ → List ℕ → Type 0
Respects rows earlier [] = Unit
Respects rows earlier (i ∷ is) =
    (i < length rows)
    × (contains i earlier ≡ false)
    × All (λ d. contains d earlier ≡ true) (row rows i)
    × Respects rows (earlier ++ i ∷ []) is

-- How many of these are not among `o`.
waiting : List ℕ → List ℕ → ℕ
waiting o [] = 0
waiting o (d ∷ ds) = if contains d o then waiting o ds else suc (waiting o ds)

-- For the indices from `i` on, whether they are among `o`.
flags : List ℕ → ℕ → Adjacency → List Bool
flags o i [] = []
flags o i (_ ∷ rows) = contains i o ∷ flags o (i + 1) rows

waiting-snoc :
    (o : List ℕ) (n : ℕ) (ds : List ℕ)
    → contains n o ≡ false
    → Distinct ds
    → waiting o ds ≡ waiting (o ++ n ∷ []) ds + (if contains n ds then 1 else 0)
unfolding waiting contains
waiting-snoc o n [] h d = omega arith
waiting-snoc o n (x ∷ ds) h d = ground (arith, waiting-snoc o n ds h d.1, contains-snoc x n o)

lower-waiting :
    (o : List ℕ) (n : ℕ) (rows : Adjacency)
    → contains n o ≡ false
    → All Distinct rows
    → lower n rows (map (waiting o) rows) ≡ map (waiting (o ++ n ∷ [])) rows
unfolding lower
lower-waiting o n [] h d = refl
lower-waiting o n (ds ∷ rows) h d =
    ap₂ (λ r rs. r ∷ rs) (ground (arith, waiting-snoc o n ds h d.0)) (lower-waiting o n rows h d.1)

flags-snoc :
    (o : List ℕ) (n i : ℕ) (rows : Adjacency) → n < i → flags (o ++ n ∷ []) i rows ≡ flags o i rows
unfolding flags
flags-snoc o n i [] h = refl
flags-snoc o n i (_ ∷ rows) h =
    ap₂ (λ r rs. r ∷ rs) (ground (arith, contains-snoc i n o))
      (flags-snoc o n (i + 1) rows (omega arith))

mark_placed-flags :
    (o : List ℕ) (n i j : ℕ) (rows : Adjacency)
    → n ≡ i + j
    → mark_placed j (flags o i rows) ≡ flags (o ++ n ∷ []) i rows
unfolding flags mark_placed
mark_placed-flags o n i j [] e = refl
mark_placed-flags o n i zero (_ ∷ rows) e =
    ap₂ (λ r rs. r ∷ rs) (ground (arith, contains-snoc i n o))
      (sym (flags-snoc o n (i + 1) rows (omega arith)))
mark_placed-flags o n i (suc j) (_ ∷ rows) e =
    ap₂ (λ r rs. r ∷ rs) (ground (arith, contains-snoc i n o))
      (mark_placed-flags o n (i + 1) j rows (omega arith))

-- What makes the index at distance `m` behind `i` ready.
abbrev ReadyAt : List ℕ → ℕ → Adjacency → ℕ → Type 0
ReadyAt o i rows j =
    (m : ℕ) × (j ≡ i + m)
    × (m < length rows)
    × (contains j o ≡ false)
    × (waiting o (row rows m) ≡ 0)

ready_from-ReadyAt :
    (o : List ℕ) (i : ℕ) (rows : Adjacency)
    → All (ReadyAt o i rows) (ready_from i (flags o i rows) (map (waiting o) rows))
unfolding ready_from flags
ready_from-ReadyAt o i [] = tt
ready_from-ReadyAt o i (ds ∷ rows) =
    let rest =
      All-mono (ReadyAt o (i + 1) rows) (ReadyAt o i (ds ∷ rows))
        (λ j r. (suc r.0, omega (arith, r.1), omega (arith, r.2), r.3, r.4))
        (ready_from (i + 1) (flags o (i + 1) rows) (map (waiting o) rows))
        (ready_from-ReadyAt o (i + 1) rows) in
    elim (Bool-cases (not (contains i o) && waiting o ds == 0)) [
      | inl now ↦ rw (now) (
        (zero, omega arith, omega arith, ground arith, ground (arith, ==_iff (waiting o ds) 0)),
        rest,
      )
      | inr later ↦ rw later rest
    ]

least_All :
    (P : ℕ → Type 0) (units : List UnitName) (is : List ℕ) (j : ℕ)
    → All P is
    → least units is ≡ some j
    → P j
unfolding least
least_All P units [] j h e = cc
least_All P units (i ∷ is) j h e = elim (Option-cases (least units is)) [
  | inl nothing ↦ subst P (let s : i ≡ j = ground arith in s) h.0
  | inr (k, some_k) ↦ elim (Bool-cases (named_before units k i)) [
    | inl b ↦ subst P (let s : k ≡ j = ground arith in s) (least_All P units is k h.1 some_k)
    | inr b ↦ subst P (let s : i ≡ j = ground arith in s) h.0
  ]
]

none_waiting : (o ds : List ℕ) → waiting o ds ≡ 0 → All (λ d. contains d o ≡ true) ds
unfolding waiting
none_waiting o [] h = tt
none_waiting o (d ∷ ds) h = elim (Bool-cases (contains d o)) [
  | inl e ↦ (e, none_waiting o ds (ground arith))
  | inr e ↦ absurd (ground arith)
]

-- The state of the loop is what the units placed so far make it.
record InStep (rows : Adjacency) (s : Rounds) : Type 0 where
  counts : s.remaining ≡ map (waiting s.ordered) rows
  marks : s.placed ≡ flags s.ordered 0 rows

InStep-place :
    (rows : Adjacency) (s : Rounds) (n : ℕ)
    → All Distinct rows
    → InStep rows s
    → contains n s.ordered ≡ false
    → InStep rows (place rows s n)
unfolding place
InStep-place rows s n d h new = record {
  counts = ap (lower n rows) h.counts ∙ lower-waiting s.ordered n rows new d;
  marks = ap (mark_placed n) h.marks ∙ mark_placed-flags s.ordered n 0 n rows (omega arith);
}

-- The units that a run adds to those it started from.
record Adds (rows : Adjacency) (k : ℕ) (o is : List ℕ) : Type 0 where
  added : List ℕ
  whole : is ≡ o ++ added
  size : length added ≡ k
  respects : Respects rows o added

run_rounds-Adds :
    (g : DependencyGraph) (k : ℕ) (s : Rounds) (is : List ℕ)
    → All Distinct g.dependencies
    → InStep g.dependencies s
    → run_rounds g k s ≡ some is
    → Adds g.dependencies k s.ordered is
unfolding run_rounds
run_rounds-Adds g zero s is d h e = record {
  added = [];
  whole = let w : s.ordered ≡ is = cc in sym w ∙ sym (append-nil s.ordered);
  size = refl;
  respects = tt;
}
run_rounds-Adds g (suc k) s is d h e =
    elim (Option-cases (least g.units (ready_from 0 s.placed s.remaining))) [
      | inl nothing ↦ let bad : none ≡ some is = rw (nothing, run_rounds) at e in cc
      | inr (n, found) ↦
          let rows = g.dependencies in
          let fits =
            subst (All (ReadyAt s.ordered 0 rows)) (ap₂ (ready_from 0) (sym h.marks) (sym h.counts))
              (ready_from-ReadyAt s.ordered 0 rows) in
          let r =
            least_All (ReadyAt s.ordered 0 rows) g.units (ready_from 0 s.placed s.remaining) n fits
              found in
          let same : r.0 ≡ n = omega (arith, r.1) in
          let on : run_rounds g k (place rows s n) ≡ some is = rw (found, run_rounds) at e in
          let a = run_rounds-Adds g k (place rows s n) is d (InStep-place rows s n d h r.3) on in
          record {
            added = n ∷ a.added;
            whole = a.whole ∙ append_assoc s.ordered (n ∷ []) a.added;
            size = omega (arith, a.size);
            respects = (
              omega (arith, r.2),
              r.3,
              none_waiting s.ordered (row rows n) (rw same at r.4),
              a.respects,
            );
          }
    ]

waiting-nil : (ds : List ℕ) → waiting [] ds ≡ length ds
unfolding waiting contains
waiting-nil [] = refl
waiting-nil (d ∷ ds) = ap suc (waiting-nil ds)

first-counts : (rows : Adjacency) → map length rows ≡ map (waiting []) rows
first-counts [] = refl
first-counts (ds ∷ rows) = ap₂ (λ r rs. r ∷ rs) (sym (waiting-nil ds)) (first-counts rows)

first-marks : (i : ℕ) (rows : Adjacency) → map (λ _. false) rows ≡ flags [] i rows
unfolding flags contains
first-marks i [] = refl
first-marks i (ds ∷ rows) = ap (λ bs. false ∷ bs) (first-marks (i + 1) rows)

-- Names at distinct indices, each behind all indices that it waits for, and as many as units.
pub record IsSchedule (g : DependencyGraph) (names : List UnitName) : Type 0 where
  pub indices : List ℕ
  pub named : names ≡ names_at g.units indices
  pub complete : length indices ≡ length g.units
  pub respects : Respects g.dependencies [] indices

-- In a graph with no edge twice, the names that `topological_order` answers with are those at as many
-- indices as the graph has units, none of them twice, and each index stands behind all indices that
-- it waits for.
pub topological_order-IsSchedule :
    (g : DependencyGraph) (names : List UnitName)
    → All Distinct g.dependencies
    → topological_order g ≡ ok names
    → IsSchedule g names
unfolding topological_order
topological_order-IsSchedule g names d e =
    elim (Option-cases (run_rounds g (length g.units) (first_round g))) [
      | inl nothing ↦
          let bad : err (find_cycle g) ≡ ok names = rw (nothing, topological_order) at e in cc
      | inr (is, ran) ↦
          let a =
            run_rounds-Adds g (length g.units) (first_round g) is d
              (record {
                counts = first-counts g.dependencies;
                marks = first-marks 0 g.dependencies;
              })
              ran in
          let done : ok (names_at g.units is) ≡ ok names = rw (ran, topological_order) at e in
          let at_is : names_at g.units is ≡ names = cc in
          record {
            indices = a.added;
            named = sym at_is ∙ ap (names_at g.units) a.whole;
            complete = a.size;
            respects = a.respects;
          }
    ]
