-- ===== src/Unit/Dependency/Accepted.antt =====
-- crates/rinit-core/src/unit/dependency.rs: the graphs that `build` answers with.
use rinit.Prelude.{
  ℕ, zero, suc, ◌≡◌, refl, sym, inl, inr, false, none, List, [], ◌∷◌, ◌++◌, map, arith, Bool-cases,
  Option-cases, All, ok, err, Result-cases,
}
use rinit.Prelude.Slices.{contains, contains-snoc}
use rinit.Unit.Name.{UnitName}
use rinit.Unit.Dependency.{Adjacency, DependencyGraph, position, push_unique}
use rinit.Unit.Config.{UnitConfig}
use rinit.Unit.Dependency.Scheduling.{topological_order, check_acyclic}
use rinit.Unit.Dependency.Building.{
  Edge, sort_configs, distinct_names, push_at, Draft, add_before, add_conflicts, add_missing,
  add_edge, add_edges, edges_of, add_unit, add_units, empty_draft, graph_of, build,
}
use rinit.Unit.Dependency.Kahn.{Distinct, IsSchedule, topological_order-IsSchedule}
use mathlib.Core.Path.{subst}

Distinct-snoc : (l : List ℕ) (v : ℕ) → Distinct l → contains v l ≡ false → Distinct (l ++ v ∷ [])
unfolding contains
Distinct-snoc [] v d h = (refl, tt)
Distinct-snoc (x ∷ l) v d h =
    (ground (arith, contains-snoc x v l), Distinct-snoc l v d.1 (ground arith))

push_unique-Distinct : (l : List ℕ) (v : ℕ) → Distinct l → Distinct (push_unique l v)
unfolding push_unique
push_unique-Distinct l v d = elim (Bool-cases (contains v l)) [
  | inl e ↦ rw e d
  | inr e ↦ rw e (Distinct-snoc l v d e)
]

push_at-Distinct :
    (i v : ℕ) (rows : Adjacency) → All Distinct rows → All Distinct (push_at i v rows)
unfolding push_at
push_at-Distinct i v [] h = tt
push_at-Distinct zero v (r ∷ rows) h = (push_unique-Distinct r v h.0, h.1)
push_at-Distinct (suc i) v (r ∷ rows) h = (h.0, push_at-Distinct i v rows h.1)

-- No edge of the draft is there twice.
abbrev Tidy : Draft → Type 0
Tidy d = All Distinct d.dependencies

module _ (units : List UnitName) (name : UnitName) (me : ℕ) where
  add_before-Tidy :
      (us : List UnitName) (d d' : Draft) → Tidy d → add_before units name me us d ≡ ok d' → Tidy d'
  unfolding add_before
  add_before-Tidy [] d d' h e = let s : d ≡ d' = cc in subst Tidy s h
  add_before-Tidy (u ∷ us) d d' h e = elim (Option-cases (position u units)) [
    | inl gone ↦ absurd (ground arith)
    | inr (other, at) ↦
        add_before-Tidy us (record d { dependencies = push_at other me d.dependencies }) d'
          (push_at-Distinct other me d.dependencies h) (rw (at, add_before) at e)
  ]

  add_conflicts-Tidy :
      (us : List UnitName) (d : Draft) → Tidy d → Tidy (add_conflicts units name me us d)
  unfolding add_conflicts
  add_conflicts-Tidy [] d h = h
  add_conflicts-Tidy (u ∷ us) d h = elim (Option-cases (position u units)) [
    | inl gone ↦ rw (gone, add_conflicts) (add_conflicts-Tidy us _ h)
    | inr (other, at) ↦ rw (at, add_conflicts) (add_conflicts-Tidy us d h)
  ]

  add_missing-same :
      (u : UnitName) (edge : Edge) (d d' : Draft)
      → add_missing units name me u edge d ≡ ok d'
      → d'.dependencies ≡ d.dependencies
  unfolding add_missing
  add_missing-same u edge d d' e = ground arith

  add_edge-Tidy :
      (u : UnitName) (edge : Edge) (d d' : Draft)
      → Tidy d
      → add_edge units name me u edge d ≡ ok d'
      → Tidy d'
  unfolding add_edge
  add_edge-Tidy u edge d d' h e = elim (Option-cases (position u units)) [
    | inl gone ↦
        subst (All Distinct) (sym (add_missing-same u edge d d' (rw (gone, add_edge) at e))) h
    | inr (other, at) ↦
        let s : push_at me other d.dependencies ≡ d'.dependencies = ground arith in
        subst (All Distinct) s (push_at-Distinct me other d.dependencies h)
  ]

  add_edges-Tidy :
      (es : List (UnitName × Edge)) (d d' : Draft)
      → Tidy d
      → add_edges units name me es d ≡ ok d'
      → Tidy d'
  unfolding add_edges
  add_edges-Tidy [] d d' h e = let s : d ≡ d' = cc in subst Tidy s h
  add_edges-Tidy ((u, edge) ∷ es) d d' h e = elim (Result-cases (add_edge units name me u edge d)) [
    | inl (mid, at) ↦
        add_edges-Tidy es mid d' (add_edge-Tidy u edge d mid h at) (rw (at, add_edges) at e)
    | inr (x, bad) ↦ absurd (ground arith)
  ]

add_unit-Tidy :
    (units : List UnitName) (c : UnitConfig) (d d' : Draft)
    → Tidy d
    → add_unit units c d ≡ ok d'
    → Tidy d'
unfolding add_unit
add_unit-Tidy units c d d' h e = elim (Option-cases (position c.name units)) [
  | inl gone ↦ let s : d ≡ d' = ground arith in subst Tidy s h
  | inr (me, at) ↦ elim (Result-cases (add_before units c.name me c.deps.before d)) [
    | inr (x, bad) ↦ absurd (ground arith)
    | inl (mid, ran) ↦
        add_edges-Tidy units c.name me (edges_of c.deps)
          (add_conflicts units c.name me c.deps.conflicts mid) d'
          (add_conflicts-Tidy units c.name me c.deps.conflicts mid
            (add_before-Tidy units c.name me c.deps.before d mid h ran))
          (rw (at, ran, add_unit) at e)
  ]
]

add_units-Tidy :
    (units : List UnitName) (cs : List UnitConfig) (d d' : Draft)
    → Tidy d
    → add_units units cs d ≡ ok d'
    → Tidy d'
unfolding add_units
add_units-Tidy units [] d d' h e = let s : d ≡ d' = cc in subst Tidy s h
add_units-Tidy units (c ∷ cs) d d' h e = elim (Result-cases (add_unit units c d)) [
  | inl (mid, at) ↦
      add_units-Tidy units cs mid d' (add_unit-Tidy units c d mid h at) (rw (at, add_units) at e)
  | inr (x, bad) ↦ absurd (ground arith)
]

no_rows : (units : List UnitName) → All Distinct (map (λ _. []) units)
no_rows [] = tt
no_rows (u ∷ us) = (tt, no_rows us)

-- A graph that `build` answers with, its parts, and the check that it passed.
record Built (configs : List UnitConfig) (g : DependencyGraph) : Type 0 where
  units : List UnitName
  draft : Draft
  drafted : add_units units (sort_configs configs) (empty_draft units) ≡ ok draft
  passed : check_acyclic g ≡ ok tt
  made : graph_of units draft ≡ g

built : (configs : List UnitConfig) (g : DependencyGraph) → build configs ≡ ok g → Built configs g
unfolding build
built configs g e = elim (Result-cases (distinct_names none (sort_configs configs))) [
  | inr (x, bad) ↦ absurd (ground arith)
  | inl (units, named) ↦
      elim (Result-cases (add_units units (sort_configs configs) (empty_draft units))) [
        | inr (x, bad) ↦ absurd (ground arith)
        | inl (d, ran) ↦ elim (Result-cases (check_acyclic (graph_of units d))) [
          | inr (x, bad) ↦ absurd (ground arith)
          | inl (u, fine) ↦
              let m : graph_of units d ≡ g = ground arith in
              record {
                units = units;
                draft = d;
                drafted = ran;
                passed = subst (λ x. check_acyclic x ≡ ok tt) m fine;
                made = m;
              }
        ]
      ]
]

-- A graph that `build` answers with has no edge twice.
pub build-Distinct :
    (configs : List UnitConfig) (g : DependencyGraph)
    → build configs ≡ ok g
    → All Distinct g.dependencies
build-Distinct configs g e =
    let b = built configs g e in
    subst (λ x. All Distinct x.dependencies) b.made
      (add_units-Tidy b.units (sort_configs configs) (empty_draft b.units) b.draft (no_rows b.units)
        b.drafted)

-- For a graph that `build` answers with, `topological_order` never reports a cycle: its names are
-- those at as many indices as the graph has units, none of them twice, and each index stands behind
-- all indices that it waits for.
pub build-IsSchedule :
    (configs : List UnitConfig) (g : DependencyGraph)
    → build configs ≡ ok g
    → (names : List UnitName) × (topological_order g ≡ ok names) × IsSchedule g names
unfolding check_acyclic
build-IsSchedule configs g e = elim (Result-cases (topological_order g)) [
  | inl (names, ordered) ↦
      (names, ordered, topological_order-IsSchedule g names (build-Distinct configs g e) ordered)
  | inr (x, bad) ↦
      let p = (built configs g e).passed in
      let q : err x ≡ ok tt = rw (bad, check_acyclic) at p in cc
]
