-- ===== src/Unit/Dependency/Cycle.antt =====
-- crates/rinit-core/src/unit/dependency.rs: the path that the search for a cycle reports.
use rinit.Prelude.{
  ℕ, zero, suc, ◌+◌, ◌≤◌, ◌≡◌, refl, ap, ◌∙◌, ◌≢◌, ◌⊎◌, inl, inr, true, some, List, [], ◌∷◌, ◌++◌,
  map, arith, ◌==◌, ==_iff, Bool-cases, Option-cases, length, get_elem?, Result, ok, err,
  Result-cases,
}
use rinit.Prelude.Slices.{contains, contains-snoc}
use rinit.Unit.Name.{UnitName}
use rinit.Unit.Dependency.{cycle, Adjacency, DependencyGraph, names_at, row}
use rinit.Unit.Dependency.Scheduling.{
  Mark, unseen, on_stack, done, set_mark, mark_at, drop_last, from_first, search_cycle, search_from,
  edge_count, find_cycle,
}
use rinit.Unit.Dependency.Search.{
  spare, load, Mark-cases, get_elem?-some, spare-see, spare-done, spare_le,
}
use mathlib.Core.List.{append_assoc}
use mathlib.Core.Option as Opt
use mathlib.Core.Path.{subst}

-- Each index waits for the one behind it.
abbrev pub Walk : Adjacency → List ℕ → Type 0
Walk rows [] = Unit
Walk rows (x ∷ []) = Unit
Walk rows (x ∷ y ∷ ys) = (contains y (row rows x) ≡ true) × Walk rows (y ∷ ys)

-- A walk that ends where it begins.
pub record ClosedWalk (rows : Adjacency) (path : List ℕ) : Type 0 where
  pub first : ℕ
  pub inner : List ℕ
  pub shape : path ≡ first ∷ (inner ++ first ∷ [])
  pub walk : Walk rows path

Walk-snoc :
    (rows : Adjacency) (xs : List ℕ) (a b : ℕ)
    → Walk rows (xs ++ a ∷ [])
    → contains b (row rows a) ≡ true
    → Walk rows ((xs ++ a ∷ []) ++ b ∷ [])
Walk-snoc rows [] a b w c = (c, tt)
Walk-snoc rows (x ∷ []) a b w c = (w.0, (c, tt))
Walk-snoc rows (x ∷ y ∷ xs) a b w c = (w.0, Walk-snoc rows (y ∷ xs) a b w.1 c)

Walk-suffix : (rows : Adjacency) (pre xs : List ℕ) → Walk rows (pre ++ xs) → Walk rows xs
Walk-suffix rows [] xs w = w
Walk-suffix rows (p ∷ []) [] w = tt
Walk-suffix rows (p ∷ []) (x ∷ xs) w = w.1
Walk-suffix rows (p ∷ q ∷ pre) xs w = Walk-suffix rows (q ∷ pre) xs w.1

from_first-contains :
    (n : ℕ) (s : List ℕ)
    → contains n s ≡ true
    → (pre : List ℕ) × (ys : List ℕ) × (from_first n s ≡ some (n ∷ ys)) × (s ≡ pre ++ n ∷ ys)
unfolding contains from_first
from_first-contains n [] h = cc
from_first-contains n (x ∷ s) h = elim (Bool-cases (x == n)) [
  | inl e ↦ let same = (==_iff x n).0 e in ([], s, rw (e, same, from_first), rw same)
  | inr ne ↦
      let (pre, ys, found, split) = from_first-contains n s (ground arith) in
      (x ∷ pre, ys, rw (ne, found, from_first), ap (λ l. x ∷ l) split)
]

get_elem?-contains : (xs : List ℕ) (i x : ℕ) → get_elem? xs i ≡ some x → contains x xs ≡ true
unfolding contains
get_elem?-contains [] i x h = cc
get_elem?-contains (y ∷ xs) zero x h = ground (arith, ==_iff y x)
get_elem?-contains (y ∷ xs) (suc i) x h = ground (arith, get_elem?-contains xs i x h)

drop_last-snoc : (xs : List ℕ) (x : ℕ) → drop_last (xs ++ x ∷ []) ≡ xs
unfolding drop_last
drop_last-snoc [] x = refl
drop_last-snoc (y ∷ []) x = refl
drop_last-snoc (y ∷ z ∷ xs) x = ap (λ l. y ∷ l) (drop_last-snoc (z ∷ xs) x)

-- The stack that the work stands for.
path_of : List (ℕ × ℕ) → List ℕ
path_of [] = []
path_of ((node, cursor) ∷ work) = path_of work ++ node ∷ []

mark_at-set_mark :
    (ms : List Mark) (n i : ℕ) (m : Mark)
    → mark_at (set_mark n m ms) i ≡ on_stack
    → (mark_at ms i ≡ on_stack) × (i ≢ n) ⊎ (i ≡ n) × (m ≡ on_stack)
unfolding set_mark
mark_at-set_mark [] n i m h = cc
mark_at-set_mark (x ∷ ms) zero zero m h = inr (refl, h)
mark_at-set_mark (x ∷ ms) zero (suc i) m h = inl (h, λ e. absurd (omega arith))
mark_at-set_mark (x ∷ ms) (suc n) zero m h = inl (h, λ e. absurd (omega arith))
mark_at-set_mark (x ∷ ms) (suc n) (suc i) m h = elim (mark_at-set_mark ms n i m h) [
  | inl (a, ne) ↦ inl (a, λ e. ne (omega arith))
  | inr (e, same) ↦ inr (omega arith, same)
]

module _ (rows : Adjacency) (bound : ℕ) where
  record Searching (ms : List Mark) (work : List (ℕ × ℕ)) : Type 0 where
    walk : Walk rows (path_of work)
    marked : (i : ℕ) → mark_at ms i ≡ on_stack → contains i (path_of work) ≡ true
    left : spare rows ms ≤ bound

  Outcome : Result (List ℕ) (List Mark × List ℕ) → Type 0
  Outcome (ok (ms, stack)) = (stack ≡ []) × Searching ms []
  Outcome (err path) = ClosedWalk rows path

  -- A unit that was not seen goes on top of the work.
  Searching-see :
      (ms : List Mark) (work rest : List (ℕ × ℕ)) (n : ℕ)
      → path_of rest ≡ path_of work
      → mark_at ms n ≡ unseen
      → Walk rows (path_of rest ++ n ∷ [])
      → Searching ms work
      → Searching (set_mark n on_stack ms) ((n, 0) ∷ rest)
  unfolding path_of
  Searching-see ms work rest n e new w s = record {
    walk = w;
    marked = λ i m. elim (mark_at-set_mark ms n i on_stack m) [
      | inl (old, ne) ↦ ground (arith, contains-snoc i n (path_of rest), s.marked i old)
      | inr (same, u) ↦ ground (arith, contains-snoc i n (path_of rest), ==_iff n i)
    ];
    left = omega (arith, spare-see rows ms n new, s.left);
  }

  -- The unit on top is done.
  Searching-finish :
      (ms : List Mark) (work : List (ℕ × ℕ)) (n c : ℕ)
      → Searching ms ((n, c) ∷ work)
      → Searching (set_mark n done ms) work
  unfolding path_of
  Searching-finish ms work n c s = record {
    walk = front (path_of work) s.walk;
    marked = λ i m. elim (mark_at-set_mark ms n i done m) [
      | inl (old, ne) ↦ ground (arith, contains-snoc i n (path_of work), s.marked i old, ==_iff n i)
      | inr (same, bad) ↦ cc
    ];
    left = omega (arith, spare-done rows ms n, s.left);
  }
    where
      front : (xs : List ℕ) → Walk rows (xs ++ n ∷ []) → Walk rows xs
      front [] w = tt
      front (x ∷ []) w = tt
      front (x ∷ y ∷ xs) w = (w.0, front (y ∷ xs) w.1)

  Searching-next :
      (ms : List Mark) (work : List (ℕ × ℕ)) (n c d : ℕ)
      → Searching ms ((n, c) ∷ work)
      → Searching ms ((n, d) ∷ work)
  unfolding path_of
  Searching-next ms work n c d s = record { walk = s.walk; marked = s.marked; left = s.left }

  closing_walk :
      (ms : List Mark) (work : List (ℕ × ℕ)) (node c next : ℕ)
      → Searching ms ((node, c) ∷ work)
      → contains next (row rows node) ≡ true
      → mark_at ms next ≡ on_stack
      → ClosedWalk rows (
          Opt.get_or (from_first next (path_of work ++ node ∷ [])) (path_of work ++ node ∷ [])
          ++ next ∷ [])
  unfolding path_of
  closing_walk ms work node c next s edge m =
      let stack = path_of work ++ node ∷ [] in
      let (pre, ys, found, split) = from_first-contains next stack (s.marked next m) in
      let whole : Walk rows (stack ++ next ∷ []) =
        Walk-snoc rows (path_of work) node next s.walk edge in
      let parted : Walk rows (pre ++ ((next ∷ ys) ++ next ∷ [])) =
        subst (Walk rows)
          (ap (λ l. l ++ next ∷ []) split ∙ append_assoc pre (next ∷ ys) (next ∷ [])) whole in
      rw found (record {
        first = next;
        inner = ys;
        shape = refl;
        walk = Walk-suffix rows pre ((next ∷ ys) ++ next ∷ []) parted;
      })

  search_cycle-Outcome :
      (k : ℕ) (ms : List Mark) (work : List (ℕ × ℕ))
      → load rows work + spare rows ms ≤ k
      → Searching ms work
      → Outcome (search_cycle k rows ms (path_of work) work)
  unfolding search_cycle load Outcome path_of
  search_cycle-Outcome zero ms [] h s = (refl, s)
  search_cycle-Outcome zero ms ((node, cursor) ∷ work) h s = absurd (omega arith)
  search_cycle-Outcome (suc k) ms [] h s = (refl, s)
  search_cycle-Outcome (suc k) ms ((node, cursor) ∷ work) h s =
      elim (Option-cases (get_elem? (row rows node) cursor)) [
        | inl end ↦
            rw (end, search_cycle)
              (rw (drop_last-snoc (path_of work) node) (
                search_cycle-Outcome k (set_mark node done ms) work
                  (omega (arith, spare-done rows ms node))
                  (Searching-finish ms work node cursor s)))
        | inr (next, edge) ↦
            let inside = get_elem?-some (row rows node) cursor next edge in
            let linked = get_elem?-contains (row rows node) cursor next edge in
            elim (Mark-cases (mark_at ms next)) [
              | inl new ↦
                  rw (edge, new, search_cycle)
                    (search_cycle-Outcome k (set_mark next on_stack ms)
                      ((next, 0) ∷ (node, suc cursor) ∷ work)
                      (omega (arith, spare-see rows ms next new))
                      (Searching-see ms ((node, cursor) ∷ work) ((node, suc cursor) ∷ work) next
                        refl new (Walk-snoc rows (path_of work) node next s.walk linked) s))
              | inr (inl closing) ↦
                  rw (edge, closing, search_cycle)
                    (closing_walk ms work node cursor next s linked closing)
              | inr (inr over) ↦
                  rw (edge, over, search_cycle)
                    (search_cycle-Outcome k ms ((node, suc cursor) ∷ work) (omega arith)
                      (Searching-next ms work node cursor (suc cursor) s))
            ]
      ]

module _ (rows : Adjacency) where
  search_from-ClosedWalk :
      (left start : ℕ) (ms : List Mark) (path : List ℕ)
      → Searching rows (length rows + edge_count rows) ms []
      → search_from rows left start ms [] ≡ err path
      → ClosedWalk rows path
  unfolding search_from Outcome path_of load
  search_from-ClosedWalk zero start ms path s e = cc
  search_from-ClosedWalk (suc left) start ms path s e = elim (Mark-cases (mark_at ms start)) [
    | inr (inl m) ↦ search_from-ClosedWalk left (suc start) ms path s (rw (m, search_from) at e)
    | inr (inr m) ↦ search_from-ClosedWalk left (suc start) ms path s (rw (m, search_from) at e)
    | inl new ↦
        let bound = length rows + edge_count rows in
        let ms' = set_mark start on_stack ms in
        let begun = Searching-see rows bound ms [] [] start refl new tt s in
        let out =
          search_cycle-Outcome rows bound (bound + 1) ms' ((start, 0) ∷ [])
            (omega (arith, spare-see rows ms start new, s.left)) begun in
        elim (Result-cases (search_cycle (bound + 1) rows ms' (start ∷ []) ((start, 0) ∷ []))) [
          | inr (p, found) ↦
              let q : err p ≡ err path = rw (new, found, search_from) at e in
              let same : p ≡ path = cc in
              subst (ClosedWalk rows) same (subst (Outcome rows bound) found out)
          | inl ((ms2, st2), ran) ↦
              let (empty, on) = subst (Outcome rows bound) ran out in
              search_from-ClosedWalk left (suc start) ms2 path on
                (rw (new, ran, empty, search_from) at e)
        ]
  ]

all_unseen : (units : List UnitName) (i : ℕ) → mark_at (map (λ _. unseen) units) i ≢ on_stack
all_unseen [] i h = cc
all_unseen (u ∷ us) zero h = cc
all_unseen (u ∷ us) (suc i) h = all_unseen us i h

length-map : {A B : Type 0} (f : A → B) (xs : List A) → length (map f xs) ≡ length xs
length-map f [] = refl
length-map f (x ∷ xs) = ap suc (length-map f xs)

-- If the search for a cycle comes upon one, in a graph with a row for each unit, then the path that
-- `find_cycle` reports is closed: each unit on it waits for the next, and it ends where it begins.
pub find_cycle-ClosedWalk :
    (g : DependencyGraph) (path : List ℕ)
    → length g.units ≡ length g.dependencies
    → search_from g.dependencies (length g.units) 0 (map (λ _. unseen) g.units) [] ≡ err path
    → (find_cycle g ≡ cycle (names_at g.units path)) × ClosedWalk g.dependencies path
unfolding find_cycle path_of
find_cycle-ClosedWalk g path n e =
    let rows = g.dependencies in
    let marks = map (λ _. unseen) g.units in
    let begin : Searching rows (length rows + edge_count rows) marks [] = record {
      walk = tt;
      marked = λ i h. absurd (all_unseen g.units i h);
      left = spare_le rows marks (omega (arith, length-map (λ _. unseen) g.units));
    } in
    (rw (e, find_cycle), search_from-ClosedWalk rows (length g.units) 0 marks path begin e)
