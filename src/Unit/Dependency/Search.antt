-- ===== src/Unit/Dependency/Search.antt =====
-- crates/rinit-core/src/unit/dependency.rs: the turns of the search for a cycle.
use rinit.Prelude.{
  ℕ, zero, suc, ◌+◌, ◌-◌, ◌≤◌, ◌<◌, ◌≡◌, refl, ◌⊎◌, inl, inr, none, some, List, [], ◌∷◌, ◌++◌,
  arith, Option-cases, length, get_elem?,
}
use rinit.Unit.Dependency.{Adjacency, row}
use rinit.Unit.Dependency.Scheduling.{
  Mark, unseen, on_stack, done, set_mark, mark_at, drop_last, search_cycle, edge_count,
}

-- The turns that the units which are not seen yet may still take: one for each edge, and one more.
unfoldable pub spare : Adjacency → List Mark → ℕ
spare rows [] = 0
spare [] (unseen ∷ ms) = suc (spare [] ms)
spare [] (_ ∷ ms) = spare [] ms
spare (ds ∷ rows) (unseen ∷ ms) = suc (length ds + spare rows ms)
spare (ds ∷ rows) (_ ∷ ms) = spare rows ms

-- The turns that are left of the work.
unfoldable pub load : Adjacency → List (ℕ × ℕ) → ℕ
load rows [] = 0
load rows ((node, cursor) ∷ work) = suc (length (row rows node) - cursor) + load rows work

get_elem?-none : (xs : List ℕ) (i : ℕ) → get_elem? xs i ≡ none → length xs ≤ i
get_elem?-none [] i h = omega arith
get_elem?-none (x ∷ xs) zero h = cc
get_elem?-none (x ∷ xs) (suc i) h = omega (arith, get_elem?-none xs i h)

pub get_elem?-some : (xs : List ℕ) (i x : ℕ) → get_elem? xs i ≡ some x → i < length xs
get_elem?-some [] i x h = cc
get_elem?-some (y ∷ xs) zero x h = omega arith
get_elem?-some (y ∷ xs) (suc i) x h = omega (arith, get_elem?-some xs i x h)

pub spare-see :
    (rows : Adjacency) (ms : List Mark) (n : ℕ)
    → mark_at ms n ≡ unseen
    → spare rows (set_mark n on_stack ms) + suc (length (row rows n)) ≡ spare rows ms
unfolding spare set_mark
spare-see rows [] n h = cc
spare-see [] (m ∷ ms) zero h = ground arith
spare-see (ds ∷ rows) (m ∷ ms) zero h = ground arith
spare-see [] (m ∷ ms) (suc n) h = ground (arith, spare-see [] ms n h)
spare-see (ds ∷ rows) (m ∷ ms) (suc n) h = ground (arith, spare-see rows ms n h)

pub spare-done :
    (rows : Adjacency) (ms : List Mark) (n : ℕ) → spare rows (set_mark n done ms) ≤ spare rows ms
unfolding spare set_mark
spare-done rows [] n = omega arith
spare-done [] (m ∷ ms) zero = ground arith
spare-done (ds ∷ rows) (m ∷ ms) zero = ground arith
spare-done [] (m ∷ ms) (suc n) = ground (arith, spare-done [] ms n)
spare-done (ds ∷ rows) (m ∷ ms) (suc n) = ground (arith, spare-done rows ms n)

pub spare_le :
    (rows : Adjacency) (ms : List Mark)
    → length ms ≤ length rows
    → spare rows ms ≤ length rows + edge_count rows
unfolding spare edge_count
spare_le rows [] h = omega arith
spare_le [] (m ∷ ms) h = absurd (omega arith)
spare_le (ds ∷ rows) (m ∷ ms) h = ground (arith, spare_le rows ms (omega arith))

pub Mark-cases : (m : Mark) → (m ≡ unseen) ⊎ (m ≡ on_stack) ⊎ (m ≡ done)
Mark-cases unseen = inl refl
Mark-cases on_stack = inr (inl refl)
Mark-cases done = inr (inr refl)

search_cycle_steady :
    (k m : ℕ) (rows : Adjacency) (ms : List Mark) (stack : List ℕ) (work : List (ℕ × ℕ))
    → load rows work + spare rows ms ≤ k
    → k ≤ m
    → search_cycle m rows ms stack work ≡ search_cycle k rows ms stack work
unfolding search_cycle load
search_cycle_steady zero zero rows ms stack work h le = refl
search_cycle_steady zero (suc m) rows ms stack [] h le = refl
search_cycle_steady zero (suc m) rows ms stack ((node, cursor) ∷ work) h le = absurd (omega arith)
search_cycle_steady (suc k) zero rows ms stack work h le = absurd (omega arith)
search_cycle_steady (suc k) (suc m) rows ms stack [] h le = refl
search_cycle_steady (suc k) (suc m) rows ms stack ((node, cursor) ∷ work) h le =
    elim (Option-cases (get_elem? (row rows node) cursor)) [
      | inl end ↦
          rw (end, search_cycle)
            (search_cycle_steady k m rows (set_mark node done ms) (drop_last stack) work
              (omega (arith, spare-done rows ms node)) (omega arith))
      | inr (next, edge) ↦
          let inside = get_elem?-some (row rows node) cursor next edge in
          elim (Mark-cases (mark_at ms next)) [
            | inl new ↦
                rw (edge, new, search_cycle)
                  (search_cycle_steady k m rows (set_mark next on_stack ms) (stack ++ next ∷ [])
                    ((next, 0) ∷ (node, suc cursor) ∷ work)
                    (omega (arith, spare-see rows ms next new)) (omega arith))
            | inr (inl closing) ↦ rw (edge, closing, search_cycle)
            | inr (inr over) ↦
                rw (edge, over, search_cycle)
                  (search_cycle_steady k m rows ms stack ((node, suc cursor) ∷ work) (omega arith)
                    (omega arith))
          ]
    ]

-- From any unit that is not seen yet, the search has all the turns that it can use: however many
-- more it is given, its answer is the same. There are no more marks than units.
pub search_cycle_enough :
    (rows : Adjacency) (marks : List Mark) (stack : List ℕ) (start extra : ℕ)
    → length marks ≤ length rows
    → mark_at marks start ≡ unseen
    → search_cycle
        (length rows + edge_count rows + 1 + extra)
        rows
        (set_mark start on_stack marks)
        (stack ++ start ∷ [])
        ((start, 0) ∷ [])
      ≡ search_cycle
          (length rows + edge_count rows + 1)
          rows
          (set_mark start on_stack marks)
          (stack ++ start ∷ [])
          ((start, 0) ∷ [])
unfolding load
search_cycle_enough rows marks stack start extra h new =
    search_cycle_steady (length rows + edge_count rows + 1)
      (length rows + edge_count rows + 1 + extra) rows (set_mark start on_stack marks)
      (stack ++ start ∷ []) ((start, 0) ∷ [])
      (omega (arith, spare_le rows marks h, spare-see rows marks start new)) (omega arith)
