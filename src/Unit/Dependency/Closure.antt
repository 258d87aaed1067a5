-- ===== src/Unit/Dependency/Closure.antt =====
-- crates/rinit-core/src/unit/dependency.rs: the closure of a target, and reachability.
use rinit.Prelude.{
  ℕ, zero, suc, ◌+◌, ◌≤◌, ◌≡◌, refl, sym, ◌↔◌, inl, inr, true, false, ◌||◌, some, List, [], ◌∷◌,
  ◌++◌, arith, ◌==◌, ==_iff, if◌then◌else◌, Bool-cases, length, length-append,
}
use rinit.Prelude.Slices.{contains}
use rinit.Unit.Name.{UnitName}
use rinit.Unit.Dependency.{Adjacency, DependencyGraph, position, names_at, row}
use rinit.Unit.Dependency.Scheduling.{insert_index, reversed, visit, edge_count, closure_of}
use mathlib.Core.Path.{subst}

-- From `i` one comes to `j` along edges.
pub data Reach (rows : Adjacency) : ℕ → ℕ → Type 0 where
  here : {i j : ℕ} → i ≡ j → Reach rows i j
  onward : {i j k : ℕ} → contains k (row rows i) ≡ true → Reach rows k j → Reach rows i j

Reach-snoc :
    (rows : Adjacency) {i j k : ℕ}
    → Reach rows i j
    → contains k (row rows j) ≡ true
    → Reach rows i k
Reach-snoc rows {i} {j} {k} (here e) c =
    onward (subst (λ x. contains k (row rows x) ≡ true) (sym e) c) (here refl)
Reach-snoc rows (onward d r) c = onward d (Reach-snoc rows r c)

contains-append :
    (d : ℕ) (xs ys : List ℕ) → contains d (xs ++ ys) ≡ (contains d xs || contains d ys)
unfolding contains
contains-append d [] ys = refl
contains-append d (x ∷ xs) ys = ground (arith, contains-append d xs ys)

contains-reversed : (d : ℕ) (xs : List ℕ) → contains d (reversed xs) ≡ contains d xs
unfolding contains reversed
contains-reversed d [] = refl
contains-reversed d (x ∷ xs) =
    ground (arith, contains-reversed d xs, contains-append d (reversed xs) (x ∷ []))

length-reversed : (xs : List ℕ) → length (reversed xs) ≡ length xs
unfolding reversed
length-reversed [] = refl
length-reversed (x ∷ xs) = omega (arith, length-reversed xs, length-append (reversed xs) (x ∷ []))

contains-insert_index :
    (d i : ℕ) (js : List ℕ) → contains d (insert_index i js) ≡ (contains d js || i == d)
unfolding contains insert_index
contains-insert_index d i [] = ground arith
contains-insert_index d i (j ∷ js) = ground (arith, contains-insert_index d i js)

-- The edges of the indices from `i` on that are not expanded yet.
ahead : List ℕ → ℕ → Adjacency → ℕ
ahead seen i [] = 0
ahead seen i (ds ∷ rows) =
    if contains i seen then ahead seen (i + 1) rows else length ds + ahead seen (i + 1) rows

ahead_le :
    (seen : List ℕ) (n i : ℕ) (rows : Adjacency)
    → ahead (insert_index n seen) i rows ≤ ahead seen i rows
unfolding ahead
ahead_le seen n i [] = omega arith
ahead_le seen n i (ds ∷ rows) =
    ground (arith, ahead_le seen n (i + 1) rows, contains-insert_index i n seen)

ahead-insert_index :
    (seen : List ℕ) (n i m : ℕ) (rows : Adjacency)
    → n ≡ i + m
    → contains n seen ≡ false
    → ahead (insert_index n seen) i rows + length (row rows m) ≤ ahead seen i rows
unfolding ahead
ahead-insert_index seen n i m [] e h = omega arith
ahead-insert_index seen n i zero (ds ∷ rows) e h =
    let same : i ≡ n = omega arith in
    let new : contains i seen ≡ false = subst (λ x. contains x seen ≡ false) (sym same) h in
    ground (arith, ahead_le seen n (i + 1) rows, contains-insert_index i n seen)
ahead-insert_index seen n i (suc m) (ds ∷ rows) e h =
    let rest = ahead-insert_index seen n (i + 1) m rows (omega arith) h in
    ground (arith, contains-insert_index i n seen)

ahead-nil : (i : ℕ) (rows : Adjacency) → ahead [] i rows ≡ edge_count rows
unfolding ahead contains edge_count
ahead-nil i [] = refl
ahead-nil i (ds ∷ rows) = omega (arith, ahead-nil (i + 1) rows)

module _ (rows : Adjacency) (start : ℕ) where
  -- What is expanded or waits to be: reached from the start, with the start among it, and with all
  -- that the expanded ones point at.
  record Frontier (seen stack : List ℕ) : Type 0 where
    sound : (j : ℕ) → (contains j seen || contains j stack) ≡ true → Reach rows start j
    begun : (contains start seen || contains start stack) ≡ true
    closed :
        (i d : ℕ)
        → contains i seen ≡ true
        → contains d (row rows i) ≡ true
        → (contains d seen || contains d stack) ≡ true

  Frontier-seen :
      (seen stack : List ℕ) (n : ℕ)
      → contains n seen ≡ true
      → Frontier seen (n ∷ stack)
      → Frontier seen stack
  unfolding contains
  Frontier-seen seen stack n h f =
      let drop_it : (d : ℕ)
          → (contains d seen || contains d (n ∷ stack)) ≡ true
          → (contains d seen || contains d stack) ≡ true =
        λ d c. ground (arith, ==_iff n d) in
      record {
        sound = λ j c. f.sound j (ground arith);
        begun = drop_it start f.begun;
        closed = λ i d a b. drop_it d (f.closed i d a b);
      }

  Frontier-expand :
      (seen stack : List ℕ) (n : ℕ)
      → Frontier seen (n ∷ stack)
      → Frontier (insert_index n seen) (reversed (row rows n) ++ stack)
  unfolding contains
  Frontier-expand seen stack n f =
      let split : (d : ℕ)
          → (contains d (insert_index n seen) || contains d (reversed (row rows n) ++ stack))
            ≡ ((contains d seen || contains d (n ∷ stack)) || contains d (row rows n)) =
        λ d. ground (
          arith,
          contains-insert_index d n seen,
          contains-append d (reversed (row rows n)) stack,
          contains-reversed d (row rows n),
        ) in
      let reached : Reach rows start n = f.sound n (ground (arith, ==_iff n n)) in
      record {
        sound = λ j c. elim (Bool-cases (contains j seen || contains j (n ∷ stack))) [
          | inl old ↦ f.sound j old
          | inr new ↦ Reach-snoc rows reached (ground (arith, split j))
        ];
        begun = ground (arith, split start, f.begun);
        closed = λ i d a b. elim (Bool-cases (contains i seen)) [
          | inl old ↦ ground (arith, split d, f.closed i d old b)
          | inr new ↦
              let same : n ≡ i = (==_iff n i).0 (ground (arith, contains-insert_index i n seen)) in
              let mine : contains d (row rows n) ≡ true =
                subst (λ x. contains d (row rows x) ≡ true) (sym same) b in
              ground (arith, split d)
        ];
      }

  visit-Frontier :
      (k : ℕ) (seen stack : List ℕ)
      → length stack + ahead seen 0 rows ≤ k
      → Frontier seen stack
      → Frontier (visit k rows seen stack) []
  unfolding visit
  visit-Frontier zero seen [] h f = f
  visit-Frontier zero seen (n ∷ stack) h f = absurd (omega arith)
  visit-Frontier (suc k) seen [] h f = f
  visit-Frontier (suc k) seen (n ∷ stack) h f = elim (Bool-cases (contains n seen)) [
    | inl old ↦
        rw (old, visit)
          (visit-Frontier k seen stack (omega arith) (Frontier-seen seen stack n old f))
    | inr new ↦
        rw (new, visit)
          (visit-Frontier k (insert_index n seen) (reversed (row rows n) ++ stack)
            (omega (
              arith,
              ahead-insert_index seen n 0 n rows (omega arith) new,
              length-append (reversed (row rows n)) stack,
              length-reversed (row rows n),
            ))
            (Frontier-expand seen stack n f))
  ]

  Frontier-first : Frontier [] (start ∷ [])
  unfolding contains
  Frontier-first = record {
    sound = λ j c. here ((==_iff start j).0 (ground arith));
    begun = ground (arith, ==_iff start start);
    closed = λ i d a b. absurd (let bad : false ≡ true = a in cc);
  }

  Frontier-Reach :
      (seen : List ℕ) (i j : ℕ)
      → Frontier seen []
      → contains i seen ≡ true
      → Reach rows i j
      → contains j seen ≡ true
  unfolding contains
  Frontier-Reach seen i j f c (here e) = subst (λ x. contains x seen ≡ true) e c
  Frontier-Reach seen i j f c (onward {k = k} d r) =
      Frontier-Reach seen k j f (ground (arith, f.closed i k c d)) r

-- The units that a target's closure lists: those that are reached from it along activations, by
-- their indices, and no others.
pub record IsClosure (g : DependencyGraph) (start : ℕ) (names : List UnitName) : Type 0 where
  pub indices : List ℕ
  pub named : names ≡ names_at g.units indices
  pub exact : (j : ℕ) → (contains j indices ≡ true) ↔ Reach g.activations start j

-- The closure of a unit of the graph is what the unit reaches along its activations, itself
-- included: each of those units is listed, and no other.
pub closure_of-IsClosure :
    (g : DependencyGraph) (target : UnitName) (start : ℕ)
    → position target g.units ≡ some start
    → IsClosure g start (closure_of g target)
unfolding closure_of contains
closure_of-IsClosure g target start e =
    let rows = g.activations in
    let found = visit (edge_count rows + 2) rows [] (start ∷ []) in
    let f =
      visit-Frontier rows start (edge_count rows + 2) [] (start ∷ [])
        (omega (arith, ahead-nil 0 rows)) (Frontier-first rows start) in
    record {
      indices = found;
      named = rw (e, closure_of);
      exact = λ j. (
        λ c. f.sound j (ground arith),
        λ r. Frontier-Reach rows start found start j f (ground (arith, f.begun)) r,
      );
    }
