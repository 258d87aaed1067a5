-- ===== src/Unit/Job/Leading.antt =====
-- crates/rinit-core/src/unit/job.rs: the request that holds after all requests submitted to
-- the queue, by the tests of the code.
use rinit.Prelude.{
  ◌≡◌, refl, sym, ap, ◌∙◌, ◌≢◌, ◌⊎◌, inl, inr, true, false, Option, none, some, List, [], ◌∷◌, ◌++◌,
  arith, if◌then◌else◌, Bool-cases, All,
}
use rinit.Unit.Name.{UnitName, name_eq, name_eq_iff}
use mathlib.Core.Path.{subst}
use rinit.Unit.Job.{Job, MergedTarget, JobQueue, merged_of, outranks, submit, target_of}
use rinit.Unit.Job.Merge.{merge, wins, target_of-submit}

-- The requests in the order in which they come.
unfoldable pub submit_all : JobQueue → List Job → JobQueue
submit_all q [] = q
submit_all q (j ∷ js) = submit_all (submit q j).0 js

unfoldable pub winner : Option MergedTarget → UnitName → List Job → Option MergedTarget
winner h u [] = h
winner h u (j ∷ js) = winner (if name_eq j.unit u then some (merge h j) else h) u js

pub target_of-submit_all :
    (q : JobQueue) (u : UnitName) (js : List Job)
    → target_of (submit_all q js) u ≡ winner (target_of q u) u js
unfolding submit_all winner
target_of-submit_all q u [] = refl
target_of-submit_all q u (j ∷ js) =
    target_of-submit_all (submit q j).0 u js ∙ ap (λ h. winner h u js) (target_of-submit j u q)

-- No request for this unit in the list outranks the target.
abbrev pub Level : UnitName → MergedTarget → List Job → Type 0
Level u m js = All (λ k. k.unit ≡ u → outranks k m ≡ false) js

-- The request outranks every request for this unit in the list.
abbrev pub Over : UnitName → Job → List Job → Type 0
Over u j js = All (λ k. k.unit ≡ u → outranks j (merged_of k) ≡ true) js

-- One request of the list that outranks those before it, and that none behind it outranks.
pub record Leading (u : UnitName) (m : MergedTarget) (js : List Job) : Type 0 where
  pub earlier : List Job
  pub job : Job
  pub later : List Job
  pub listed : js ≡ earlier ++ job ∷ later
  pub for_unit : job.unit ≡ u
  pub holds : merged_of job ≡ m
  pub greatest : Over u job earlier
  pub unbeaten : Level u m later

abbrev pub Holding : Option MergedTarget → UnitName → MergedTarget → List Job → Type 0
Holding h u m js = (h ≡ some m) × Level u m js ⊎ ((d : Leading u m js) × (wins h d.job ≡ true))

outranks_trans :
    (j k : Job) (c : MergedTarget)
    → outranks j (merged_of k) ≡ true
    → outranks k c ≡ true
    → outranks j c ≡ true
unfolding outranks
outranks_trans j k c = ground arith

outranks_over :
    (j k : Job) (c : MergedTarget)
    → outranks j c ≡ true
    → outranks k c ≡ false
    → outranks j (merged_of k) ≡ true
unfolding outranks
outranks_over j k c = ground arith

-- Another request in front of a deciding one.
Leading-cons :
    (u : UnitName) (m : MergedTarget) (j : Job) (js : List Job) (d : Leading u m js)
    → (j.unit ≡ u → outranks d.job (merged_of j) ≡ true)
    → Leading u m (j ∷ js)
Leading-cons u m j js d h = record {
  earlier = j ∷ d.earlier;
  job = d.job;
  later = d.later;
  listed = ap (λ l. j ∷ l) d.listed;
  for_unit = d.for_unit;
  holds = d.holds;
  greatest = (h, d.greatest);
  unbeaten = d.unbeaten;
}

-- A request that decides because it wins against the holder and nothing behind it beats it.
Leading-head :
    (u : UnitName) (m : MergedTarget) (j : Job) (js : List Job)
    → j.unit ≡ u
    → merged_of j ≡ m
    → Level u m js
    → Leading u m (j ∷ js)
Leading-head u m j js e same rest = record {
  earlier = [];
  job = j;
  later = js;
  listed = refl;
  for_unit = e;
  holds = same;
  greatest = tt;
  unbeaten = rest;
}

-- The holder after a request for the unit: the request, which won, or the old one, which it did
-- not beat.
merge-cases :
    (h : Option MergedTarget) (j : Job)
    → ((merge h j ≡ merged_of j) × (wins h j ≡ true))
      ⊎ ((c : MergedTarget) × (h ≡ some c) × (merge h j ≡ c) × (outranks j c ≡ false))
merge-cases none j = inl (refl, refl)
merge-cases (some c) j = elim (Bool-cases (outranks j c)) [
  | inl won ↦ inl (rw won refl, won)
  | inr lost ↦ inr (c, refl, rw lost refl, lost)
]

wins_trans :
    (h : Option MergedTarget) (j k : Job)
    → outranks j (merged_of k) ≡ true
    → wins h k ≡ true
    → wins h j ≡ true
wins_trans none j k a b = refl
wins_trans (some c) j k a b = outranks_trans j k c a b

module _ (u : UnitName) (m : MergedTarget) (j : Job) (js : List Job) where
  Holding-submit :
      (h : Option MergedTarget)
      → j.unit ≡ u
      → Holding (some (merge h j)) u m js
      → Holding h u m (j ∷ js)
  unfolding Leading-head Leading-cons
  Holding-submit h e (inl (holds, rest)) = elim (merge-cases h j) [
    | inl (taken, won) ↦ inr (Leading-head u m j js e (cc) rest, won)
    | inr (c, old, kept, lost) ↦
        let same : c ≡ m = cc in
        inl (old ∙ ap some same, ((λ _. subst (λ t. outranks j t ≡ false) same lost), rest))
  ]
  Holding-submit h e (inr (d, beats)) = elim (merge-cases h j) [
    | inl (taken, won) ↦
        let over : outranks d.job (merged_of j) ≡ true =
          subst (λ t. outranks d.job t ≡ true) taken beats in
        inr (Leading-cons u m j js d (λ _. over), wins_trans h d.job j over won)
    | inr (c, old, kept, lost) ↦
        let over : outranks d.job c ≡ true = subst (λ t. outranks d.job t ≡ true) kept beats in
        inr (
          Leading-cons u m j js d (λ _. outranks_over d.job j c over lost),
          subst (λ t. wins t d.job ≡ true) (sym old) over,
        )
  ]

  -- A request for another unit does not matter.
  Holding-other : (h : Option MergedTarget) → j.unit ≢ u → Holding h u m js → Holding h u m (j ∷ js)
  unfolding Leading-cons
  Holding-other h ne (inl (holds, rest)) = inl (holds, ((λ e. absurd (ne e)), rest))
  Holding-other h ne (inr (d, beats)) = inr (Leading-cons u m j js d (λ e. absurd (ne e)), beats)

pub winner-Holding :
    (h : Option MergedTarget) (u : UnitName) (m : MergedTarget) (js : List Job)
    → winner h u js ≡ some m
    → Holding h u m js
unfolding winner
winner-Holding h u m [] e = inl (e, tt)
winner-Holding h u m (j ∷ js) e = elim (Bool-cases (name_eq j.unit u)) [
  | inl same ↦
      Holding-submit u m j js h ((name_eq_iff j.unit u).0 same)
        (winner-Holding (some (merge h j)) u m js (rw (same, winner) at e))
  | inr other ↦
      Holding-other u m j js h (λ q. cc ((name_eq_iff j.unit u).1 q))
        (winner-Holding h u m js (rw (other, winner) at e))
]

winner-some : (c : MergedTarget) (u : UnitName) (js : List Job) → winner (some c) u js ≢ none
unfolding winner
winner-some c u [] e = cc
winner-some c u (j ∷ js) e = elim (Bool-cases (name_eq j.unit u)) [
  | inl same ↦ winner-some (merge (some c) j) u js (rw (same, winner) at e)
  | inr other ↦ winner-some c u js (rw (other, winner) at e)
]

pub winner-none :
    (u : UnitName) (js : List Job) → winner none u js ≡ none → All (λ j. j.unit ≢ u) js
unfolding winner
winner-none u [] e = tt
winner-none u (j ∷ js) e = elim (Bool-cases (name_eq j.unit u)) [
  | inl same ↦ absurd (winner-some (merged_of j) u js (rw (same, winner) at e))
  | inr other ↦ (λ q. cc ((name_eq_iff j.unit u).1 q), winner-none u js (rw (other, winner) at e))
]
