-- ===== src/Unit/State/Drive.antt =====
-- crates/rinit-core/src/unit/state/transition.rs: `drive`, on a sequence of events.
use rinit.Prelude.{
  if◌then◌else◌, ℕ, suc, ◌+◌, ◌≤◌, Bool, true, false, ◌≡◌, refl, ap, ◌∙◌, ◌≢◌, inl, inr, Result, ok,
  err, ◌>>=◌, Result-cases, arith, List, [], ◌∷◌, ◌++◌, length, length-append, All, All-append,
}
use rinit.Unit.State.{
  FailedReason, UnitState, inactive, starting, active, deactivating, failed, Event, start,
  start_up_complete, start_up_failed, stop_complete, exit, Effect, RestartPolicy, ServiceKind,
  oneshot, transition, Transition, TransitionError, drive_loop, drive,
}
use rinit.Unit.State.Lifecycle.{launches}
use mathlib.Core.List.{append_assoc, append-nil}
use mathlib.Core.Path.{fun_ext, subst}

-- The outcome of a run behind effects that were collected before it.
abbrev pub behind :
    List Effect → UnitState × List Effect → Result TransitionError (UnitState × List Effect)
behind acc (u, effs) = ok (u, acc ++ effs)

regroup :
    (r : Result TransitionError (UnitState × List Effect)) (acc : List Effect) (f : Effect)
    → (r >>= behind (acc ++ f ∷ [])) ≡ ((r >>= behind (f ∷ [])) >>= behind acc)
regroup (ok x) acc f = rw (append_assoc acc (f ∷ []) x.1)
regroup (err e) acc f = refl

module _ (p : RestartPolicy) (k : ServiceKind) where
  -- One accepted step at the head of a run.
  pub record Stepped (s : UnitState) (acc : List Effect) (e : Event) (es : List Event)
      (r : UnitState × List Effect) : Type 0 where
    pub taken : Transition
    pub accepted : transition s e p k ≡ ok taken
    pub onward : drive_loop p k taken.to (acc ++ taken.effect ∷ []) es ≡ ok r

  pub split_step :
      (s : UnitState) (acc : List Effect) (e : Event) (es : List Event)
      (r : UnitState × List Effect)
      → drive_loop p k s acc (e ∷ es) ≡ ok r
      → Stepped s acc e es r
  unfolding drive_loop
  split_step s acc e es r h = elim (Result-cases (transition s e p k)) [
    | inl (t, ht) ↦ record { taken = t; accepted = ht; onward = rw (ht, drive_loop) at h }
    | inr (x, hx) ↦ let bad : err x ≡ ok r = rw (hx, drive_loop) at h in cc
  ]

  drive_loop-length :
      (s : UnitState) (acc : List Effect) (es : List Event) (r : UnitState × List Effect)
      → drive_loop p k s acc es ≡ ok r
      → length r.1 ≡ length acc + length es
  unfolding drive_loop
  drive_loop-length s acc [] r h = ground arith
  drive_loop-length s acc (e ∷ es) r h =
      let st = split_step s acc e es r h in
      omega (
        arith,
        drive_loop-length st.taken.to (acc ++ st.taken.effect ∷ []) es r st.onward,
        length-append acc (st.taken.effect ∷ []),
      )

  -- The effects already collected stand in front, and change nothing else.
  drive_loop-acc :
      (s : UnitState) (acc : List Effect) (es : List Event)
      → drive_loop p k s acc es ≡ (drive_loop p k s [] es >>= behind acc)
  unfolding drive_loop
  drive_loop-acc s acc [] = rw append-nil
  drive_loop-acc s acc (e ∷ es) = elim (Result-cases (transition s e p k)) [
    | inr (x, hx) ↦ rw hx
    | inl (t, ht) ↦
        rw
          (
            ht,
            drive_loop-acc t.to (acc ++ t.effect ∷ []) es,
            drive_loop-acc t.to (t.effect ∷ []) es,
          )
          (regroup (drive_loop p k t.to [] es) acc t.effect)
  ]

  drive_loop-append :
      (s : UnitState) (acc : List Effect) (es fs : List Event)
      → drive_loop p k s acc (es ++ fs)
        ≡ (drive_loop p k s acc es >>= λ (u, effs). drive_loop p k u effs fs)
  unfolding drive_loop
  drive_loop-append s acc [] fs = refl
  drive_loop-append s acc (e ∷ es) fs = elim (Result-cases (transition s e p k)) [
    | inr (x, hx) ↦ rw hx
    | inl (t, ht) ↦ rw ht (drive_loop-append t.to (acc ++ t.effect ∷ []) es fs)
  ]

  -- Driving two scripts one after the other is driving the first and then, from the state it
  -- reached, the second: the effects are joined, and the first refusal in either is the answer.
  pub drive-append :
      (s : UnitState) (es fs : List Event)
      → drive s (es ++ fs) p k ≡ (drive s es p k >>= λ (u, effs). drive u fs p k >>= behind effs)
  unfolding drive
  drive-append s es fs =
      drive_loop-append s [] es fs
      ∙ ap (λ f. drive_loop p k s [] es >>= f) (fun_ext λ x. drive_loop-acc x.0 x.1 fs)

  -- A script that is accepted yields one effect for each of its events.
  pub drive-length :
      (s : UnitState) (es : List Event) (r : UnitState × List Effect)
      → drive s es p k ≡ ok r
      → length r.1 ≡ length es
  unfolding drive
  drive-length s es r h = omega (arith, drive_loop-length s [] es r h)

-- A step that launches a process is counted at 1.
unfoldable pub spawns : List Effect → ℕ
unfolding launches
spawns [] = 0
spawns (f ∷ fs) = if launches f then suc (spawns fs) else spawns fs

-- An event by which the process of a unit is gone.
unfoldable pub ends : ServiceKind → Event → Bool
ends k start_up_failed = true
ends oneshot start_up_complete = true
ends k (exit o) = true
ends k stop_complete = true
ends k e = false

unfoldable pub ends_count : ServiceKind → List Event → ℕ
unfolding ends
ends_count k [] = 0
ends_count k (e ∷ es) = if ends k e then suc (ends_count k es) else ends_count k es

-- 1 for a state in which a process may be there.
unfoldable pub occupied : UnitState → ℕ
occupied starting = 1
occupied active = 1
occupied deactivating = 1
occupied _ = 0

spawns-append : (xs ys : List Effect) → spawns (xs ++ ys) ≡ spawns xs + spawns ys
unfolding spawns
spawns-append [] ys = omega arith
spawns-append (x ∷ xs) ys = ground (arith, spawns-append xs ys)

step_balance :
    (s : UnitState) (e : Event) (p : RestartPolicy) (k : ServiceKind) (t : Transition)
    → transition s e p k ≡ ok t
    → spawns (t.effect ∷ []) + occupied s ≤ ends_count k (e ∷ []) + occupied t.to
unfolding transition spawns ends_count occupied
step_balance s e p k t h = ground arith

spawns_nil : spawns [] ≡ 0
unfolding spawns
spawns_nil = refl

ends_count_nil : (k : ServiceKind) → ends_count k [] ≡ 0
unfolding ends_count
ends_count_nil k = refl

ends_count-cons :
    (k : ServiceKind) (e : Event) (es : List Event)
    → ends_count k (e ∷ es) ≡ ends_count k (e ∷ []) + ends_count k es
unfolding ends_count
ends_count-cons k e es = ground arith

occupied_le : (s : UnitState) → occupied s ≤ 1
unfolding occupied
occupied_le starting = omega arith
occupied_le _ = omega arith

module _ (p : RestartPolicy) (k : ServiceKind) where
  drive_loop_balance :
      (s : UnitState) (acc : List Effect) (es : List Event) (r : UnitState × List Effect)
      → drive_loop p k s acc es ≡ ok r
      → spawns r.1 + occupied s ≤ spawns acc + ends_count k es + occupied r.0
  unfolding drive_loop
  drive_loop_balance s acc [] r h = ground (arith, ends_count_nil k)
  drive_loop_balance s acc (e ∷ es) r h =
      let st = split_step p k s acc e es r h in
      omega (
        arith,
        step_balance s e p k st.taken st.accepted,
        drive_loop_balance st.taken.to (acc ++ st.taken.effect ∷ []) es r st.onward,
        spawns-append acc (st.taken.effect ∷ []),
        ends_count-cons k e es,
      )

  -- From rest a unit is never launched twice without its process having ended in between: an
  -- accepted script launches at most once more often than a process is reported gone in it.
  pub no_double_launch :
      (es : List Event) (r : UnitState × List Effect)
      → drive inactive es p k ≡ ok r
      → spawns r.1 ≤ suc (ends_count k es)
  unfolding drive
  no_double_launch es r h =
      omega (arith, drive_loop_balance inactive [] es r h, spawns_nil, occupied_le r.0)

-- The states of a unit that has no process and waits for nothing.
pub data AtRest : UnitState → Type 0 where
  inactive_rest : AtRest inactive
  failed_rest : {r : FailedReason} → AtRest (failed r)

step-AtRest :
    (s : UnitState) (e : Event) (p : RestartPolicy) (k : ServiceKind) (t : Transition)
    → AtRest s
    → e ≢ start
    → transition s e p k ≡ ok t
    → AtRest t.to × (t.effect ≡ Effect.none)
unfolding transition
step-AtRest s e p k t rest h q = grind (arith, inactive_rest, failed_rest)

module _ (p : RestartPolicy) (k : ServiceKind) where
  AtRest-loop :
      (s : UnitState) (acc : List Effect) (es : List Event) (r : UnitState × List Effect)
      → AtRest s
      → All (λ e. e ≢ start) es
      → All (λ f. f ≡ Effect.none) acc
      → drive_loop p k s acc es ≡ ok r
      → AtRest r.0 × All (λ f. f ≡ Effect.none) r.1
  unfolding drive_loop
  AtRest-loop s acc [] r rest h quiet q =
      let e : (s, acc) ≡ r = cc in
      subst (λ (x : UnitState × List Effect). AtRest x.0 × All (λ f. f ≡ Effect.none) x.1) e
        (rest, quiet)
  AtRest-loop s acc (e ∷ es) r rest h quiet q =
      let st = split_step p k s acc e es r q in
      let (still, silent) = step-AtRest s e p k st.taken rest h.0 st.accepted in
      AtRest-loop st.taken.to (acc ++ st.taken.effect ∷ []) es r still h.1
        (All-append _ acc (st.taken.effect ∷ []) quiet (silent, tt)) st.onward

  -- In the transition table a unit that is inactive or failed stays down until a start is asked
  -- for: an accepted script with no `start` in it asks the caller for nothing, and leaves the unit
  -- inactive or failed, so never waiting for a restart. This is of the table alone, not of what a
  -- caller does to the state beside it.
  pub stays_down :
      (s : UnitState) (es : List Event) (r : UnitState × List Effect)
      → AtRest s
      → All (λ e. e ≢ start) es
      → drive s es p k ≡ ok r
      → AtRest r.0 × All (λ f. f ≡ Effect.none) r.1
  unfolding drive
  stays_down s es r rest h q = AtRest-loop s [] es r rest h tt q
