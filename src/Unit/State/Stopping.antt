-- ===== src/Unit/State/Stopping.antt =====
-- crates/rinit-core/src/unit/state/transition.rs: `drive`, on a script that begins with a stop.
use rinit.Prelude.{
  ◌≡◌, refl, ◌≢◌, ◌⊎◌, inl, inr, false, ok, arith, List, [], ◌∷◌, ◌++◌, All, All-append,
}
use rinit.Unit.State.{
  UnitState, inactive, deactivating, Event, start, stop, Effect, RestartPolicy, ServiceKind,
  transition, Transition, drive_loop, drive,
}
use rinit.Unit.State.Lifecycle.{launches}
use rinit.Unit.State.Drive.{split_step}
use mathlib.Core.Path.{subst}

step_inactive :
    (e : Event) (p : RestartPolicy) (k : ServiceKind) (t : Transition)
    → e ≢ start
    → transition inactive e p k ≡ ok t
    → (t.to ≡ inactive) × (launches t.effect ≡ false)
unfolding transition launches
step_inactive e p k t h q = grind arith

step_deactivating :
    (e : Event) (p : RestartPolicy) (k : ServiceKind) (t : Transition)
    → transition deactivating e p k ≡ ok t
    → (t.to ≡ inactive) × (launches t.effect ≡ false)
unfolding transition launches
step_deactivating e p k t q = grind arith

step_stop :
    (s : UnitState) (p : RestartPolicy) (k : ServiceKind) (t : Transition)
    → transition s stop p k ≡ ok t
    → ((t.to ≡ inactive) ⊎ (t.to ≡ deactivating)) × (launches t.effect ≡ false)
unfolding transition launches
step_stop s p k t q = ground arith

-- A step that launches nothing.
abbrev Quiet : Effect → Type 0
Quiet f = launches f ≡ false

module _ (p : RestartPolicy) (k : ServiceKind) where
  -- An inactive unit, with nothing launched so far, to the end of a script.
  inactive-loop :
      (s : UnitState) (acc : List Effect) (es : List Event) (r : UnitState × List Effect)
      → s ≡ inactive
      → All Quiet acc
      → All (λ e. e ≢ start) es
      → drive_loop p k s acc es ≡ ok r
      → (r.0 ≡ inactive) × All Quiet r.1
  unfolding drive_loop
  inactive-loop s acc [] r at quiet h q =
      let e : (s, acc) ≡ r = cc in
      subst (λ (x : UnitState × List Effect). (x.0 ≡ inactive) × All Quiet x.1) e (at, quiet)
  inactive-loop s acc (e ∷ es) r at quiet h q =
      let st = split_step p k s acc e es r q in
      let off = subst (λ u. transition u e p k ≡ ok st.taken) at st.accepted in
      let (still, silent) = step_inactive e p k st.taken h.0 off in
      inactive-loop st.taken.to (acc ++ st.taken.effect ∷ []) es r still
        (All-append Quiet acc (st.taken.effect ∷ []) quiet (silent, tt)) h.1 st.onward

  deactivating-loop :
      (s : UnitState) (acc : List Effect) (es : List Event) (r : UnitState × List Effect)
      → s ≡ deactivating
      → All Quiet acc
      → All (λ e. e ≢ start) es
      → drive_loop p k s acc es ≡ ok r
      → ((r.0 ≡ inactive) ⊎ ((r.0 ≡ deactivating) × (es ≡ []))) × All Quiet r.1
  unfolding drive_loop
  deactivating-loop s acc [] r at quiet h q =
      let e : (s, acc) ≡ r = cc in
      let (same, silent) =
        subst (λ (x : UnitState × List Effect). (x.0 ≡ deactivating) × All Quiet x.1) e
          (at, quiet) in
      (inr (same, refl), silent)
  deactivating-loop s acc (e ∷ es) r at quiet h q =
      let st = split_step p k s acc e es r q in
      let going = subst (λ u. transition u e p k ≡ ok st.taken) at st.accepted in
      let (off, silent) = step_deactivating e p k st.taken going in
      let (rest, hushed) =
        inactive-loop st.taken.to (acc ++ st.taken.effect ∷ []) es r off
          (All-append Quiet acc (st.taken.effect ∷ []) quiet (silent, tt)) h.1 st.onward in
      (inl rest, hushed)

  -- A stop that is accepted holds until the next start, whatever state it came in: over any accepted
  -- script that goes on from it without a `start`, nothing is launched, and the unit ends inactive,
  -- or, where no event came after the stop, in deactivating.
  pub stop_holds :
      (s : UnitState) (es : List Event) (r : UnitState × List Effect)
      → All (λ e. e ≢ start) es
      → drive s (stop ∷ es) p k ≡ ok r
      → ((r.0 ≡ inactive) ⊎ ((r.0 ≡ deactivating) × (es ≡ []))) × All (λ f. launches f ≡ false) r.1
  unfolding drive
  stop_holds s es r h q =
      let st = split_step p k s [] stop es r q in
      let (down, silent) = step_stop s p k st.taken st.accepted in
      elim down [
        | inl off ↦
            let (rest, hushed) =
              inactive-loop st.taken.to (st.taken.effect ∷ []) es r off (silent, tt) h st.onward in
            (inl rest, hushed)
        | inr going ↦
            deactivating-loop st.taken.to (st.taken.effect ∷ []) es r going (silent, tt) h st.onward
      ]
