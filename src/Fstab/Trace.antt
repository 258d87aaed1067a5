-- ===== src/Fstab/Trace.antt =====
-- crates/rinit-runtime/src/fstab.rs: the second wave as a run over the entries, call by call.
use rinit.Prelude.{
  ℕ, ◌≡◌, sym, ap, ◌∙◌, inl, inr, Option, none, some, List, [], ◌∷◌, ◌++◌, Bool-cases, Option-cases,
  Text,
}
use mathlib.Core.List.{append_assoc, append-nil}
use rinit.Fstab.{Entry, Warning, cannot_create, cannot_mount}
use rinit.Fstab.InUse.{Passed, Due, is_due-Due, is_due-Passed}
use rinit.Fstab.Options.{flags_and_data}
use rinit.Fstab.Mounting.{MountOps, FstabReport, is_due, mount_entry, noted, mount_all}

module _ {S : Type 0} (ops : MountOps S) where
  -- What the calls for one entry answered, from one state to another, and the warning if one failed:
  -- the point is made first, and nothing is mounted where that fails.
  pub data Attempt (s : S) (e : Entry) : Option Warning → S → Type 0 where
    no_point :
        {t : S} {errno : ℕ}
        → ops.mkdir_p s e.mountpoint ≡ (some errno, t)
        → Attempt s e (some (cannot_create e.mountpoint errno)) t
    no_mount :
        {t v : S} {errno : ℕ}
        → ops.mkdir_p s e.mountpoint ≡ (none, t)
        → ops.mount_fs t e.device e.mountpoint e.fstype (flags_and_data e).0 (flags_and_data e).1
          ≡ (some errno, v)
        → Attempt s e (some (cannot_mount e errno)) v
    done :
        {t v : S}
        → ops.mkdir_p s e.mountpoint ≡ (none, t)
        → ops.mount_fs t e.device e.mountpoint e.fstype (flags_and_data e).0 (flags_and_data e).1
          ≡ (none, v)
        → Attempt s e none v

  -- The entries in their order: the points that were mounted, and the warnings of those that were
  -- not.
  pub data Run (current : Option Text)
      : S → List Entry → List Text → List Warning → S → Type 0 where
    over : {s : S} → Run current s [] [] [] s
    passed :
        {s t : S} {e : Entry} {es : List Entry} {ms : List Text} {ws : List Warning}
        → Passed current e
        → Run current s es ms ws t
        → Run current s (e ∷ es) ms ws t
    mounted :
        {s v t : S} {e : Entry} {es : List Entry} {ms : List Text} {ws : List Warning}
        → Due current e
        → Attempt s e none v
        → Run current v es ms ws t
        → Run current s (e ∷ es) (e.mountpoint ∷ ms) ws t
    failed :
        {s v t : S} {e : Entry} {es : List Entry} {ms : List Text} {w : Warning} {ws : List Warning}
        → Due current e
        → Attempt s e (some w) v
        → Run current v es ms ws t
        → Run current s (e ∷ es) ms (w ∷ ws) t

  mount_entry-Attempt :
      (s : S) (e : Entry) → Attempt s e (mount_entry ops s e).0 (mount_entry ops s e).1
  unfolding mount_entry
  mount_entry-Attempt s e = elim (Option-cases (ops.mkdir_p s e.mountpoint).0) [
    | inr (errno, bad) ↦ rw (bad, mount_entry) (no_point (ap (λ o. (o, made.1)) bad))
    | inl good ↦
        let (flags, kept) = flags_and_data e in
        let tried = ops.mount_fs made.1 e.device e.mountpoint e.fstype flags kept in
        elim (Option-cases tried.0) [
          | inr (errno, bad) ↦
              rw (good, bad, mount_entry)
                (no_mount (ap (λ o. (o, made.1)) good) (ap (λ o. (o, tried.1)) bad))
          | inl fine ↦
              rw (good, fine, mount_entry)
                (done (ap (λ o. (o, made.1)) good) (ap (λ o. (o, tried.1)) fine))
        ]
  ]
    where
      made : Option ℕ × S
      made = ops.mkdir_p s e.mountpoint

  -- What a run adds to a report.
  pub record Added (current : Option Text) (s t : S) (es : List Entry) (r q : FstabReport)
      : Type 0 where
    pub points : List Text
    pub warnings : List Warning
    pub mounts : q.mounted ≡ r.mounted ++ points
    pub warns : q.warnings ≡ r.warnings ++ warnings
    pub run : Run current s es points warnings t

  module _ (current : Option Text) where
    -- The first entry's attempt, in front of what the others add.
    Added-Attempt :
        (s v t : S) (e : Entry) (es : List Entry) (w : Option Warning) (r q : FstabReport)
        → Due current e
        → Attempt s e w v
        → Added current v t es (noted e.mountpoint w r) q
        → Added current s t (e ∷ es) r q
    Added-Attempt s v t e es none r q due a h = record {
      points = e.mountpoint ∷ h.points;
      warnings = h.warnings;
      mounts = h.mounts ∙ append_assoc r.mounted (e.mountpoint ∷ []) h.points;
      warns = h.warns;
      run = mounted due a h.run;
    }
    Added-Attempt s v t e es (some w) r q due a h = record {
      points = h.points;
      warnings = w ∷ h.warnings;
      mounts = h.mounts;
      warns = h.warns ∙ append_assoc r.warnings (w ∷ []) h.warnings;
      run = failed due a h.run;
    }

    Added-Passed :
        (s t : S) (e : Entry) (es : List Entry) (r q : FstabReport)
        → Passed current e
        → Added current s t es r q
        → Added current s t (e ∷ es) r q
    Added-Passed s t e es r q p h = record {
      points = h.points;
      warnings = h.warnings;
      mounts = h.mounts;
      warns = h.warns;
      run = passed p h.run;
    }

    pub mount_all-Added :
        (es : List Entry) (s : S) (r : FstabReport)
        → Added current s (mount_all ops current s r es).1 es r (mount_all ops current s r es).0
    unfolding mount_all
    mount_all-Added [] s r = record {
      points = [];
      warnings = [];
      mounts = sym (append-nil r.mounted);
      warns = sym (append-nil r.warnings);
      run = over;
    }
    mount_all-Added (e ∷ es) s r = elim (Bool-cases (is_due current e)) [
      | inr past ↦
          rw (past, mount_all)
            (Added-Passed s (mount_all ops current s r es).1 e es r (mount_all ops current s r es).0
              (is_due-Passed current e past) (mount_all-Added es s r))
      | inl must ↦
          let (w, t) = mount_entry ops s e in
          let rest = mount_all ops current t (noted e.mountpoint w r) es in
          rw (must, mount_all)
            (Added-Attempt s t rest.1 e es w r rest.0 (is_due-Due current e must)
              (mount_entry-Attempt s e) (mount_all-Added es t (noted e.mountpoint w r)))
    ]
