-- ===== src/Unit/Cgroup/Placement.antt =====
-- crates/rinit/src/cgroup.rs: which limits are in force when a unit is placed in its cgroup.
use rinit.Prelude.{
  ℕ, ◌≡◌, refl, sym, ap, ◌∙◌, ◌≢◌, ◌⊎◌, inl, inr, Bool, true, false, ◌&&◌, Option, none, some, List,
  [], ◌∷◌, ◌++◌, if◌then◌else◌, Bool-cases, Option-cases, All, Text, Result, ok, err,
}
use mathlib.Core.Path.{subst}
use mathlib.Core.List.{append-nil, append_assoc}
use rinit.Unit.Cgroup.{CgroupLimits, is_empty, File, files, has_controller}
use rinit.Unit.Cgroup.Setup.{
  Written, done, absent, refused, Kernel, Action, create_dir, remove_dir, Run, after_action,
  write_files, placed, setup_at,
}

-- A file that is settled is in force, or the kernel has not got it.
abbrev pub Settled : Kernel → Text → File → Type 0
Settled k available (c, f, v) =
    (has_controller available c ≡ false) ⊎ ((k.write f v ≡ absent) ⊎ (k.write f v ≡ done))

-- The kernel has the file and refuses what is to go in it.
abbrev pub Refused : Kernel → Text → ℕ → File → Type 0
Refused k available errno (c, f, v) =
    (has_controller available c ≡ true) × (k.write f v ≡ refused errno)

unfoldable pub is_done : Written → Bool
is_done done = true
is_done _ = false

-- The names of the files that are in force.
unfoldable pub enforced : Kernel → Text → List File → List Text
unfolding is_done
enforced k available [] = []
enforced k available ((c, f, v) ∷ fs) =
    let rest = enforced k available fs in
    if has_controller available c && is_done (k.write f v) then f ∷ rest else rest

-- The files before the one that the kernel refuses are settled.
unfoldable pub FirstRefused : Kernel → Text → ℕ → List File → Type 0
FirstRefused k available errno fs =
    (front : List File) × (f : File) × (back : List File) × (fs ≡ front ++ f ∷ back)
    × All (Settled k available) front
    × Refused k available errno f

-- What each answer of `setup` says of the limits. A unit is placed only if every limit is settled
-- and one is in force; a refusal is that of one of its files; and a unit that stays outside has no
-- limits, no usable group, or no limit that the kernel has, and then the group is taken down again.
unfoldable pub Justified : Kernel → Text → CgroupLimits → Run (Option Text) → Type 0
Justified k dir l (acts, err errno) =
    (available : Text) × (k.controllers ≡ some available) × FirstRefused k available errno (files l)
Justified k dir l (acts, ok (some d)) =
    (available : Text) × (k.controllers ≡ some available)
    × (d ≡ dir)
    × All (Settled k available) (files l)
    × (enforced k available (files l) ≢ [])
Justified k dir l (acts, ok none) =
    (is_empty l ≡ true)
    ⊎ ((k.creates ≡ false)
        ⊎ ((k.controllers ≡ none)
            ⊎ ((available : Text) × (k.controllers ≡ some available)
                × All (Settled k available) (files l)
                × (enforced k available (files l) ≡ [])
                × (front : List Action) × (acts ≡ front ++ remove_dir ∷ []))))

Written-cases : (w : Written) → (w ≡ done) ⊎ ((w ≡ absent) ⊎ ((e : ℕ) × (w ≡ refused e)))
Written-cases done = inl refl
Written-cases absent = inr (inl refl)
Written-cases (refused e) = inr (inr (e, refl))

write_files-ok :
    (k : Kernel) (available : Text) (applied : List Text) (fs : List File) (names : List Text)
    → (write_files k available applied fs).1 ≡ ok names
    → All (Settled k available) fs × (names ≡ applied ++ enforced k available fs)
unfolding write_files enforced is_done
write_files-ok k available applied [] names h =
    (tt, rw (append-nil applied) (let s : names ≡ applied = cc in s))
write_files-ok k available applied ((c, f, v) ∷ fs) names h =
    elim (Bool-cases (has_controller available c)) [
      | inr missing ↦
          let ih = write_files-ok k available applied fs names (rw (missing, write_files) at h) in
          ((inl missing, ih.0), rw (missing) ih.1)
      | inl there ↦ elim (Written-cases (k.write f v)) [
        | inl wrote ↦
            let ih =
              write_files-ok k available (applied ++ f ∷ []) fs names
                (rw (there, wrote, write_files) at h) in
            (
              (inr (inr wrote), ih.0),
              rw (there, wrote) (ih.1 ∙ append_assoc applied (f ∷ []) (enforced k available fs)),
            )
        | inr (inl gone) ↦
            let ih =
              write_files-ok k available applied fs names (rw (there, gone, write_files) at h) in
            ((inr (inl gone), ih.0), rw (there, gone) ih.1)
        | inr (inr (e, no_way)) ↦
            absurd (let bad : Result.err e ≡ ok names = rw (there, no_way, write_files) at h in cc)
      ]
    ]

later :
    (k : Kernel) (available : Text) (errno : ℕ) (f : File) (fs : List File)
    → Settled k available f
    → FirstRefused k available errno fs
    → FirstRefused k available errno (f ∷ fs)
unfolding FirstRefused
later k available errno f fs s (front, g, back, shape, settled, r) =
    (f ∷ front, g, back, ap (λ t. f ∷ t) shape, (s, settled), r)

write_files-err :
    (k : Kernel) (available : Text) (applied : List Text) (fs : List File) (errno : ℕ)
    → (write_files k available applied fs).1 ≡ err errno
    → FirstRefused k available errno fs
unfolding write_files FirstRefused
write_files-err k available applied [] errno h = cc
write_files-err k available applied ((c, f, v) ∷ fs) errno h =
    elim (Bool-cases (has_controller available c)) [
      | inr missing ↦
          later k available errno (c, f, v) fs (inl missing)
            (write_files-err k available applied fs errno (rw (missing, write_files) at h))
      | inl there ↦ elim (Written-cases (k.write f v)) [
        | inl wrote ↦
            later k available errno (c, f, v) fs (inr (inr wrote))
              (write_files-err k available (applied ++ f ∷ []) fs errno
                (rw (there, wrote, write_files) at h))
        | inr (inl gone) ↦
            later k available errno (c, f, v) fs (inr (inl gone))
              (write_files-err k available applied fs errno (rw (there, gone, write_files) at h))
        | inr (inr (e, no_way)) ↦
            let same : e ≡ errno =
              (let s : Result.err e ≡ err errno = rw (there, no_way, write_files) at h in cc) in
            ([], (c, f, v), fs, refl, tt, (there, no_way ∙ ap refused same))
      ]
    ]

placed-Justified :
    (k : Kernel) (dir available : Text) (l : CgroupLimits) (r : Run (List Text))
    → k.controllers ≡ some available
    → r ≡ write_files k available [] (files l)
    → Justified k dir l (after_action create_dir (placed dir r))
unfolding placed Justified
placed-Justified k dir available l (acts, err e) h same =
    (available, h, write_files-err k available [] (files l) e (sym (ap (λ r. r.1) same)))
placed-Justified k dir available l (acts, ok []) h same =
    let (settled, names) = write_files-ok k available [] (files l) [] (sym (ap (λ r. r.1) same)) in
    inr (inr (inr (available, h, settled, sym names, create_dir ∷ acts, refl)))
placed-Justified k dir available l (acts, ok (f ∷ fs)) h same =
    let (settled, names) =
      write_files-ok k available [] (files l) (f ∷ fs) (sym (ap (λ r. r.1) same)) in
    (available, h, refl, settled, λ z. let bad : f ∷ fs ≡ [] = names ∙ z in cc)

-- Whatever the kernel answers, `setup_at` is justified: a unit is placed in its group only if every
-- limit is in force or is one that the kernel has not got, and at least one is in force; an error is
-- the kernel's refusal of one of the files, with all files before it settled; and a unit is left
-- outside without an error only if it has no limits, the group cannot be made or read, or the kernel
-- has none of its limits, and then the group is removed.
pub setup_at-Justified :
    (k : Kernel) (dir : Text) (l : CgroupLimits) → Justified k dir l (setup_at k dir l)
unfolding setup_at Justified
setup_at-Justified k dir l = elim (Bool-cases (is_empty l)) [
  | inl unlimited ↦
      let run : setup_at k dir l ≡ ([], ok none) = rw (unlimited, setup_at) in
      subst (Justified k dir l) (sym run) (inl unlimited)
  | inr limited ↦ elim (Bool-cases k.creates) [
    | inr failed ↦
        let run : setup_at k dir l ≡ (create_dir ∷ [], ok none) = rw (limited, failed, setup_at) in
        subst (Justified k dir l) (sym run) (inr (inl failed))
    | inl created ↦ elim (Option-cases k.controllers) [
      | inl unread ↦
          let run : setup_at k dir l ≡ (create_dir ∷ [], ok none) =
            rw (limited, created, unread, setup_at) in
          subst (Justified k dir l) (sym run) (inr (inr (inl unread)))
      | inr (available, read) ↦
          let run : setup_at k dir l
              ≡ after_action create_dir (placed dir (write_files k available [] (files l))) =
            rw (limited, created, read, setup_at) in
          subst (Justified k dir l) (sym run)
            (placed-Justified k dir available l (write_files k available [] (files l)) read refl)
    ]
  ]
]
