-- ===== src/Fstab/Report.antt =====
-- crates/rinit-runtime/src/fstab.rs: what the report of the second wave says.
use rinit.Prelude.{
  codes, text_eq_iff, ap, ==_iff, ℕ, ◌+◌, ◌≡◌, sym, ◌⊎◌, inl, inr, true, false, Option, List, [],
  ◌∷◌, ◌++◌, arith, ◌==◌, Bool-cases, Option-cases, All, Text,
}
use rinit.Prelude.Slices.{trim_by}
use rinit.Prelude.Splits.{lines}
use rinit.Unit.Name.{is_whitespace}
use mathlib.Core.Path.{subst}
use rinit.Fstab.{
  too_few_fields, Entry, Warning, is_swap, is_absolute, is_noauto, Line, skipped, warned, entry,
  judge_entry, judge_line, read_entry, add_line, parse_from, parse,
}
use rinit.Fstab.InUse.{Due, InUse}
use rinit.Fstab.Trace.{Run, over, passed, mounted, failed, mount_all-Added}
use rinit.Fstab.Mounting.{MountOps, FstabReport, mount_with_mounted}

-- An entry of the parsed list: a swap entry or an absolute point, and not `noauto`.
abbrev pub Usable : Entry → Type 0
Usable e = ((is_swap e ≡ true) ⊎ (is_absolute e.mountpoint ≡ true)) × (is_noauto e ≡ false)

abbrev GoodLine : Line → Type 0
GoodLine skipped = Unit
GoodLine (warned w) = Unit
GoodLine (entry e) = Usable e

judge_entry-Usable : (n : ℕ) (e : Entry) → GoodLine (judge_entry n e)
unfolding judge_entry
judge_entry-Usable n e = ground arith

judge_line-Usable : (n : ℕ) (line : Text) → GoodLine (judge_line n line)
unfolding judge_line
judge_line-Usable n [] = tt
judge_line-Usable n (c ∷ s) = elim (Bool-cases (c == b'#')) [
  | inl comment ↦
      subst GoodLine (sym (let l : judge_line n (c ∷ s) ≡ skipped = rw (comment, judge_line) in l))
        tt
  | inr code ↦ elim (Option-cases (read_entry (c ∷ s))) [
    | inl few ↦
        let l : judge_line n (c ∷ s) ≡ warned (too_few_fields n (c ∷ s)) =
          rw (code, few, judge_line) in
        subst GoodLine (sym l) tt
    | inr (e, read) ↦
        let l : judge_line n (c ∷ s) ≡ judge_entry n e = rw (code, read, judge_line) in
        subst GoodLine (sym l) (judge_entry-Usable n e)
  ]
]

add_line-Usable :
    (l : Line) (r : List Entry × List Warning)
    → GoodLine l
    → All Usable r.0
    → All Usable (add_line l r).0
add_line-Usable skipped r g h = h
add_line-Usable (warned w) r g h = h
add_line-Usable (entry e) r g h = (g, h)

parse_from-Usable : (n : ℕ) (ls : List Text) → All Usable (parse_from n ls).0
unfolding parse_from
parse_from-Usable n [] = tt
parse_from-Usable n (l ∷ ls) =
    add_line-Usable (judge_line (n + 1) (trim_by is_whitespace l)) (parse_from (n + 1) ls)
      (judge_line-Usable (n + 1) (trim_by is_whitespace l)) (parse_from-Usable (n + 1) ls)

-- A point to mount on: absolute, and nothing is mounted there.
abbrev pub Fresh : Option Text → Text → Type 0
Fresh current p = ((rest : Text) × (p ≡ b'/' ∷ rest)) × ¬ InUse current p

-- The report of a wave that led from `s` to `t`: the entries' run, whose points are the mounts and
-- whose warnings stand behind those of the lines; and nothing is mounted but on fresh points.
pub record IsReport {S : Type 0} (ops : MountOps S) (current : Option Text) (s t : S)
    (entries : List Entry) (warnings : List Warning) (r : FstabReport) : Type 0 where
  pub later : List Warning
  pub warned_later : r.warnings ≡ warnings ++ later
  pub run : Run ops current s entries r.mounted later t
  pub fresh : All (Fresh current) r.mounted

is_absolute-slash : (p : Text) → is_absolute p ≡ true → (rest : Text) × (p ≡ b'/' ∷ rest)
is_absolute-slash [] h = cc
is_absolute-slash (c ∷ s) h = (s, ap (λ d. d ∷ s) ((==_iff c b'/').0 h))

Due-Fresh :
    (current : Option Text) (e : Entry) → Usable e → Due current e → Fresh current e.mountpoint
unfolding is_swap
Due-Fresh current e (inl swap, own) due =
    absurd (due.0 ((text_eq_iff e.fstype (codes "swap")).0 swap))
Due-Fresh current e (inr root, own) due = (is_absolute-slash e.mountpoint root, due.1)

-- The points of a run over usable entries are fresh.
Run-Fresh :
    {S : Type 0} {ops : MountOps S} {current : Option Text} {s t : S} {es : List Entry}
    {ms : List Text} {ws : List Warning}
    → All Usable es
    → Run ops current s es ms ws t
    → All (Fresh current) ms
Run-Fresh u over = tt
Run-Fresh u (passed p run) = Run-Fresh u.1 run
Run-Fresh {current = current} u (mounted {e = e} due a run) =
    (Due-Fresh current e u.0 due, Run-Fresh u.1 run)
Run-Fresh u (failed due a run) = Run-Fresh u.1 run

-- Whatever the system calls answer, the wave goes through all entries in the order of the file, each
-- call in the state that the one before it left: an entry for swap or mounted already is passed over;
-- else its point is made and the entry mounted with its own flags and data. The mounts are the points
-- of exactly those entries of which both calls succeeded, in order; the warnings are those of the
-- lines that cannot be used and behind them, in order, the error of each call that failed. What is
-- mounted stands on absolute points that are in no row of the table of mounts.
pub mount_with_mounted-IsReport :
    {S : Type 0} (ops : MountOps S) (s : S) (text : Text) (current : Option Text)
    → IsReport ops current s
        (mount_with_mounted ops s text current).1
        (parse text).0
        (parse text).1
        (mount_with_mounted ops s text current).0
unfolding mount_with_mounted parse
mount_with_mounted-IsReport ops s text current =
    let r : FstabReport = record { mounted = []; warnings = (parse text).1 } in
    let added = mount_all-Added ops current (parse text).0 s r in
    let run =
      subst
        (λ ms.
          Run ops current s (parse text).0 ms added.warnings
            (mount_with_mounted ops s text current).1)
        (sym added.mounts) added.run in
    record {
      later = added.warnings;
      warned_later = added.warns;
      run = run;
      fresh = Run-Fresh (parse_from-Usable 0 (lines text)) run;
    }

-- No entry of the list is `noauto`, and each has an absolute point or is for swap.
parse-Usable : (text : Text) → All Usable (parse text).0
unfolding parse
parse-Usable text = parse_from-Usable 0 (lines text)
