-- ===== src/Logger/Ring.antt =====
-- crates/rinit-core/src/logger.rs: the bounds of the ring and what it keeps.
use rinit.Prelude.{
  ℕ, zero, suc, ◌+◌, ◌-◌, ◌≤◌, ◌<◌, min, max, ◌≡◌, refl, sym, ap, ◌∙◌, inl, inr, true, false, List,
  [], ◌∷◌, ◌++◌, arith, leb, ◌==◌, leb→le, Bool-cases, length, drop, All, All-append, All-drop,
}
use mathlib.Core.Path.{subst}
use rinit.Control.Wire.{Bytes}
use rinit.Unit.Name.{UnitName}
use rinit.Logger.{LogLine, LogBuffer, line_cost, new, evict, stored, push}
use rinit.Logger.Eviction.{total, total-snoc, IsLongestEnd, Exact, evict-longest, length-truncate}

-- What holds of every ring: its account is that of its lines and within its bound, and no line is
-- longer than the bound on lines.
pub record IsSound (o : ℕ) (b : LogBuffer) : Type 0 where
  pub account : b.bytes ≡ total o b.lines
  pub bounded : b.bytes ≤ b.max_bytes
  pub short : All (λ l. length l.text ≤ b.max_line_bytes) b.lines

pub new-IsSound : (o max_bytes max_line_bytes : ℕ) → IsSound o (new max_bytes max_line_bytes)
unfolding new total
new-IsSound o m n = record { account = refl; bounded = omega arith; short = tt }

-- The line that `push` stores is short, and fits where its unit's name does.
stored_short :
    (o : ℕ) (b : LogBuffer) (unit : UnitName) (text : Bytes)
    → (length (stored o b unit text).text ≤ b.max_line_bytes)
      × (length (stored o b unit text).text ≤ b.max_bytes - (length unit.canonical + o))
unfolding stored
stored_short o b unit text =
    let fits =
      length-truncate text (min b.max_line_bytes (b.max_bytes - (length unit.canonical + o))) in
    (ground arith, ground arith)

-- What `push` evicts from.
pushed : (o : ℕ) (b : LogBuffer) (unit : UnitName) (text : Bytes) → List LogLine × ℕ
pushed o b unit text =
    let line = stored o b unit text in
    evict o b.max_bytes (b.lines ++ line ∷ []) (b.bytes + line_cost o line.unit line.text)

pushed-Exact :
    (o : ℕ) (b : LogBuffer) (unit : UnitName) (text : Bytes)
    → IsSound o b
    → Exact o b.max_bytes (b.lines ++ stored o b unit text ∷ []) (pushed o b unit text)
unfolding pushed
pushed-Exact o b unit text s =
    let line = stored o b unit text in
    evict-longest o b.max_bytes (b.lines ++ line ∷ []) (b.bytes + line_cost o line.unit line.text)
      (ap (λ n. n + line_cost o line.unit line.text) s.account ∙ sym (total-snoc o b.lines line))

push-off :
    (o : ℕ) (b : LogBuffer) (unit : UnitName) (text : Bytes)
    → b.max_bytes == 0 ≡ true
    → push o b unit text ≡ b
unfolding push
push-off o b unit text off = rw (off, push)

-- The ring that keeps the evicted lines.
abbrev keeping : LogBuffer → List LogLine × ℕ → LogBuffer
keeping b (lines, bytes) = record b { lines = lines; bytes = bytes }

push-keeping :
    (o : ℕ) (b : LogBuffer) (unit : UnitName) (text : Bytes)
    → b.max_bytes == 0 ≡ false
    → push o b unit text ≡ keeping b (pushed o b unit text)
unfolding push pushed
push-keeping o b unit text on = rw (on, push)

-- After a push the ring is sound again, whatever is pushed.
pub push-IsSound :
    (o : ℕ) (b : LogBuffer) (unit : UnitName) (text : Bytes)
    → IsSound o b
    → IsSound o (push o b unit text)
push-IsSound o b unit text s = elim (Bool-cases (b.max_bytes == 0)) [
  | inl off ↦ subst (IsSound o) (sym (push-off o b unit text off)) s
  | inr on ↦
      let (account, e) = pushed-Exact o b unit text s in
      let line = stored o b unit text in
      let short =
        All-append (λ l. length l.text ≤ b.max_line_bytes) b.lines (line ∷ []) s.short
          ((stored_short o b unit text).0, tt) in
      subst (IsSound o) (sym (push-keeping o b unit text on)) (record {
        account = account;
        bounded = rw (account) e.fits;
        short = rw (e.shape) (
            All-drop (λ l. length l.text ≤ b.max_line_bytes) e.dropped (b.lines ++ line ∷ [])
              short);
      })
]

drop-snoc :
    {A : Type 0} (k : ℕ) (xs : List A) (x : A)
    → k ≤ length xs
    → drop k (xs ++ x ∷ []) ≡ drop k xs ++ x ∷ []
drop-snoc zero xs x h = refl
drop-snoc (suc k) [] x h = absurd (omega arith)
drop-snoc (suc k) (y ∷ xs) x h = drop-snoc k xs x (ground arith)

drop_all-snoc : {A : Type 0} (xs : List A) (x : A) → drop (length xs) (xs ++ x ∷ []) ≡ x ∷ []
drop_all-snoc [] x = refl
drop_all-snoc (y ∷ xs) x = drop_all-snoc xs x

dropped_within :
    (o max k : ℕ) (ls : List LogLine) (l : LogLine)
    → line_cost o l.unit l.text ≤ max
    → ((j : ℕ) → j < k → max < total o (drop j (ls ++ l ∷ [])))
    → k ≤ length ls
unfolding total
dropped_within o max k ls l cost least = elim (Bool-cases (leb k (length ls))) [
  | inl within ↦ leb→le k (length ls) within
  | inr beyond ↦
      let over = least (length ls) (ground arith) in
      let last : total o (drop (length ls) (ls ++ l ∷ [])) ≡ line_cost o l.unit l.text + 0 =
        ap (total o) (drop_all-snoc ls l) in
      absurd (ground arith)
]

stored_cost :
    (o : ℕ) (b : LogBuffer) (unit : UnitName) (text : Bytes)
    → length unit.canonical + o ≤ b.max_bytes
    → line_cost o (stored o b unit text).unit (stored o b unit text).text ≤ b.max_bytes
unfolding line_cost stored
stored_cost o b unit text room = let fits = (stored_short o b unit text).1 in ground arith

-- Where the bound has room for the name of the unit and the overhead, the line that is pushed is
-- the newest line of the ring behind the push, so a push never evicts its own line; what is dropped
-- are the oldest lines, and no more of them than the bound asks for.
pub push-newest :
    (o : ℕ) (b : LogBuffer) (unit : UnitName) (text : Bytes)
    → IsSound o b
    → 0 < b.max_bytes
    → length unit.canonical + o ≤ b.max_bytes
    → (front : List LogLine) × ((push o b unit text).lines ≡ front ++ stored o b unit text ∷ [])
      × IsLongestEnd o b.max_bytes (b.lines ++ stored o b unit text ∷ []) (push o b unit text).lines
push-newest o b unit text s some_room room =
    let (account, e) = pushed-Exact o b unit text s in
    let line = stored o b unit text in
    let kept : push o b unit text ≡ keeping b (pushed o b unit text) =
      push-keeping o b unit text (ground arith) in
    let within : e.dropped ≤ length b.lines =
      dropped_within o b.max_bytes e.dropped b.lines line (stored_cost o b unit text room)
        e.least in
    (
      drop e.dropped b.lines,
      ap (λ r. r.lines) kept ∙ e.shape ∙ drop-snoc e.dropped b.lines line within,
      subst (λ r. IsLongestEnd o b.max_bytes (b.lines ++ line ∷ []) r.lines) (sym kept) e,
    )
