-- ===== src/RateLimit/Account.antt =====
-- crates/rinit-core/src/ratelimit.rs: the suppressed messages and their reports.
use rinit.Prelude.{
  ℕ, ◌+◌, ◌≤◌, ◌<◌, ◌≡◌, refl, inl, inr, Option, none, some, List, [], ◌∷◌, arith, Bool-cases,
  length,
}
use rinit.Prelude.Word.{u32_max}
use rinit.Prelude.Order.{same}
use rinit.Prelude.OrdMap.{Entries, lookup, insert, IsSorted, insert-IsSorted, lookup_above}
use rinit.RateLimit.{
  Key, key_order, Decision, print, suppress, print_after_suppressing, Site, Limiter, new, opened,
  admit_site, admit, pending_of, pending,
}
use mathlib.Core.Option as Opt

-- What the sites have suppressed and not reported.
total : Entries Key Site → ℕ
total [] = 0
total ((k, s) ∷ m) = s.suppressed + total m

-- The counts in a list of pending reports.
pub pending_total : List (Key × ℕ) → ℕ
pending_total [] = 0
pending_total ((k, n) ∷ ps) = n + pending_total ps

pending_total-pending_of : (m : Entries Key Site) → pending_total (pending_of m) ≡ total m
unfolding pending_total pending_of total
pending_total-pending_of [] = refl
pending_total-pending_of ((k, s) ∷ m) = ground (arith, pending_total-pending_of m)

abbrev held : Option Site → ℕ
held none = 0
held (some s) = s.suppressed

held-le : (k : Key) (m : Entries Key Site) → held (lookup key_order k m) ≤ total m
unfolding lookup total
held-le k [] = omega arith
held-le k ((j, s) ∷ m) = elim (Bool-cases (same key_order j k)) [
  | inl e ↦ rw (e, lookup) (omega arith)
  | inr ne ↦ rw (ne, lookup) (omega (arith, held-le k m))
]

total-insert :
    (k : Key) (s : Site) (m : Entries Key Site)
    → IsSorted key_order m
    → total (insert key_order k s m) + held (lookup key_order k m) ≡ total m + s.suppressed
unfolding insert lookup total
total-insert k s [] h = omega arith
total-insert k s ((j, w) ∷ m) h = elim (Bool-cases (same key_order j k)) [
  | inl e ↦ rw (e, insert, lookup) (omega arith)
  | inr ne ↦ elim (Bool-cases (key_order.before k j)) [
    | inl b ↦
        let gone = lookup_above key_order k j w m h b in rw (ne, b, insert, gone) (omega arith)
    | inr a ↦ rw (ne, a, insert, lookup) (omega (arith, total-insert k s m h.1))
  ]
]

-- The suppressed messages that a decision speaks of, and those that it suppresses.
pub reported : Decision → ℕ
reported (print_after_suppressing n) = n
reported _ = 0

pub dropped : Decision → ℕ
dropped suppress = 1
dropped _ = 0

-- What the limiter says of a list of messages, added up.
pub reported_all : Limiter → List (Key × ℕ) → ℕ
reported_all l [] = 0
reported_all l ((k, t) ∷ es) = reported (admit l k t).1 + reported_all (admit l k t).0 es

pub dropped_all : Limiter → List (Key × ℕ) → ℕ
dropped_all l [] = 0
dropped_all l ((k, t) ∷ es) = dropped (admit l k t).1 + dropped_all (admit l k t).0 es

pub admit_all : Limiter → List (Key × ℕ) → Limiter
admit_all l [] = l
admit_all l ((k, t) ∷ es) = admit_all (admit l k t).0 es

site_balance :
    (window burst t : ℕ) (s : Site)
    → s.suppressed < u32_max
    → let r = admit_site window burst t s in
      reported r.1 + r.0.suppressed ≡ s.suppressed + dropped r.1
unfolding admit_site reported dropped
site_balance window burst t s h = ground arith

held-opened : (o : Option Site) (t : ℕ) → (Opt.get_or o (opened t)).suppressed ≡ held o
held-opened none t = refl
held-opened (some s) t = refl

admit_balance :
    (l : Limiter) (k : Key) (t : ℕ)
    → IsSorted key_order l.sites
    → total l.sites < u32_max
    → reported (admit l k t).1 + total (admit l k t).0.sites
      ≡ total l.sites + dropped (admit l k t).1
unfolding admit
admit_balance l k t sorted h =
    let site = Opt.get_or (lookup key_order k l.sites) (opened t) in
    let r = admit_site l.window_ms l.burst t site in
    omega (
      arith,
      site_balance l.window_ms l.burst t site,
      held-opened (lookup key_order k l.sites) t,
      held-le k l.sites,
      total-insert k r.0 l.sites sorted,
    )

admit-IsSorted :
    (l : Limiter) (k : Key) (t : ℕ)
    → IsSorted key_order l.sites
    → IsSorted key_order (admit l k t).0.sites
unfolding admit
admit-IsSorted l k t h = insert-IsSorted key_order k _ l.sites h

dropped_le : (d : Decision) → dropped d ≤ 1
unfolding dropped
dropped_le print = omega arith
dropped_le suppress = omega arith
dropped_le (print_after_suppressing n) = omega arith

run_balance :
    (l : Limiter) (es : List (Key × ℕ))
    → IsSorted key_order l.sites
    → total l.sites + length es ≤ u32_max
    → reported_all l es + total (admit_all l es).sites ≡ total l.sites + dropped_all l es
unfolding reported_all dropped_all admit_all
run_balance l [] sorted h = omega arith
run_balance l ((k, t) ∷ es) sorted h =
    let step = admit_balance l k t sorted (omega arith) in
    let few = dropped_le (admit l k t).1 in
    omega (arith, run_balance (admit l k t).0 es (admit-IsSorted l k t sorted) (omega arith))

-- Of the messages that a new limiter admits, fewer than 2^32 of them, every one that it suppressed
-- is either in a count that was reported with a later message or still pending.
pub nothing_lost :
    (window burst : ℕ) (es : List (Key × ℕ))
    → length es ≤ u32_max
    → reported_all (new window burst) es + pending_total (pending (admit_all (new window burst) es))
      ≡ dropped_all (new window burst) es
unfolding new pending total
nothing_lost window burst es h = omega (
  arith,
  run_balance (new window burst) es tt (omega arith),
  pending_total-pending_of (admit_all (new window burst) es).sites,
)
