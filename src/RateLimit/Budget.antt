-- ===== src/RateLimit/Budget.antt =====
-- crates/rinit-core/src/ratelimit.rs: the messages that a call site prints.
use rinit.Prelude.{
  ℕ, suc, ◌+◌, ◌-◌, ◌≤◌, ◌<◌, min, max, ◌≡◌, refl, sym, ap, ◌∙◌, inl, inr, Bool, true, false, ◌&&◌,
  Option, none, some, List, [], ◌∷◌, arith, if◌then◌else◌, Bool-cases, All,
}
use rinit.Prelude.Order.{same, same_iff}
use rinit.Prelude.OrdMap.{lookup, lookup-insert}
use rinit.RateLimit.{Key, key_order, Decision, suppress, Site, Limiter, opened, admit_site, admit}
use mathlib.Core.Option as Opt
use mathlib.Core.Path.{ap₂}
use rinit.Prelude.{All-mono}

-- A message that reaches the console.
abbrev pub prints : Decision → Bool
prints suppress = false
prints _ = true

-- The messages printed for `k` when these are admitted one after the other.
unfoldable pub printed_at : Limiter → Key → List (Key × ℕ) → ℕ
printed_at l k [] = 0
printed_at l k ((j, t) ∷ es) =
    let rest = printed_at (admit l j t).0 k es in
    if same key_order j k && prints (admit l j t).1 then suc rest else rest

-- The times of the messages of `k`.
unfoldable pub times_of : Key → List (Key × ℕ) → List ℕ
times_of k [] = []
times_of k ((j, t) ∷ es) = if same key_order j k then t ∷ times_of k es else times_of k es

module _ (window burst : ℕ) where
  spend : Site → List ℕ → ℕ
  spend s [] = 0
  spend s (t ∷ ts) =
      let r = admit_site window burst t s in
      let rest = spend r.0 ts in if prints r.1 then suc rest else rest

  spend_from : Option Site → List ℕ → ℕ
  unfolding spend
  spend_from (some s) ts = spend s ts
  spend_from none [] = 0
  spend_from none (t ∷ ts) = spend (opened t) (t ∷ ts)

  -- Within the window of the site nothing is printed beyond its budget.
  spend_within :
      (s : Site) (ts : List ℕ)
      → All (λ t. t - s.window_start_ms < window) ts
      → spend s ts ≤ burst - s.printed
  unfolding spend admit_site
  spend_within s [] h = omega arith
  spend_within s (t ∷ ts) h = ground (
    arith,
    spend_within (record s { printed = s.printed + 1 }) ts h.1,
    spend_within (record s { suppressed = min (s.suppressed + 1) 4294967295 }) ts h.1,
  )

  -- The times of a span that is shorter than the window.
  abbrev InSpan : ℕ → ℕ → Type 0
  InSpan a t = (a ≤ t) × (t < a + window)

  span_after :
      (a t : ℕ) (ts : List ℕ) → InSpan a t → All (InSpan a) ts → All (λ u. u - t < window) ts
  span_after a t ts h = All-mono (InSpan a) (λ u. u - t < window) (λ u s. omega arith) ts

  spend_span :
      (a : ℕ) (s : Site) (ts : List ℕ)
      → All (InSpan a) ts
      → spend s ts ≤ burst - s.printed + max burst 1
  unfolding spend admit_site
  spend_span a s [] h = omega arith
  spend_span a s (t ∷ ts) h = ground (
    arith,
    spend_span a (record s { printed = s.printed + 1 }) ts h.1,
    spend_span a (record s { suppressed = min (s.suppressed + 1) 4294967295 }) ts h.1,
    spend_within (record { window_start_ms = t; printed = 1; suppressed = 0 }) ts
        (span_after a t ts h.0 h.1),
  )

  spend_from_span :
      (a : ℕ) (o : Option Site) (ts : List ℕ)
      → All (InSpan a) ts
      → spend_from o ts ≤ burst + max burst 1
  unfolding spend_from
  spend_from_span a none [] h = omega arith
  spend_from_span a none (t ∷ ts) h = omega (arith, spend_span a (opened t) (t ∷ ts) h)
  spend_from_span a (some s) ts h = omega (arith, spend_span a s ts h)

-- One admitted message, seen from one call site.
admit_fields :
    (l : Limiter) (j : Key) (t : ℕ)
    → let site = Opt.get_or (lookup key_order j l.sites) (opened t) in
      let r = admit_site l.window_ms l.burst t site in
      ((admit l j t).1 ≡ r.1)
      × ((admit l j t).0.window_ms ≡ l.window_ms)
      × ((admit l j t).0.burst ≡ l.burst)
      × ((k : Key)
          → lookup key_order k (admit l j t).0.sites
            ≡ (if same key_order j k then some r.0 else lookup key_order k l.sites))
unfolding admit
admit_fields l j t = (refl, refl, refl, λ k. lookup-insert key_order j k _ l.sites)

spend_from-opened :
    (window burst : ℕ) (o : Option Site) (t : ℕ) (ts : List ℕ)
    → spend_from window burst o (t ∷ ts) ≡ spend window burst (Opt.get_or o (opened t)) (t ∷ ts)
unfolding spend_from
spend_from-opened window burst none t ts = refl
spend_from-opened window burst (some s) t ts = refl

spend_from_nil : (window burst : ℕ) (o : Option Site) → spend_from window burst o [] ≡ 0
unfolding spend_from
spend_from_nil window burst none = refl
spend_from_nil window burst (some s) = refl

-- The later messages of a call site, seen from before and from after one message.
module _ (l : Limiter) (k j : Key) (t : ℕ) (es : List (Key × ℕ)) where
  abbrev Later : Type 0
  Later =
      let l' = (admit l j t).0 in
      printed_at l' k es
      ≡ spend_from l'.window_ms l'.burst (lookup key_order k l'.sites) (times_of k es)

  later_from :
      Later
      → printed_at (admit l j t).0 k es
        ≡ spend_from l.window_ms l.burst (lookup key_order k (admit l j t).0.sites) (times_of k es)
  later_from ih =
      let (_, w, b, _) = admit_fields l j t in
      ih
      ∙ ap₂ (λ x y. spend_from x y (lookup key_order k (admit l j t).0.sites) (times_of k es)) w b

  message_other :
      same key_order j k ≡ false
      → Later
      → printed_at (admit l j t).0 k es
        ≡ spend_from l.window_ms l.burst (lookup key_order k l.sites) (times_of k es)
  message_other ne ih =
      let (_, _, _, found) = admit_fields l j t in
      later_from ih ∙ ap (λ o. spend_from l.window_ms l.burst o (times_of k es)) (found k ∙ (rw ne))

module _ (l : Limiter) (k : Key) (t : ℕ) (es : List (Key × ℕ)) where
  message_own :
      Later l k k t es
      → (if prints (admit l k t).1
          then suc (printed_at (admit l k t).0 k es)
          else printed_at (admit l k t).0 k es)
        ≡ spend_from l.window_ms l.burst (lookup key_order k l.sites) (t ∷ times_of k es)
  unfolding spend spend_from
  message_own ih =
      let (decided, _, _, found) = admit_fields l k t in
      let self : same key_order k k ≡ true = (same_iff key_order k k).1 refl in
      let site = Opt.get_or (lookup key_order k l.sites) (opened t) in
      let after = (admit_site l.window_ms l.burst t site).0 in
      let later : printed_at (admit l k t).0 k es
          ≡ spend l.window_ms l.burst after (times_of k es) =
        later_from l k k t es ih
        ∙ ap (λ o. spend_from l.window_ms l.burst o (times_of k es))
            (found k ∙ ap (λ c. if c then some after else lookup key_order k l.sites) self) in
      rw (spend_from-opened l.window_ms l.burst (lookup key_order k l.sites) t (times_of k es))
        (rw (decided, later))

-- What the limiter prints for a call site is decided by that site's own messages.
printed_at-spend :
    (l : Limiter) (k : Key) (es : List (Key × ℕ))
    → printed_at l k es
      ≡ spend_from l.window_ms l.burst (lookup key_order k l.sites) (times_of k es)
unfolding printed_at times_of
printed_at-spend l k [] = sym (spend_from_nil l.window_ms l.burst (lookup key_order k l.sites))
printed_at-spend l k ((j, t) ∷ es) = elim (Bool-cases (same key_order j k)) [
  | inl e ↦
      let own = message_own l k t es (printed_at-spend (admit l k t).0 k es) in
      let eq = (same_iff key_order j k).0 e in rw (e, eq) own
  | inr ne ↦ rw ne (message_other l k j t es ne (printed_at-spend (admit l j t).0 k es))
]

-- Over a span of time shorter than the limiter's window a call site prints at most `burst` messages
-- and another `burst` (or one, if that is 0), however many messages it and the other call sites
-- have, in whatever order they come, and whatever was admitted before.
pub span_budget :
    (l : Limiter) (k : Key) (a : ℕ) (es : List (Key × ℕ))
    → All (λ t. (a ≤ t) × (t < a + l.window_ms)) (times_of k es)
    → printed_at l k es ≤ l.burst + max l.burst 1
span_budget l k a es h =
    rw (printed_at-spend l k es)
      (spend_from_span l.window_ms l.burst a (lookup key_order k l.sites) (times_of k es) h)
