-- ===== src/RateLimit.antt =====
-- crates/rinit-core/src/ratelimit.rs: the limiter of rinit's own console output.
use rinit.Prelude.{
  ℕ, zero, suc, ◌+◌, ◌-◌, ◌*◌, ◌/◌, ◌%◌, ◌^◌, ◌≤◌, ◌<◌, min, max, ◌≡◌, refl, sym, ap, ◌∙◌, ◌≢◌, ◌↔◌,
  ◌⊎◌, inl, inr, Bool, true, false, not, ◌&&◌, ◌||◌, Option, none, some, List, [], ◌∷◌, ◌++◌, map,
  Memᴰ, arith, ltb, leb, ◌==◌, ==_iff, if◌then◌else◌, ltb→lt, lt→ltb, leb→le, Bool-cases,
  Option-cases, length, get_elem?, take, drop, length-append, length-drop, take-append, drop-append,
  List-cases, All, All-append, All-drop, Text, codes, text_eq, text_eq_iff, Result, ok, err, ◌>>=◌,
  ◌>>◌, Result-cases,
}
use rinit.Prelude.Word.{u32_max, sat_add, sat_sub}
use rinit.Prelude.Order.{Order, lex_order, text_order, num_order, same, same_iff}
use rinit.Prelude.OrdMap.{Entries, lookup, insert}
use mathlib.Core.Option as Opt
pub mod Budget
pub mod Account
mod Samples

-- A call site; the order is the derived one.
pub record Key : Type 0 where
  pub file : Text
  pub line : ℕ

pub Key-eq : (j k : Key) → j.file ≡ k.file → j.line ≡ k.line → j ≡ k
Key-eq j k p q = ground arith

abbrev pub key_order : Order Key
key_order = lex_order text_order num_order (λ k. k.file) (λ k. k.line) Key-eq

pub data Decision : Type 0 where
  print suppress : Decision
  print_after_suppressing : ℕ → Decision

pub record Site : Type 0 where
  pub window_start_ms : ℕ
  pub printed : ℕ
  pub suppressed : ℕ

pub record Limiter : Type 0 where
  pub window_ms : ℕ
  pub burst : ℕ
  pub sites : Entries Key Site

unfoldable pub new : ℕ → ℕ → Limiter
new window_ms burst = record { window_ms = window_ms; burst = burst; sites = [] }

abbrev pub opened : ℕ → Site
opened now_ms = record { window_start_ms = now_ms; printed = 0; suppressed = 0 }

-- What `admit` makes of the site that it found or opened.
unfoldable pub admit_site : ℕ → ℕ → ℕ → Site → Site × Decision
admit_site window_ms burst now_ms site =
    if leb window_ms (sat_sub now_ms site.window_start_ms)
    then (
      record { window_start_ms = now_ms; printed = 1; suppressed = 0 },
      if ltb 0 site.suppressed then print_after_suppressing site.suppressed else print,
    )
    else if ltb site.printed burst
    then (record site { printed = site.printed + 1 }, print)
    else (record site { suppressed = sat_add u32_max site.suppressed 1 }, suppress)

unfoldable pub admit : Limiter → Key → ℕ → Limiter × Decision
unfolding admit_site
admit l key now_ms =
    let site = Opt.get_or (lookup key_order key l.sites) (opened now_ms) in
    let (site', decision) = admit_site l.window_ms l.burst now_ms site in
    (record l { sites = insert key_order key site' l.sites }, decision)

unfoldable pub pending_of : Entries Key Site → List (Key × ℕ)
pending_of [] = []
pending_of ((key, site) ∷ m) =
    if ltb 0 site.suppressed then (key, site.suppressed) ∷ pending_of m else pending_of m

unfoldable pub pending : Limiter → List (Key × ℕ)
unfolding pending_of
pending l = pending_of l.sites
