-- ===== src/RateLimit/Samples.antt =====
-- crates/rinit-core/src/ratelimit.rs: the theorems on the limiter at a concrete flood.
use rinit.Prelude.{ℕ, ◌+◌, ◌≤◌, max, ◌≡◌, refl, List, [], ◌∷◌, arith, codes}
use rinit.RateLimit.{Key, new, pending}
use rinit.RateLimit.Budget.{printed_at, times_of, span_budget}
use rinit.RateLimit.Account.{reported_all, dropped_all, admit_all, pending_total, nothing_lost}

abbrev here : Key
here = record { file = codes "a.rs"; line = 3 }

abbrev there : Key
there = record { file = codes "a.rs"; line = 4 }

abbrev flood : List (Key × ℕ)
flood = (here, 5) ∷ (here, 6) ∷ (there, 7) ∷ (here, 8) ∷ []

span_budget_example : printed_at (new 10 2) here flood ≤ 2 + max 2 1
unfolding new times_of rinit.Prelude.Order.text_before
span_budget_example = span_budget (new 10 2) here 5 flood (omega arith)

nothing_lost_example :
    reported_all (new 10 1) flood + pending_total (pending (admit_all (new 10 1) flood))
    ≡ dropped_all (new 10 1) flood
nothing_lost_example = nothing_lost 10 1 flood (omega arith)
