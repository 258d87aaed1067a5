-- ===== src/Unit/Notify/Samples.antt =====
-- crates/rinit-core/src/unit/notify.rs: the theorems on messages at concrete datagrams.
use rinit.Prelude.{
  ℕ, ◌+◌, ◌≡◌, refl, inl, inr, List, [], ◌∷◌, ◌++◌, arith, length, Text, codes, ok, err,
}
use rinit.Prelude.Slices.{join_with, contains}
use rinit.Unit.Notify.{NotifyMessage, default, malformed, bare, parse}
use rinit.Unit.Notify.Lines.{Reflects, parse-Admissible, parse_first_bad}

abbrev ready : Text
ready = codes "READY=1"

abbrev status_up : Text
status_up = codes "STATUS=up=1"

parse-Admissible_example :
    (m : NotifyMessage) × (parse (join_with b'\n' (ready ∷ [] ∷ status_up ∷ [])) ≡ ok m)
    × Reflects (ready ∷ [] ∷ status_up ∷ []) default m
unfolding contains bare rinit.Prelude.Slices.strip_suffix rinit.Prelude.Slices.strip_prefix
parse-Admissible_example =
    parse-Admissible ready ([] ∷ status_up ∷ []) (refl, (refl, (refl, tt)))
      (inr refl, (inl refl, (inr refl, tt)))

parse_first_bad_example :
    parse (join_with b'\n' (ready ∷ codes "nonsense" ∷ status_up ∷ [])) ≡ err (malformed (1 + 1))
unfolding contains bare rinit.Prelude.Slices.strip_suffix rinit.Prelude.Slices.strip_prefix
parse_first_bad_example =
    parse_first_bad (ready ∷ []) (codes "nonsense") (status_up ∷ []) (refl, (refl, (refl, tt)))
      (inr refl, tt) (λ e. cc) refl
