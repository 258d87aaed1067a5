-- ===== src/Logger/Samples.antt =====
-- crates/rinit-core/src/logger.rs: the theorems on a concrete ring, and tests.
use rinit.Prelude.{◌≡◌, refl, List, [], ◌∷◌, ◌++◌, arith, Text, codes, text_eq}
use rinit.Unit.Name.{UnitName, service}
use rinit.Logger.{LogLine, LogBuffer, new, stored, push, tail, tail_for}
use rinit.Logger.Eviction.{IsLongestEnd}
use rinit.Logger.Ring.{IsSound, new-IsSound, push-IsSound, push-newest}

abbrev app : UnitName
app = record { canonical = codes "a.service"; ty = service }

abbrev db : UnitName
db = record { canonical = codes "b.service"; ty = service }

abbrev ring : LogBuffer
ring = push 11 (push 11 (new 60 8) app (codes "one")) db (codes "a long line")

ring-IsSound : IsSound 11 ring
ring-IsSound =
    push-IsSound 11 (push 11 (new 60 8) app (codes "one")) db (codes "a long line")
      (push-IsSound 11 (new 60 8) app (codes "one") (new-IsSound 11 60 8))

push-IsSound_example : IsSound 11 (push 11 ring app (codes "three"))
push-IsSound_example = push-IsSound 11 ring app (codes "three") ring-IsSound

push-newest_example :
    (front : List LogLine) × ((push 11 ring app (codes "three")).lines
      ≡ front ++ stored 11 ring app (codes "three") ∷ [])
    × IsLongestEnd 11 60
        (ring.lines ++ stored 11 ring app (codes "three") ∷ [])
        (push 11 ring app (codes "three")).lines
unfolding push new
push-newest_example =
    push-newest 11 ring app (codes "three") ring-IsSound (ground arith) (ground arith)

abbrev line : UnitName → Text → LogLine
line unit text = record { unit = unit; text = text }

-- The third line evicts the first; the second is cut at eight bytes.
push-third :
    ((push 11 ring app (codes "three")).lines
      ≡ line db (codes "a long l") ∷ line app (codes "three") ∷ [])
    × ((push 11 ring app (codes "three")).bytes ≡ 53)
    × (tail_for ring app 5 ≡ line app (codes "one") ∷ [])
    × (tail ring 1 ≡ line db (codes "a long l") ∷ [])
unfolding push tail tail_for new rinit.Control.Responses.back_up rinit.Unit.Name.name_eq text_eq
push-third = (refl, refl, refl, refl)

-- Where the bound has no room for the name and the overhead, a push evicts its own line too.
push-no_room : (push 50 (new 55 8) app (codes "x")).lines ≡ []
unfolding push new rinit.Control.Responses.back_up
push-no_room = refl
