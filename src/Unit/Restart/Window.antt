-- ===== src/Unit/Restart/Window.antt =====
-- crates/rinit-core/src/unit/restart.rs: the two loops over the window of failures.
use rinit.Prelude.{
  ℕ, suc, ◌-◌, ◌≤◌, ◌<◌, min, ◌≡◌, refl, sym, ap, ◌∙◌, inl, inr, true, false, List, [], ◌∷◌, ◌++◌,
  arith, ltb, leb, if◌then◌else◌, ltb→lt, Bool-cases, length, length-append, All, All-append,
}
use rinit.Prelude.{All-front, All-mid}
use rinit.Unit.Job.{Millis}
use rinit.Unit.Restart.{trim, expire}

pub length-trim : (b : ℕ) (ts : List Millis) → length (trim b ts) ≡ min b (length ts)
unfolding trim
length-trim b [] = omega arith
length-trim b (t ∷ ts) = ground (arith, length-trim b ts)

-- Times in the order in which they came.
abbrev pub Ascending : List Millis → Type 0
Ascending [] = Unit
Ascending (t ∷ ts) = All (λ s. t ≤ s) ts × Ascending ts

-- How many of these failures are younger than the interval.
unfoldable pub recent_count : Millis → ℕ → List Millis → ℕ
recent_count now width [] = 0
recent_count now width (t ∷ ts) =
    if ltb (now - t) width then suc (recent_count now width ts) else recent_count now width ts

-- A failure that had left the window earlier has left it now.
pub expire-expire :
    (t now width : ℕ) (h rest : List Millis)
    → t ≤ now
    → expire now width (expire t width h ++ rest) ≡ expire now width (h ++ rest)
unfolding expire
expire-expire t now width [] rest le = refl
expire-expire t now width (s ∷ h) rest le = ground (arith, expire-expire t now width h rest le)

expire_young :
    (now width s : ℕ) (ts : List Millis)
    → now - s < width
    → All (λ u. s ≤ u) ts
    → expire now width ts ≡ ts
unfolding expire
expire_young now width s [] young h = refl
expire_young now width s (t ∷ ts) young h = ground arith

trim_long :
    (b : ℕ) (t : Millis) (ts : List Millis) → b < length (t ∷ ts) → trim b (t ∷ ts) ≡ trim b ts
unfolding trim
trim_long b t ts h = ground arith

stays_young :
    (b now width : ℕ) (t : Millis) (ts : List Millis)
    → All (λ s. t ≤ s) ts
    → t ≤ now
    → leb width (now - t) ≡ false
    → expire now width (ts ++ now ∷ []) ≡ ts ++ now ∷ []
stays_young b now width t ts later le young =
    expire_young now width t (ts ++ now ∷ []) (ground arith)
      (All-append (λ s. t ≤ s) ts (now ∷ []) later (le, tt))

still_long :
    (b now : ℕ) (t : Millis) (ts : List Millis)
    → ltb b (length (t ∷ ts)) ≡ true
    → b < length (t ∷ ts ++ now ∷ [])
still_long b now t ts h = omega (arith, ltb→lt _ _ h, length-append ts (now ∷ []))

-- Entries that were dropped because the window was full make no difference later.
pub trim-expire-trim :
    (b now width : ℕ) (h : List Millis)
    → Ascending h
    → All (λ s. s ≤ now) h
    → trim b (expire now width (trim b h ++ now ∷ [])) ≡ trim b (expire now width (h ++ now ∷ []))
unfolding trim expire
trim-expire-trim b now width [] asc le = refl
trim-expire-trim b now width (t ∷ ts) asc le = elim (Bool-cases (ltb b (length (t ∷ ts)))) [
  | inr short ↦ rw (short, trim)
  | inl long ↦ elim (Bool-cases (leb width (now - t))) [
    | inl old ↦ rw (long, old, trim) (trim-expire-trim b now width ts asc.1 le.1)
    | inr young ↦
        rw (long, young, trim)
          (trim-expire-trim b now width ts asc.1 le.1
            ∙ ap (trim b) (stays_young b now width t ts asc.0 le.0 young)
            ∙ sym (trim_long b t (ts ++ now ∷ []) (still_long b now t ts long)))
  ]
]

pub Ascending-append :
    (h : List Millis) (now : Millis)
    → Ascending h
    → All (λ s. s ≤ now) h
    → Ascending (h ++ now ∷ [])
Ascending-append [] now asc le = (tt, tt)
Ascending-append (t ∷ h) now asc le =
    (All-append (λ s. t ≤ s) h (now ∷ []) asc.0 (le.0, tt), Ascending-append h now asc.1 le.1)

recent_count_young :
    (now width s : ℕ) (ts : List Millis)
    → now - s < width
    → All (λ u. s ≤ u) ts
    → recent_count now width ts ≡ length ts
unfolding recent_count
recent_count_young now width s [] young h = refl
recent_count_young now width s (t ∷ ts) young h =
    ground (arith, recent_count_young now width s ts young h.1)

-- On a history in order the loop that stops at the first young entry drops every old one.
pub length-expire :
    (now width : ℕ) (h : List Millis)
    → Ascending h
    → length (expire now width h) ≡ recent_count now width h
unfolding expire recent_count
length-expire now width [] asc = refl
length-expire now width (t ∷ ts) asc =
    ground (arith, length-expire now width ts asc.1, recent_count_young now width t ts)

pub Ascending-front :
    (h : List Millis) (t : Millis) (ts : List Millis)
    → Ascending (h ++ t ∷ ts)
    → Ascending h × All (λ s. s ≤ t) h
Ascending-front [] t ts asc = (tt, tt)
Ascending-front (s ∷ h) t ts asc =
    let (front, le) = Ascending-front h t ts asc.1 in
    ((All-front (λ u. s ≤ u) h (t ∷ ts) asc.0, front), (All-mid (λ u. s ≤ u) h t ts asc.0, le))
