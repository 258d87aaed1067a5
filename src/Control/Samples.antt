-- ===== src/Control/Samples.antt =====
-- crates/rinit-core/src/control.rs: the theorems on the protocol at concrete messages.
use rinit.Prelude.{
  ℕ, zero, suc, ◌≤◌, ◌≡◌, refl, some, [], ◌∷◌, ◌++◌, arith, length, take, codes, ok, err,
}
use rinit.Prelude.Slices.{all}
use rinit.Prelude.Utf8.{from_utf8}
use rinit.Unit.Name.{UnitName, service, suffix, is_name_char}
use rinit.Unit.Name.Canonical.{IsCanonical}
use rinit.Control.Codes.{Status, status_byte, trailing_bytes}
use rinit.Control.Wire.{max_frame_bytes, Bytes, put_unit, put_opt_unit}
use rinit.Control.Requests.{log, fields, encode_request, decode_request}
use rinit.Control.Responses.{marker, encode_response, decode_response}
use rinit.Control.RoundTrip.{decode-encode_request}
use rinit.Control.Replies.{
  LongestCut, length-encode_response, encode_response_cut, decode-encode_response, Framed,
  frame_len-frame,
}

abbrev cron : UnitName
cron = record { canonical = codes "cron.service"; ty = service }

cron-IsCanonical : IsCanonical cron
unfolding all is_name_char suffix
cron-IsCanonical = record {
  chars = refl;
  bounded = omega arith;
  body = codes "cron";
  body_nonempty = λ e. cc;
  shape = refl;
}

-- A request for the log, with two bytes too many behind it.
decode-encode_request_example :
    decode_request (encode_request (log (some cron) 300) ++ 7 ∷ 7 ∷ []) ≡ err trailing_bytes
unfolding encode_request fields put_opt_unit put_unit
decode-encode_request_example =
    decode-encode_request (log (some cron) 300) (7 ∷ 7 ∷ []) (cron-IsCanonical, omega arith)
      (omega arith)

length-encode_response_example : length (encode_response Status.ok (codes "done")) ≤ max_frame_bytes
length-encode_response_example = length-encode_response Status.ok (codes "done")

decode-encode_response_example :
    decode_response (encode_response Status.conflict (codes "busy"))
    ≡ ok (Status.conflict, codes "busy")
unfolding from_utf8
decode-encode_response_example =
    decode-encode_response Status.conflict (codes "busy") (codes "busy") (omega arith) refl

-- A text of so many letters.
letters : ℕ → Bytes
letters zero = []
letters (suc n) = b'a' ∷ letters n

length-letters : (n : ℕ) → length (letters n) ≡ n
unfolding letters
length-letters zero = refl
length-letters (suc n) = omega (arith, length-letters n)

encode_response_cut_example :
    (end : ℕ) × (encode_response Status.ok (letters 600000)
      ≡ status_byte Status.ok ∷ (take end (letters 600000) ++ marker))
    × LongestCut (letters 600000) end
encode_response_cut_example =
    encode_response_cut Status.ok (letters 600000) (omega (arith, length-letters 600000))

frame_len-frame_example : Framed (codes "ping") (ok 4)
frame_len-frame_example = frame_len-frame (codes "ping") (omega arith)
