-- ===== src/Control/Replies.antt =====
-- crates/rinit-core/src/control.rs: the size of a reply, its decoding, and the frames.
use rinit.Prelude.{
  ℕ, zero, suc, ◌+◌, ◌-◌, ◌/◌, ◌%◌, ◌≤◌, ◌<◌, min, ◌≡◌, refl, inl, inr, true, some, [], ◌∷◌, ◌++◌,
  arith, ltb, if◌then◌else◌, Bool-cases, length, take, length-append, Text, Result, ok, err,
}
use rinit.Prelude.Word.{u32_mod}
use rinit.Prelude.Utf8.{from_utf8}
use rinit.Control.Codes.{Status, status_byte, ProtocolError, too_long, status_from_byte-status_byte}
use rinit.Control.Wire.{max_frame_bytes, Bytes, frame, frame_len, from_le32}
use rinit.Control.Responses.{
  marker, max_text, is_char_boundary, back_up, encode_response, read_status, decode_response,
}

back_up_le : (text : Bytes) (n : ℕ) → back_up text n ≤ n
unfolding back_up
back_up_le text zero = omega arith
back_up_le text (suc n) = ground (arith, back_up_le text n)

back_up_boundary : (text : Bytes) (n : ℕ) → is_char_boundary text (back_up text n) ≡ true
unfolding back_up is_char_boundary
back_up_boundary text zero = refl
back_up_boundary text (suc n) = ground (arith, back_up_boundary text n)

-- What is left out starts in the middle of no character, and no longer beginning would do.
back_up_greatest :
    (text : Bytes) (n i : ℕ) → i ≤ n → is_char_boundary text i ≡ true → i ≤ back_up text n
unfolding back_up
back_up_greatest text zero i h b = h
back_up_greatest text (suc n) i h b = elim (Bool-cases (is_char_boundary text (suc n))) [
  | inl yes_it ↦ rw (yes_it, back_up) h
  | inr not_it ↦ rw (not_it, back_up) (back_up_greatest text n i (ground arith) b)
]

length-take_le : (n : ℕ) (bs : Bytes) → length (take n bs) ≤ n
length-take_le zero bs = omega arith
length-take_le (suc n) [] = omega arith
length-take_le (suc n) (b ∷ bs) = omega (arith, length-take_le n bs)

-- The body of a reply fits into a frame, however long its text is.
pub length-encode_response :
    (s : Status) (text : Bytes) → length (encode_response s text) ≤ max_frame_bytes
unfolding encode_response
length-encode_response s text =
    let cut = min (length text) (max_text - length marker) in
    let end = back_up text cut in
    ground
      (arith, back_up_le text cut, length-take_le end text, length-append (take end text) marker)

encode_response_whole :
    (s : Status) (text : Bytes)
    → length text ≤ max_text
    → encode_response s text ≡ status_byte s ∷ text
unfolding encode_response
encode_response_whole s text h = ground arith

-- A cut of a text that leaves room for the marker, ends between two characters, and is the longest.
pub record LongestCut (text : Bytes) (end : ℕ) : Type 0 where
  pub room : end + length marker ≤ max_text
  pub between : is_char_boundary text end ≡ true
  pub longest : (i : ℕ) → i + length marker ≤ max_text → is_char_boundary text i ≡ true → i ≤ end

-- Of a text that does not fit, a reply keeps the longest beginning that leaves room for the marker
-- and ends between two characters, and the marker stands behind it.
pub encode_response_cut :
    (s : Status) (text : Bytes)
    → max_text < length text
    → (end : ℕ) × (encode_response s text ≡ status_byte s ∷ (take end text ++ marker))
      × LongestCut text end
unfolding encode_response
encode_response_cut s text h =
    let cut = min (length text) (max_text - length marker) in
    (
      back_up text cut,
      ground arith,
      record {
        room = omega (arith, back_up_le text cut);
        between = back_up_boundary text cut;
        longest = λ i room b. back_up_greatest text cut i (omega arith) b;
      },
    )

-- A reply whose text is UTF-8 and fits is read back with its status and the characters of the text.
pub decode-encode_response :
    (s : Status) (text : Bytes) (chars : Text)
    → length text ≤ max_text
    → from_utf8 text ≡ some chars
    → decode_response (encode_response s text) ≡ ok (s, chars)
unfolding decode_response read_status
decode-encode_response s text chars fits utf8 =
    rw (encode_response_whole s text fits, status_from_byte-status_byte s, utf8, read_status)

-- The four bytes in front of a frame's body.
pub record Framed (body : Bytes) (answer : Result ProtocolError ℕ) : Type 0 where
  pub b0 : ℕ
  pub b1 : ℕ
  pub b2 : ℕ
  pub b3 : ℕ
  pub shape : frame body ≡ b0 ∷ b1 ∷ b2 ∷ b3 ∷ body
  pub length_read : frame_len b0 b1 b2 b3 ≡ answer

-- The prefix of a frame is read back as the length of its body if that is at most the limit, and
-- is refused with the length it declares if it is longer and still a u32.
pub frame_len-frame :
    (body : Bytes)
    → length body < u32_mod
    → Framed body (
        if ltb max_frame_bytes (length body)
        then err (too_long (length body))
        else ok (length body))
unfolding frame frame_len
frame_len-frame body h =
    let n = length body in
    let same : n % u32_mod ≡ n = omega arith in
    let whole : from_le32 (n % 256) (n / 256 % 256) (n / 65536 % 256) (n / 16777216 % 256) ≡ n =
      omega arith in
    record {
      b0 = n % 256;
      b1 = n / 256 % 256;
      b2 = n / 65536 % 256;
      b3 = n / 16777216 % 256;
      shape = rw same;
      length_read = rw whole;
    }
