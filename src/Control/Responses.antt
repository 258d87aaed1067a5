-- ===== src/Control/Responses.antt =====
-- crates/rinit-core/src/control.rs: the bodies of the replies. A text is its UTF-8 bytes.
use rinit.Prelude.{
  ℕ, zero, suc, ◌-◌, min, Bool, true, ◌||◌, Option, none, some, [], ◌∷◌, ◌++◌, ltb, leb, ◌==◌,
  if◌then◌else◌, length, take, drop, Text, codes, Result, ok, err,
}
use rinit.Prelude.Utf8.{from_utf8}
use rinit.Control.Codes.{
  Status, status_byte, status_from_byte, ProtocolError, too_short, unknown_code, bad_text,
}
use rinit.Control.Wire.{max_frame_bytes, Bytes}

abbrev pub marker : Bytes
marker = codes "\n[truncated: control response exceeds the frame limit]"

abbrev pub max_text : ℕ
max_text = max_frame_bytes - 1

-- Not 0b10xxxxxx, the byte inside a sequence.
abbrev pub starts : ℕ → Bool
starts b = ltb b 128 || leb 192 b

boundary_in : Bytes → Bool
boundary_in [] = true
boundary_in (b ∷ _) = starts b

-- str::is_char_boundary, for an index within the text.
unfoldable pub is_char_boundary : Bytes → ℕ → Bool
unfolding boundary_in
is_char_boundary text i = i == 0 || boundary_in (drop i text)

-- `while end > 0 && !is_char_boundary(end) { end -= 1 }`.
unfoldable pub back_up : Bytes → ℕ → ℕ
unfolding is_char_boundary
back_up text zero = 0
back_up text (suc end) =
    let lower = back_up text end in if is_char_boundary text (suc end) then suc end else lower

unfoldable pub encode_response : Status → Bytes → Bytes
unfolding back_up status_byte
encode_response status text =
    if leb (length text) max_text
    then status_byte status ∷ text
    else let keep = max_text - length marker in
      let end = back_up text (min (length text) keep) in
      status_byte status ∷ (take end text ++ marker)

unfoldable pub read_status : Option Status → ℕ → Bytes → Result ProtocolError (Status × Text)
read_status none byte text = err (unknown_code byte)
read_status (some status) byte text = elim (from_utf8 text) [
  | none ↦ err bad_text
  | some s ↦ ok (status, s)
]

unfoldable pub decode_response : Bytes → Result ProtocolError (Status × Text)
unfolding read_status
decode_response [] = err too_short
decode_response (byte ∷ text) = read_status (status_from_byte byte) byte text
