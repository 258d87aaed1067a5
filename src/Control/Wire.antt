-- ===== src/Control/Wire.antt =====
-- crates/rinit-core/src/control.rs: little-endian words, unit names on the wire, the reader of a
-- body, and the frames.
use rinit.Prelude.{
  ℕ, ◌+◌, ◌*◌, ◌/◌, ◌%◌, Bool, ◌||◌, Option, none, some, List, [], ◌∷◌, ◌++◌, ltb, leb, ◌==◌,
  if◌then◌else◌, length, take, drop, Text, Result, ok, err, ◌>>=◌,
}
use rinit.Prelude.Word.{u32_mod, u64_max}
use rinit.Prelude.Utf8.{from_utf8}
use rinit.Unit.Name.{UnitName, NameError, max_unit_name_bytes}
use rinit.Unit.Name as Name
use rinit.Control.Codes.{ProtocolError, too_short, too_long, bad_unit_name, bad_text}

abbrev pub protocol_version : ℕ
protocol_version = 2

abbrev pub max_frame_bytes : ℕ
max_frame_bytes = 512 * 1024

abbrev pub Bytes : Type 0
Bytes = List ℕ

-- to_le_bytes of u16 and u32, and from_le_bytes.
abbrev pub le16 : ℕ → Bytes
le16 n = n % 256 ∷ n / 256 % 256 ∷ []

abbrev pub le32 : ℕ → Bytes
le32 n = n % 256 ∷ n / 256 % 256 ∷ n / 65536 % 256 ∷ n / 16777216 % 256 ∷ []

abbrev pub from_le16 : ℕ → ℕ → ℕ
from_le16 a b = a + 256 * b

abbrev pub from_le32 : ℕ → ℕ → ℕ → ℕ → ℕ
from_le32 a b c d = a + 256 * b + 65536 * c + 16777216 * d

unfoldable pub frame : Bytes → Bytes
frame body = le32 (length body % u32_mod) ++ body

-- On the four bytes of the prefix.
unfoldable pub frame_len : ℕ → ℕ → ℕ → ℕ → Result ProtocolError ℕ
frame_len a b c d =
    let declared = from_le32 a b c d in
    if ltb max_frame_bytes declared then err (too_long declared) else ok declared

-- The name's characters are ASCII, and so its bytes.
unfoldable pub put_unit : UnitName → Bytes
put_unit unit = (length unit.canonical % 256) ∷ unit.canonical

unfoldable pub put_opt_unit : Option UnitName → Bytes
unfolding put_unit
put_opt_unit (some unit) = 1 ∷ put_unit unit
put_opt_unit none = 0 ∷ []

pub record Decoder : Type 0 where
  pub bytes : Bytes
  pub pos : ℕ

-- An operation on the reader.
abbrev pub Reads : Type 0 → Type 0
Reads A = Decoder → Result ProtocolError (A × Decoder)

abbrev pub decoder : Bytes → Decoder
decoder bytes = record { bytes = bytes; pos = 0 }

abbrev pub pure : {A : Type 0} → A → Reads A
pure a d = ok (a, d)

abbrev pub fail : {A : Type 0} → ProtocolError → Reads A
fail e d = err e

abbrev pub bind : {A B : Type 0} → Reads A → (A → Reads B) → Reads B
bind m f d = m d >>= λ (a, d'). f a d'

unfoldable pub is_empty : Decoder → Bool
is_empty d = d.pos == length d.bytes

unfoldable pub take_bytes : ℕ → Reads Bytes
take_bytes count d =
    let end = d.pos + count in
    if ltb u64_max end
    then err too_short
    else if leb end (length d.bytes)
    then ok (take count (drop d.pos d.bytes), record d { pos = end })
    else err too_short

unfoldable pub first : Bytes → Reads ℕ
first [] = fail too_short
first (b ∷ _) = pure b

unfoldable pub word16 : Bytes → Reads ℕ
word16 (a ∷ b ∷ []) = pure (from_le16 a b)
word16 _ = fail too_short

unfoldable pub word32 : Bytes → Reads ℕ
word32 (a ∷ b ∷ c ∷ d ∷ []) = pure (from_le32 a b c d)
word32 _ = fail too_short

unfoldable pub u8 : Reads ℕ
unfolding first take_bytes
u8 = bind (take_bytes 1) first

unfoldable pub u16 : Reads ℕ
unfolding word16 take_bytes
u16 = bind (take_bytes 2) word16

unfoldable pub u32 : Reads ℕ
unfolding word32 take_bytes
u32 = bind (take_bytes 4) word32

unfoldable pub parsed : Result NameError UnitName → Reads UnitName
parsed (ok n) = pure n
parsed (err _) = fail bad_unit_name

unfoldable pub named : Option Text → Reads UnitName
unfolding parsed
named none = fail bad_text
named (some text) = parsed (Name.parse text)

unfoldable pub read_unit : Reads UnitName
unfolding u8 take_bytes named
read_unit = bind u8 λ len.
    if len == 0 || ltb max_unit_name_bytes len
    then fail bad_unit_name
    else bind (take_bytes len) (λ bytes. named (from_utf8 bytes))

unfoldable pub read_opt_unit : Reads (Option UnitName)
unfolding u8 read_unit
read_opt_unit = bind u8 λ tag.
    if tag == 0
    then pure none
    else if tag == 1
    then bind read_unit (λ n. pure (some n))
    else fail bad_unit_name
