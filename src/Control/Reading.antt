-- ===== src/Control/Reading.antt =====
-- crates/rinit-core/src/control.rs: the reads of the decoder.
use rinit.Prelude.{
  ℕ, zero, suc, ◌+◌, ◌-◌, ◌*◌, ◌/◌, ◌%◌, ◌≤◌, ◌<◌, ◌≡◌, refl, sym, ap, ◌∙◌, true, false, ◌||◌,
  Option, none, some, [], ◌∷◌, ◌++◌, arith, ltb, ◌==◌, if◌then◌else◌, length, take, drop,
  length-append, length-drop, take-append, drop-append, All, Text, ok,
}
use mathlib.Core.Path.{subst}
use mathlib.Core.List.{append_assoc}
use rinit.Prelude.Word.{u32_mod, u64_max}
use rinit.Prelude.Utf8.{from_utf8, from_utf8_ascii}
use rinit.Prelude.Slices.{all}
use rinit.Unit.Name.{UnitName, UnitType, service, target, suffix, is_name_char, max_unit_name_bytes}
use rinit.Unit.Name.Canonical.{IsCanonical, parse_canonical}
use rinit.Control.Codes.{
  StatusFormat, status_format_byte, status_format_from_byte, ListFormat, list_format_byte,
  list_format_from_byte, Command, command_byte, command_from_byte, bad_unit_name,
  status_format_from_byte-status_format_byte, list_format_from_byte-list_format_byte,
  command_from_byte-command_byte,
}
use rinit.Control.Wire.{
  Bytes, le16, le32, put_unit, put_opt_unit, Decoder, Reads, pure, fail, bind, take_bytes, u8, u16,
  u32, read_unit, read_opt_unit, first, word16, word32, named,
}
use rinit.Control.Requests.{known, read_list_format, read_status_format, read_command}

-- The reader has these bytes before it, and a body that can be addressed.
pub record At (d : Decoder) (rest : Bytes) : Type 0 where
  pub ahead : drop d.pos d.bytes ≡ rest
  pub inside : d.pos ≤ length d.bytes
  pub small : length d.bytes ≤ u64_max

-- A read that answers `a`, having passed over `bytes`, whatever follows them.
abbrev pub Yields : {A : Type 0} → Reads A → Bytes → A → Type 0
Yields {A} m bytes a =
    (d : Decoder) (rest : Bytes)
    → At d (bytes ++ rest)
    → (d' : Decoder) × (m d ≡ ok (a, d')) × At d' rest

drop_nil : (n : ℕ) → drop {A = ℕ} n [] ≡ []
drop_nil zero = refl
drop_nil (suc n) = refl

drop-drop : (m n : ℕ) (bs : Bytes) → drop (m + n) bs ≡ drop n (drop m bs)
drop-drop zero n bs = ap (λ k. drop k bs) (omega arith)
drop-drop (suc m) n [] = drop_nil (suc m + n) ∙ sym (drop_nil n)
drop-drop (suc m) n (b ∷ bs) =
    ap (λ k. drop k (b ∷ bs)) (let e : suc m + n ≡ suc (m + n) = omega arith in e)
    ∙ drop-drop m n bs

take_bytes-Yields : (xs : Bytes) → Yields (take_bytes (length xs)) xs xs
unfolding take_bytes
take_bytes-Yields xs d rest h =
    let n = length xs in
    let size : length d.bytes - d.pos ≡ n + length rest =
      sym (length-drop d.pos d.bytes) ∙ ap length h.ahead ∙ length-append xs rest in
    let fits : d.pos + n ≤ length d.bytes = omega (arith, h.inside) in
    let d' = record d { pos = d.pos + n } in
    let taken : take n (drop d.pos d.bytes) ≡ xs = rw h.ahead (take-append xs rest) in
    (
      d',
      ground (arith, h.small),
      record {
        ahead = drop-drop d.pos n d.bytes ∙ ap (drop n) h.ahead ∙ drop-append xs rest;
        inside = fits;
        small = h.small;
      },
    )

module _ {A B : Type 0} where
  pub Yields-bind :
      (m : Reads A) (f : A → Reads B) (bs cs : Bytes) (a : A) (b : B)
      → Yields m bs a
      → Yields (f a) cs b
      → Yields (bind m f) (bs ++ cs) b
  Yields-bind m f bs cs a b hm hf d rest at =
      let (d', e, at') = hm d (cs ++ rest) (subst (At d) (append_assoc bs cs rest) at) in
      let (d'', e', at'') = hf d' rest at' in (d'', rw e e', at'')

  -- The same where nothing more is read.
  pub Yields-map :
      (m : Reads A) (f : A → Reads B) (bs : Bytes) (a : A) (b : B)
      → Yields m bs a
      → ((d : Decoder) → f a d ≡ ok (b, d))
      → Yields (bind m f) bs b
  Yields-map m f bs a b hm hf d rest at = let (d', e, at') = hm d rest at in (d', rw e (hf d'), at')

u8-Yields : (b : ℕ) → Yields u8 (b ∷ []) b
unfolding u8
u8-Yields b =
    Yields-map (take_bytes 1) first (b ∷ []) (b ∷ []) b (take_bytes-Yields (b ∷ [])) (λ d. refl)

pub u16-Yields : (n : ℕ) → n < 65536 → Yields u16 (le16 n) n
unfolding u16
u16-Yields n h =
    Yields-map (take_bytes 2) word16 (le16 n) (le16 n) n (take_bytes-Yields (le16 n))
      (λ d. let e : n % 256 + 256 * (n / 256 % 256) ≡ n = omega arith in ap (λ k. ok (k, d)) e)

pub u32-Yields : (n : ℕ) → n < u32_mod → Yields u32 (le32 n) n
unfolding u32
u32-Yields n h =
    Yields-map (take_bytes 4) word32 (le32 n) (le32 n) n (take_bytes-Yields (le32 n)) (λ d.
      let e : n % 256
            + 256 * (n / 256 % 256)
            + 65536 * (n / 65536 % 256)
            + 16777216 * (n / 16777216 % 256)
          ≡ n =
        omega arith in
      ap (λ k. ok (k, d)) e)

name_char_ascii : (c : ℕ) → is_name_char c ≡ true → c < 128
unfolding is_name_char
name_char_ascii c h = ground arith

name_ascii : (s : Text) → all is_name_char s ≡ true → All (λ c. c < 128) s
unfolding all
name_ascii [] h = tt
name_ascii (c ∷ s) h = (name_char_ascii c (ground arith), name_ascii s (ground arith))

named_canonical :
    (n : UnitName) → IsCanonical n → (d : Decoder) → named (from_utf8 n.canonical) d ≡ ok (n, d)
unfolding named
named_canonical n c d =
    rw (from_utf8_ascii n.canonical (name_ascii n.canonical c.chars), parse_canonical n c)

suffix-length : (n : UnitName) → 0 < length (suffix n.ty)
unfolding suffix
suffix-length n = go n.ty
  where
    go : (ty : UnitType) → 0 < length (suffix ty)
    go service = omega arith
    go target = omega arith

name_length : (n : UnitName) → IsCanonical n → 0 < length n.canonical
name_length n c =
    omega (arith, ap length c.shape, length-append c.body (suffix n.ty), suffix-length n)

-- The name behind its length.
after_length : (n : ℕ) → Reads UnitName
after_length len =
    if len == 0 || ltb max_unit_name_bytes len
    then fail bad_unit_name
    else bind (take_bytes len) (λ bytes. named (from_utf8 bytes))

after_length-Yields :
    (n : UnitName) → IsCanonical n → Yields (after_length (length n.canonical)) n.canonical n
unfolding after_length
after_length-Yields n c =
    let fits : (length n.canonical == 0 || ltb max_unit_name_bytes (length n.canonical)) ≡ false =
      ground (arith, name_length n c, c.bounded) in
    rw fits (
      Yields-map (take_bytes (length n.canonical)) (λ bytes. named (from_utf8 bytes)) n.canonical
        n.canonical n (take_bytes-Yields n.canonical) (named_canonical n c))

pub read_unit-Yields : (n : UnitName) → IsCanonical n → Yields read_unit (put_unit n) n
unfolding read_unit put_unit after_length
read_unit-Yields n c =
    let whole : length n.canonical % 256 ≡ length n.canonical = omega (arith, c.bounded) in
    rw whole (
      Yields-bind u8 after_length (length n.canonical ∷ []) n.canonical (length n.canonical) n
        (u8-Yields (length n.canonical)) (after_length-Yields n c))

-- The unit that a request may name.
abbrev pub IsOptCanonical : Option UnitName → Type 0
IsOptCanonical none = Unit
IsOptCanonical (some n) = IsCanonical n

after_tag : ℕ → Reads (Option UnitName)
after_tag tag =
    if tag == 0
    then pure none
    else if tag == 1
    then bind read_unit (λ n. pure (some n))
    else fail bad_unit_name

pub read_opt_unit-Yields :
    (o : Option UnitName) → IsOptCanonical o → Yields read_opt_unit (put_opt_unit o) o
unfolding read_opt_unit put_opt_unit after_tag
read_opt_unit-Yields none c = Yields-map u8 after_tag (0 ∷ []) 0 none (u8-Yields 0) (λ d. refl)
read_opt_unit-Yields (some n) c =
    Yields-bind u8 after_tag (1 ∷ []) (put_unit n) 1 (some n) (u8-Yields 1) (
      Yields-map read_unit (λ m. pure (some m)) (put_unit n) n (some n) (read_unit-Yields n c)
        (λ d. refl))

pub list_format-Yields : (f : ListFormat) → Yields read_list_format (list_format_byte f ∷ []) f
unfolding read_list_format known
list_format-Yields f =
    Yields-map u8 (λ b. known (list_format_from_byte b) b) (list_format_byte f ∷ [])
      (list_format_byte f) f (u8-Yields (list_format_byte f))
      (λ d. rw (list_format_from_byte-list_format_byte f))

pub status_format-Yields :
    (f : StatusFormat) → Yields read_status_format (status_format_byte f ∷ []) f
unfolding read_status_format known
status_format-Yields f =
    Yields-map u8 (λ b. known (status_format_from_byte b) b) (status_format_byte f ∷ [])
      (status_format_byte f) f (u8-Yields (status_format_byte f))
      (λ d. rw (status_format_from_byte-status_format_byte f))

pub command-Yields : (c : Command) → Yields read_command (command_byte c ∷ []) c
unfolding read_command known
command-Yields c =
    Yields-map u8 (λ b. known (command_from_byte b) b) (command_byte c ∷ []) (command_byte c) c
      (u8-Yields (command_byte c)) (λ d. rw (command_from_byte-command_byte c))
