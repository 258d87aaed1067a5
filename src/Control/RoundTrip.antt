-- ===== src/Control/RoundTrip.antt =====
-- crates/rinit-core/src/control.rs: decoding an encoded request.
use rinit.Prelude.{
  ℕ, ◌-◌, ◌≤◌, ◌<◌, ◌≡◌, refl, sym, ap, ◌∙◌, Option, [], ◌∷◌, ◌++◌, arith, ◌==◌, if◌then◌else◌,
  length, length-drop, ok, err,
}
use rinit.Prelude.Word.{u32_mod, u64_max}
use rinit.Unit.Name.{UnitName}
use rinit.Unit.Name.Canonical.{IsCanonical}
use rinit.Control.Codes.{status_format_byte, list_format_byte, command_byte, trailing_bytes}
use rinit.Control.Wire.{
  protocol_version, Bytes, le16, le32, put_unit, put_opt_unit, Decoder, decoder, pure, bind,
  is_empty, u16, u32, read_unit, read_opt_unit,
}
use rinit.Control.Requests.{
  Request, list, list_formatted, status, status_formatted, start, stop, restart, reset_failed, log,
  reload, reboot, poweroff, command, fields, encode_request, read_list_format, read_status_format,
  read_command, read_fields, check_version, at_end, read_request, decode_request,
}
use rinit.Control.Reading.{
  Yields-bind, Yields-map, u16-Yields, u32-Yields, read_unit-Yields, read_opt_unit-Yields,
  list_format-Yields, status_format-Yields, command-Yields, At, Yields, IsOptCanonical,
}

-- A request whose names are canonical and whose count is a u32.
abbrev pub IsSendable : Request → Type 0
IsSendable (status unit tail) = IsOptCanonical unit × (tail < u32_mod)
IsSendable (status_formatted unit tail _) = IsOptCanonical unit × (tail < u32_mod)
IsSendable (log unit tail) = IsOptCanonical unit × (tail < u32_mod)
IsSendable (start n) = IsCanonical n
IsSendable (stop n) = IsCanonical n
IsSendable (restart n) = IsCanonical n
IsSendable (reset_failed n) = IsCanonical n
IsSendable _ = Unit

counted-Yields :
    (o : Option UnitName) (tail : ℕ) (make : Option UnitName → ℕ → Request)
    → IsOptCanonical o
    → tail < u32_mod
    → Yields
        (bind read_opt_unit λ u. bind u32 λ t. pure (make u t))
        (put_opt_unit o ++ le32 tail)
        (make o tail)
counted-Yields o tail make c h =
    Yields-bind read_opt_unit (λ u. bind u32 λ t. pure (make u t)) (put_opt_unit o) (le32 tail) o
      (make o tail) (read_opt_unit-Yields o c)
      (Yields-map u32 (λ t. pure (make o t)) (le32 tail) tail (make o tail) (u32-Yields tail h)
        (λ d. refl))

single-Yields :
    (n : UnitName) (make : UnitName → Request)
    → IsCanonical n
    → Yields (bind read_unit λ u. pure (make u)) (put_unit n) (make n)
single-Yields n make c =
    Yields-map read_unit (λ u. pure (make u)) (put_unit n) n (make n) (read_unit-Yields n c)
      (λ d. refl)

nothing-Yields : (r : Request) → Yields (pure r) [] r
nothing-Yields r d rest h = (d, refl, h)

fields-Yields : (r : Request) → IsSendable r → Yields (read_fields (command r)) (fields r) r
unfolding read_fields command fields
fields-Yields list s = nothing-Yields list
fields-Yields (list_formatted f) s =
    Yields-map read_list_format (λ g. pure (list_formatted g)) (list_format_byte f ∷ []) f
      (list_formatted f) (list_format-Yields f) (λ d. refl)
fields-Yields (status u t) s = counted-Yields u t status s.0 s.1
fields-Yields (status_formatted u t f) s =
    Yields-bind read_opt_unit
      (λ v. bind u32 λ k. bind read_status_format λ g. pure (status_formatted v k g))
      (put_opt_unit u) (le32 t ++ status_format_byte f ∷ []) u (status_formatted u t f)
      (read_opt_unit-Yields u s.0)
      (Yields-bind u32 (λ k. bind read_status_format λ g. pure (status_formatted u k g)) (le32 t)
        (status_format_byte f ∷ []) t (status_formatted u t f) (u32-Yields t s.1)
        (Yields-map read_status_format (λ g. pure (status_formatted u t g))
          (status_format_byte f ∷ []) f (status_formatted u t f) (status_format-Yields f)
          (λ d. refl)))
fields-Yields (start n) s = single-Yields n start s
fields-Yields (stop n) s = single-Yields n stop s
fields-Yields (restart n) s = single-Yields n restart s
fields-Yields (reset_failed n) s = single-Yields n reset_failed s
fields-Yields (log u t) s = counted-Yields u t log s.0 s.1
fields-Yields reload s = nothing-Yields reload
fields-Yields reboot s = nothing-Yields reboot
fields-Yields poweroff s = nothing-Yields poweroff

request-Yields : (r : Request) → IsSendable r → Yields read_request (encode_request r) r
unfolding read_request encode_request check_version
request-Yields r s =
    Yields-bind u16 (λ v. bind (check_version v) λ _. bind read_command λ c. read_fields c)
      (le16 protocol_version) (command_byte (command r) ∷ fields r) protocol_version r
      (u16-Yields protocol_version (omega arith))
      (Yields-bind read_command read_fields (command_byte (command r) ∷ []) (fields r) (command r) r
        (command-Yields (command r)) (fields-Yields r s))

is_empty-At : (d : Decoder) (rest : Bytes) → At d rest → is_empty d ≡ (length rest == 0)
unfolding is_empty
is_empty-At d rest h =
    let size : length d.bytes - d.pos ≡ length rest =
      sym (length-drop d.pos d.bytes) ∙ ap length h.ahead in
    ground (arith, h.inside)

-- A body whose length fits a machine word and that starts with the encoding of a request, whose
-- names are canonical and whose count is a u32, is decoded to that request if nothing follows, and
-- is refused for its trailing bytes if anything does. So no encoding is the beginning of another.
pub decode-encode_request :
    (r : Request) (rest : Bytes)
    → IsSendable r
    → length (encode_request r ++ rest) ≤ u64_max
    → decode_request (encode_request r ++ rest)
      ≡ (if length rest == 0 then ok r else err trailing_bytes)
unfolding decode_request at_end
decode-encode_request r rest s small =
    let start_at : At (decoder (encode_request r ++ rest)) (encode_request r ++ rest) = record {
      ahead = refl;
      inside = omega arith;
      small = small;
    } in
    let (d, e, at) = request-Yields r s (decoder (encode_request r ++ rest)) rest start_at in
    rw (e, is_empty-At d rest at) refl
