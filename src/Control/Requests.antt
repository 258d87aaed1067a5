-- ===== src/Control/Requests.antt =====
-- crates/rinit-core/src/control.rs: the requests, and their bodies.
use rinit.Prelude.{
  ℕ, Option, none, some, [], ◌∷◌, ◌++◌, ◌==◌, if◌then◌else◌, Result, ok, err, ◌>>=◌,
}
use rinit.Unit.Name.{UnitName}
use rinit.Control.Codes.{
  StatusFormat, status_format_byte, status_format_from_byte, ListFormat, list_format_byte,
  list_format_from_byte, Command, command_byte, command_from_byte, ProtocolError, wrong_version,
  unknown_code, trailing_bytes,
}
use rinit.Control.Wire.{
  protocol_version, Bytes, le16, le32, put_unit, put_opt_unit, Decoder, Reads, decoder, pure, fail,
  bind, is_empty, u8, u16, u32, read_unit, read_opt_unit,
}

pub data Request : Type 0 where
  list : Request
  list_formatted : ListFormat → Request
  status : Option UnitName → ℕ → Request
  status_formatted : Option UnitName → ℕ → StatusFormat → Request
  start stop restart reset_failed : UnitName → Request
  log : Option UnitName → ℕ → Request
  reload reboot poweroff : Request

unfoldable pub command : Request → Command
command list = Command.list
command (list_formatted _) = Command.list_formatted
command (status _ _) = Command.status
command (status_formatted _ _ _) = Command.status_formatted
command (start _) = Command.start
command (stop _) = Command.stop
command (restart _) = Command.restart
command (reset_failed _) = Command.reset_failed
command (log _ _) = Command.log
command reload = Command.reload
command reboot = Command.reboot
command poweroff = Command.poweroff

-- What follows the command byte.
unfoldable pub fields : Request → Bytes
unfolding put_unit put_opt_unit list_format_byte status_format_byte
fields list = []
fields (list_formatted format) = list_format_byte format ∷ []
fields (status unit tail) = put_opt_unit unit ++ le32 tail
fields (status_formatted unit tail format) =
    put_opt_unit unit ++ (le32 tail ++ status_format_byte format ∷ [])
fields (start unit) = put_unit unit
fields (stop unit) = put_unit unit
fields (restart unit) = put_unit unit
fields (reset_failed unit) = put_unit unit
fields (log unit tail) = put_opt_unit unit ++ le32 tail
fields reload = []
fields reboot = []
fields poweroff = []

unfoldable pub encode_request : Request → Bytes
unfolding fields command command_byte
encode_request r = le16 protocol_version ++ command_byte (command r) ∷ fields r

-- A code, or the error that names its byte.
unfoldable pub known : {A : Type 0} → Option A → ℕ → Reads A
known none byte = fail (unknown_code byte)
known (some a) byte = pure a

unfoldable pub read_list_format : Reads ListFormat
unfolding known u8 list_format_from_byte
read_list_format = bind u8 λ byte. known (list_format_from_byte byte) byte

unfoldable pub read_status_format : Reads StatusFormat
unfolding known u8 status_format_from_byte
read_status_format = bind u8 λ byte. known (status_format_from_byte byte) byte

unfoldable pub read_command : Reads Command
unfolding known u8 command_from_byte
read_command = bind u8 λ byte. known (command_from_byte byte) byte

-- The match on the command.
unfoldable pub read_fields : Command → Reads Request
unfolding read_list_format read_status_format read_opt_unit read_unit u32
read_fields Command.list = pure list
read_fields Command.list_formatted = bind read_list_format λ f. pure (list_formatted f)
read_fields Command.status = bind read_opt_unit λ unit. bind u32 λ tail. pure (status unit tail)
read_fields Command.status_formatted =
    bind read_opt_unit
      λ unit. bind u32 λ tail. bind read_status_format λ f. pure (status_formatted unit tail f)
read_fields Command.start = bind read_unit λ n. pure (start n)
read_fields Command.stop = bind read_unit λ n. pure (stop n)
read_fields Command.restart = bind read_unit λ n. pure (restart n)
read_fields Command.reset_failed = bind read_unit λ n. pure (reset_failed n)
read_fields Command.log = bind read_opt_unit λ unit. bind u32 λ tail. pure (log unit tail)
read_fields Command.reload = pure reload
read_fields Command.reboot = pure reboot
read_fields Command.poweroff = pure poweroff

unfoldable pub check_version : ℕ → Reads (Unit {0})
check_version version =
    if version == protocol_version then pure tt else fail (wrong_version version protocol_version)

-- The reader at the end of a body, or the error for what is left.
unfoldable pub at_end : Request × Decoder → Result ProtocolError Request
unfolding is_empty
at_end (r, d) = if is_empty d then ok r else err trailing_bytes

unfoldable pub read_request : Reads Request
unfolding u16 check_version read_command read_fields
read_request =
    bind u16 λ version. bind (check_version version) λ _. bind read_command λ c. read_fields c

unfoldable pub decode_request : Bytes → Result ProtocolError Request
unfolding read_request at_end
decode_request body = read_request (decoder body) >>= at_end
