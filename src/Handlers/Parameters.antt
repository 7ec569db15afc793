-- ===== src/Handlers/Parameters.antt =====
-- server/src/handler.c: the handlers that set the parameters of transfers.
use simple_ftp.Base.{
  ℕ, ◌+◌, ◌-◌, ◌*◌, ◌^◌, Bool, true, false, not, Option, none, some, [], ◌∷◌, ◌++◌, ltb, ◌==◌,
  if◌then◌else◌,
}
use simple_ftp.CString.{Bytes, codes, isdigit, decimal}
use simple_ftp.CString.Scan.{skip_space}
use simple_ftp.Protocol.Codes.{
  resp_ok, resp_file_action_pending, resp_local_error, resp_syntax_error_param,
  resp_command_not_impl_param,
}
use simple_ftp.Protocol.Types.{
  Command, TransferType, ascii, binary, ebcdic, TransferMode, stream, DataStructure, file_structure,
  PortParams,
}
use simple_ftp.Protocol.Options.{parse_type, parse_mode, parse_stru}
use simple_ftp.Protocol.Address.{parse_port, port_to_address, address_to_pasv, format_pasv_response}
use simple_ftp.Session.State.{set_type, set_mode, set_structure, set_restart_offset}
use simple_ftp.Session.Data.{set_port, set_pasv}
use simple_ftp.Handlers.{
  Platform, M, pure, ◌>>=◌, gets, modify, ask, line_text, send_line, reply, close_data,
  require_auth, require_auth_and_arg, require_no_argument,
}

abbrev pub type_name : TransferType → Bytes
type_name ascii = codes "A"
type_name binary = codes "I"
type_name ebcdic = codes "E"

-- The digits that `strtoll` reads, or none unless they are the rest of the text.
unfoldable pub strtoll_digits : Bool → ℕ → Bytes → Option ℕ
strtoll_digits seen n [] = if seen then some n else none
strtoll_digits seen n (c ∷ s) =
    let more = strtoll_digits true (n * 10 + (c - b'0')) s in if isdigit c then more else none

-- The value saturates at 2 ^ 63 - 1.
abbrev pub saturated : Option ℕ → Option ℕ
saturated none = none
saturated (some n) = some (if ltb n (2 ^ 63) then n else 2 ^ 63 - 1)

-- A negative number is refused, and "-0" is not one.
abbrev pub if_zero : Option ℕ → Option ℕ
if_zero none = none
if_zero (some n) = if n == 0 then some 0 else none

unfoldable pub signed_offset : Bytes → Option ℕ
signed_offset [] = none
signed_offset (c ∷ s) =
    if c == b'-'
    then if_zero (strtoll_digits false 0 s)
    else if c == b'+'
    then saturated (strtoll_digits false 0 s)
    else saturated (strtoll_digits false 0 (c ∷ s))

-- The offset that `cmd_handle_rest` reads with `strtoll` from its argument, which is not empty, or none
-- where it refuses it.
unfoldable pub parse_offset : Bytes → Option ℕ
parse_offset argument = signed_offset (skip_space argument)

module _ {E : Type 0} (sys : Platform E) where
  -- `session_set_port`, which cannot fail here.
  unfoldable pub enter_port : Bytes → ℕ → M E Bool
  enter_port ip port w =
      let (s, closed) = set_port ip port w.session in
      (true, record w { session = s; env = sys.close_sockets closed w.env })

  -- `session_set_pasv` for the ports 20000 to 65535.
  unfoldable pub enter_pasv : M E Bool
  enter_pasv w =
      let (listener, after) = sys.listen w.session.bind_address 20000 65535 w.env in
      let (ok, s, closed) = set_pasv listener w.session in
      (ok, record w { session = s; env = sys.close_sockets closed after })

  -- The end of `cmd_handle_port`, for the address that was read.
  unfoldable pub use_address : Option (Bytes × ℕ) → M E Bool
  use_address none = reply sys resp_syntax_error_param (codes "Invalid PORT address")
  use_address (some (ip, port)) = do
    entered ← enter_port ip port
    if not entered
        then reply sys resp_local_error (codes "Failed to set PORT mode")
        else reply sys resp_ok (codes "PORT command successful")

  unfoldable pub use_port : Option PortParams → M E Bool
  use_port none = reply sys resp_syntax_error_param (codes "Invalid PORT parameters")
  use_port (some params) = use_address (port_to_address params 64)

  -- `cmd_handle_port`
  unfoldable pub handle_port : Command → M E Bool
  handle_port cmd = require_auth_and_arg sys cmd (use_port (parse_port cmd.argument))

  abbrev pub pasv_text : Option PortParams → Option Bytes
  pasv_text none = none
  pasv_text (some params) = format_pasv_response 256 params

  -- The end of `cmd_handle_pasv`, with the line to send or none where it cannot be made.
  unfoldable pub send_pasv : Option Bytes → M E Bool
  send_pasv none = do
    closed ← close_data sys
    reply sys resp_local_error (codes "Failed to format PASV response")
  send_pasv (some line) = do
    sent ← send_line sys line
    if sent then pure true else do closed ← close_data sys; pure false

  unfoldable pub pasv_at : Option Bytes → M E Bool
  pasv_at none = reply sys resp_local_error (codes "Failed to get server address")
  pasv_at (some server_ip) = do
    entered ← enter_pasv
    if not entered then reply sys resp_local_error (codes "Failed to enter passive mode") else do
      port ← gets (λ s. s.passive_port)
      send_pasv (pasv_text (address_to_pasv server_ip port))

  -- `cmd_handle_pasv` after its tests
  unfoldable pub begin_pasv : M E Bool
  begin_pasv = do
    socket ← gets (λ s. s.control_socket)
    address ← ask (sys.get_socket_info socket)
    pasv_at address

  -- `cmd_handle_pasv`
  unfoldable pub handle_pasv : Command → M E Bool
  handle_pasv cmd =
      require_auth sys
        (require_no_argument sys cmd (codes "PASV does not take parameters") begin_pasv)

  unfoldable pub use_type : Option TransferType → M E Bool
  use_type none = reply sys resp_syntax_error_param (codes "Invalid type parameter")
  use_type (some ebcdic) =
      reply sys resp_command_not_impl_param (codes "Type not supported (EBCDIC not supported)")
  use_type (some t) = do
    put ← modify (set_type t)
    reply sys resp_ok (codes "Type set to " ++ (type_name t ++ codes "."))

  -- `cmd_handle_type`
  unfoldable pub handle_type : Command → M E Bool
  handle_type cmd = require_auth_and_arg sys cmd (use_type (parse_type cmd.argument))

  unfoldable pub use_stru : Option DataStructure → M E Bool
  use_stru none = reply sys resp_syntax_error_param (codes "Invalid structure parameter")
  use_stru (some file_structure) = do
    put ← modify (set_structure file_structure)
    reply sys resp_ok (codes "Structure set to File")
  use_stru (some d) =
      reply sys resp_command_not_impl_param (codes "Structure not supported (only File structure)")

  -- `cmd_handle_stru`
  unfoldable pub handle_stru : Command → M E Bool
  handle_stru cmd = require_auth_and_arg sys cmd (use_stru (parse_stru cmd.argument))

  unfoldable pub use_mode : Option TransferMode → M E Bool
  use_mode none = reply sys resp_syntax_error_param (codes "Invalid mode parameter")
  use_mode (some stream) = do
    put ← modify (set_mode stream)
    reply sys resp_ok (codes "Mode set to Stream")
  use_mode (some m) =
      reply sys resp_command_not_impl_param
        (codes "Mode not supported (only Stream mode supported)")

  -- `cmd_handle_mode`
  unfoldable pub handle_mode : Command → M E Bool
  handle_mode cmd = require_auth_and_arg sys cmd (use_mode (parse_mode cmd.argument))

  unfoldable pub use_offset : Option ℕ → M E Bool
  use_offset none = reply sys resp_syntax_error_param (codes "Invalid restart offset")
  use_offset (some offset) = do
    put ← modify (set_restart_offset offset)
    reply sys resp_file_action_pending
        (line_text (codes "Restart position accepted (" ++ (decimal offset ++ codes ")")))

  -- `cmd_handle_rest`
  unfoldable pub handle_rest : Command → M E Bool
  handle_rest cmd = require_auth_and_arg sys cmd (use_offset (parse_offset cmd.argument))
