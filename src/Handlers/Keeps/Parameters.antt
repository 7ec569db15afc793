-- ===== src/Handlers/Keeps/Parameters.antt =====
-- The handlers that set the parameters of transfers keep what the laws allow.
use simple_ftp.Base.{ℕ, refl, Option, none, some}
use simple_ftp.CString.{Bytes}
use simple_ftp.Protocol.Types.{
  Command, TransferType, ascii, binary, ebcdic, TransferMode, stream, block, compressed,
  DataStructure, file_structure, record_structure, page_structure, PortParams,
}
use simple_ftp.Protocol.Options.{parse_type, parse_mode, parse_stru}
use simple_ftp.Protocol.Address.{parse_port, port_to_address}
use simple_ftp.Auth.{Permissions}
use simple_ftp.Session.State.{set_type, set_mode, set_structure, set_restart_offset}
use simple_ftp.Session.Data.{set_port, set_pasv}
use simple_ftp.Handlers.{Platform, World, modify}
use simple_ftp.Handlers.Parameters.{
  parse_offset, enter_port, enter_pasv, use_address, use_port, handle_port, send_pasv, pasv_at,
  begin_pasv, handle_pasv, use_type, handle_type, use_stru, handle_stru, use_mode, handle_mode,
  use_offset, handle_rest,
}
use simple_ftp.Handlers.Keeps.{
  Undisturbed, Keeps, Laws, pure-Keeps, bind-Keeps, if-Keeps, gets-Keeps, ask-Keeps, modify-Keeps,
  send-Keeps, reply-Keeps, close-Keeps, auth-Keeps, no_argument-Keeps, auth_arg-Keeps,
}

module _ {E : Type 0} (sys : Platform E) (P : World E → Type 0) (Ok : Permissions → Bytes → Type 0)
    (laws : Laws sys P Ok) where
  set_type-Keeps : (t : TransferType) → Keeps P (modify (set_type t))
  unfolding set_type
  set_type-Keeps t = modify-Keeps sys P Ok laws (set_type t) (λ s. refl)

  set_mode-Keeps : (m : TransferMode) → Keeps P (modify (set_mode m))
  unfolding set_mode
  set_mode-Keeps m = modify-Keeps sys P Ok laws (set_mode m) (λ s. refl)

  set_structure-Keeps : (d : DataStructure) → Keeps P (modify (set_structure d))
  unfolding set_structure
  set_structure-Keeps d = modify-Keeps sys P Ok laws (set_structure d) (λ s. refl)

  set_offset-Keeps : (n : ℕ) → Keeps P (modify (set_restart_offset n))
  unfolding set_restart_offset
  set_offset-Keeps n = modify-Keeps sys P Ok laws (set_restart_offset n) (λ s. refl)

  enter_port-Keeps : (ip : Bytes) (port : ℕ) → Keeps P (enter_port sys ip port)
  unfolding Keeps enter_port set_port
  enter_port-Keeps ip port w h =
      laws.outside _ (sys.close_sockets _ w.env) w.output w.locks
        (laws.neutral.close_sockets _ w.env) (laws.kept w (set_port ip port w.session).0 refl h)

  set_pasv-Undisturbed :
      (o : Option (ℕ × ℕ)) (w : World E) → Undisturbed w.session (set_pasv o w.session).1
  unfolding set_pasv
  set_pasv-Undisturbed none w = refl
  set_pasv-Undisturbed (some (socket, port)) w = refl

  enter_pasv-Keeps : Keeps P (enter_pasv sys)
  unfolding Keeps enter_pasv
  enter_pasv-Keeps w h =
      let listener = (sys.listen w.session.bind_address 20000 65535 w.env).0 in
      laws.outside _ _ w.output w.locks
        (laws.neutral.compose (laws.neutral.listen _ _ _ _) (laws.neutral.close_sockets _ _))
        (laws.kept w _ (set_pasv-Undisturbed listener w) h)

  address-Keeps : (o : Option (Bytes × ℕ)) → Keeps P (use_address sys o)
  unfolding use_address
  address-Keeps none = reply-Keeps sys P Ok laws _ _
  address-Keeps (some (ip, port)) =
      search (bind-Keeps, if-Keeps, enter_port-Keeps, reply-Keeps sys P Ok laws)

  use_port-Keeps : (o : Option PortParams) → Keeps P (use_port sys o)
  unfolding use_port
  use_port-Keeps none = reply-Keeps sys P Ok laws _ _
  use_port-Keeps (some params) = address-Keeps (port_to_address params 64)

  pub port-Keeps : (cmd : Command) → Keeps P (handle_port sys cmd)
  unfolding handle_port
  port-Keeps cmd = auth_arg-Keeps sys P Ok laws cmd _ (use_port-Keeps (parse_port cmd.argument))

  send_pasv-Keeps : (o : Option Bytes) → Keeps P (send_pasv sys o)
  unfolding send_pasv
  send_pasv-Keeps none = search (bind-Keeps, close-Keeps sys P Ok laws, reply-Keeps sys P Ok laws)
  send_pasv-Keeps (some line) =
      search (bind-Keeps, if-Keeps, pure-Keeps, close-Keeps sys P Ok laws, send-Keeps sys P Ok laws)

  pasv_at-Keeps : (o : Option Bytes) → Keeps P (pasv_at sys o)
  unfolding pasv_at
  pasv_at-Keeps none = reply-Keeps sys P Ok laws _ _
  pasv_at-Keeps (some ip) = search (
    bind-Keeps,
    if-Keeps,
    gets-Keeps,
    enter_pasv-Keeps,
    reply-Keeps sys P Ok laws,
    send_pasv-Keeps,
  )

  begin_pasv-Keeps : Keeps P (begin_pasv sys)
  unfolding begin_pasv
  begin_pasv-Keeps =
      let asked = λ (k : Option ℕ).
        ask-Keeps sys P Ok laws (sys.get_socket_info k) (laws.neutral.get_socket_info k) in
      search (bind-Keeps, gets-Keeps, asked, pasv_at-Keeps)

  pub pasv-Keeps : (cmd : Command) → Keeps P (handle_pasv sys cmd)
  unfolding handle_pasv
  pasv-Keeps cmd =
      search (auth-Keeps sys P Ok laws, no_argument-Keeps sys P Ok laws, begin_pasv-Keeps)

  use_type-Keeps : (o : Option TransferType) → Keeps P (use_type sys o)
  unfolding use_type
  use_type-Keeps none = reply-Keeps sys P Ok laws _ _
  use_type-Keeps (some ebcdic) = reply-Keeps sys P Ok laws _ _
  use_type-Keeps (some ascii) = search (bind-Keeps, set_type-Keeps, reply-Keeps sys P Ok laws)
  use_type-Keeps (some binary) = search (bind-Keeps, set_type-Keeps, reply-Keeps sys P Ok laws)

  pub type-Keeps : (cmd : Command) → Keeps P (handle_type sys cmd)
  unfolding handle_type
  type-Keeps cmd = auth_arg-Keeps sys P Ok laws cmd _ (use_type-Keeps (parse_type cmd.argument))

  use_stru-Keeps : (o : Option DataStructure) → Keeps P (use_stru sys o)
  unfolding use_stru
  use_stru-Keeps none = reply-Keeps sys P Ok laws _ _
  use_stru-Keeps (some file_structure) =
      search (bind-Keeps, set_structure-Keeps, reply-Keeps sys P Ok laws)
  use_stru-Keeps (some record_structure) = reply-Keeps sys P Ok laws _ _
  use_stru-Keeps (some page_structure) = reply-Keeps sys P Ok laws _ _

  pub stru-Keeps : (cmd : Command) → Keeps P (handle_stru sys cmd)
  unfolding handle_stru
  stru-Keeps cmd = auth_arg-Keeps sys P Ok laws cmd _ (use_stru-Keeps (parse_stru cmd.argument))

  use_mode-Keeps : (o : Option TransferMode) → Keeps P (use_mode sys o)
  unfolding use_mode
  use_mode-Keeps none = reply-Keeps sys P Ok laws _ _
  use_mode-Keeps (some stream) = search (bind-Keeps, set_mode-Keeps, reply-Keeps sys P Ok laws)
  use_mode-Keeps (some block) = reply-Keeps sys P Ok laws _ _
  use_mode-Keeps (some compressed) = reply-Keeps sys P Ok laws _ _

  pub mode-Keeps : (cmd : Command) → Keeps P (handle_mode sys cmd)
  unfolding handle_mode
  mode-Keeps cmd = auth_arg-Keeps sys P Ok laws cmd _ (use_mode-Keeps (parse_mode cmd.argument))

  use_offset-Keeps : (o : Option ℕ) → Keeps P (use_offset sys o)
  unfolding use_offset
  use_offset-Keeps none = reply-Keeps sys P Ok laws _ _
  use_offset-Keeps (some n) = search (bind-Keeps, set_offset-Keeps, reply-Keeps sys P Ok laws)

  pub rest-Keeps : (cmd : Command) → Keeps P (handle_rest sys cmd)
  unfolding handle_rest
  rest-Keeps cmd = auth_arg-Keeps sys P Ok laws cmd _ (use_offset-Keeps (parse_offset cmd.argument))
