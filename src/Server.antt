-- ===== src/Server.antt =====
-- server/src/server.c: the counting of connections by the accept loop and the client threads, and the
-- rounds of a client thread's command loop. The loop's waits, the stop of the server and log lines are
-- left out.
pub mod Connections
pub mod Lines
pub mod Received
use simple_ftp.Base.{
  ℕ, ◌+◌, ◌-◌, Bool, true, false, not, ◌&&◌, Option, none, some, List, [], ◌∷◌, ltb, leb,
  if◌then◌else◌,
}
use simple_ftp.CString.{Bytes, codes}
use simple_ftp.Protocol.Codes.{resp_service_ready, resp_syntax_error, resp_command_not_impl}
use simple_ftp.Protocol.Types.{Command}
use simple_ftp.Protocol.Command.{parse_command}
use simple_ftp.Commands.{dispatch, is_registered}
use simple_ftp.Commands.Standard.{standard}
use simple_ftp.Session.State.{Session, update_activity}
use simple_ftp.Handlers.{Platform, World, M, pure, ◌>>=◌, gets, modify, ask, reply}
use simple_ftp.Transfer.{ThreadMove, thread_move}
use simple_ftp.Handlers.Run.{handle}

-- `g_current_connections`, the client threads that run, and whether the accept loop stands between its
-- admission of a client and the start of the client's thread.
pub record Server : Type 0 where
  pub current_connections : ℕ
  pub client_threads : ℕ
  pub admitted : Bool

-- What the accept loop and the client threads do, in any order.
pub data Event : Type 0 where
  client_accepted session_failed thread_failed thread_created client_done : Event

-- The test for a busy server.
unfoldable pub is_busy : ℕ → Server → Bool
is_busy max_connections s = ltb 0 max_connections && leb max_connections s.current_connections

abbrev pub leave : Server → Server
leave s = record s { current_connections = s.current_connections - 1; admitted = false }

-- One event, where it can happen: the accept loop takes the next client when it is done with the last.
unfoldable pub server_step : ℕ → Server → Event → Server
server_step max_connections s client_accepted =
    if s.admitted
    then s
    else if is_busy max_connections s
    then s
    else record s { current_connections = s.current_connections + 1; admitted = true }
server_step max_connections s session_failed = if s.admitted then leave s else s
server_step max_connections s thread_failed = if s.admitted then leave s else s
server_step max_connections s thread_created =
    if s.admitted then record s { client_threads = s.client_threads + 1; admitted = false } else s
server_step max_connections s client_done =
    if ltb 0 s.client_threads
    then record s {
      current_connections = s.current_connections - 1;
      client_threads = s.client_threads - 1;
    }
    else s

unfoldable pub server_steps : ℕ → Server → List Event → Server
server_steps max_connections s [] = s
server_steps max_connections s (e ∷ es) =
    server_steps max_connections (server_step max_connections s e) es

-- What happens to a client's session: a line that it sends, or a move of a transfer thread.
pub data ClientEvent : Type 0 where
  line_received : Bytes → ClientEvent
  thread : ThreadMove → ClientEvent

module _ {E : Type 0} (sys : Platform E) where
  -- The reply after a dispatch that failed.
  unfoldable pub reply_unknown : Command → Bool → M E Bool
  reply_unknown cmd dispatched =
      if dispatched
      then pure true
      else if is_registered cmd.command standard
      then pure false
      else reply sys resp_command_not_impl (codes "Command not implemented")

  unfoldable pub run_command : Option Command → M E Bool
  run_command none = reply sys resp_syntax_error (codes "Syntax error, command unrecognized")
  run_command (some cmd) = do
    counted ← modify (λ s. record s { commands_received = s.commands_received + 1 })
    dispatched ← dispatch (handle sys) standard cmd
    reply_unknown cmd dispatched

  -- The round of `client_thread`'s loop for a line that `net_receive_line` gave.
  unfoldable pub client_round : Bytes → M E Bool
  client_round line = do
    now ← ask sys.time
    updated ← modify (update_activity now)
    run_command (parse_command line)

  -- The loop: it ends after the command that sets `should_quit`; a transfer thread may go on.
  unfoldable pub client_lines : List ClientEvent → World E → World E
  client_lines [] w = w
  client_lines (line_received line ∷ es) w =
      let next = client_lines es (client_round line w).1 in
      let last = client_lines es w in if w.session.should_quit then last else next
  client_lines (thread m ∷ es) w = client_lines es (thread_move sys m w).1

  -- The thread of a client with these events.
  unfoldable pub client_thread : List ClientEvent → World E → World E
  client_thread es w =
      let welcome = reply sys resp_service_ready (codes "FTP Server Ready") w in
      if welcome.0 then client_lines es welcome.1 else welcome.1
