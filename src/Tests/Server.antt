-- ===== src/Tests/Server.antt =====
-- The server's loops at concrete inputs.

use simple_ftp.Base.{◌≤◌, ◌<◌, ◌+◌, ◌≡◌, refl, true, List, none, some, [], ◌∷◌, All, arith}
use simple_ftp.Utils.{to_uppercase}
use simple_ftp.Protocol.Command.{parse_command}
use simple_ftp.Network.{gives, receive_line}
use simple_ftp.Tests.Network.{wire, wire-Streams}
use simple_ftp.Tests.Texts.{retr-IsLine}
use simple_ftp.CString.{Bytes, codes, strncpy}
use simple_ftp.Session.Path.{max_path}
use simple_ftp.Session.State.{create}
use simple_ftp.Handlers.Authorised.{Authorised, calls_of}
use simple_ftp.Handlers.Served.{begin}
use simple_ftp.Transfer.{begins}
use simple_ftp.Server.{
  ClientEvent, line_received, thread, Event, client_accepted, session_failed, thread_created,
  client_done, is_busy, server_step, server_steps, client_thread,
}
use simple_ftp.Server.Connections.{waiting, no_clients, connections_counted}
use simple_ftp.Server.Received.{command_size, receive_line-parse_command}
use simple_ftp.Server.Lines.{client_thread-Authorised}
use simple_ftp.Tests.Sessions.{everything, auth, auth-HasHomes}
use simple_ftp.Tests.Handlers.{sys-Records, sys, new_session}

-- A login, a directory that is made, bytes that are no command, and the end.
abbrev lines : List ClientEvent
lines =
    line_received (codes "USER anonymous\r\n")
    ∷ line_received (codes "PASS guest\r\n")
    ∷ line_received (codes "MKD ../../b\r\n")
    ∷ thread begins
    ∷ line_received (codes "\r\n")
    ∷ line_received (codes "QUIT\r\n")
    ∷ []

client_thread-Authorised_example :
    let after = client_thread sys lines (begin new_session [] auth []) in
    All (Authorised (strncpy max_path (codes "/srv/ftp"))) after.changes
    × (after.env ≡ calls_of after.changes)
unfolding create
client_thread-Authorised_example =
    client_thread-Authorised sys (λ e. e) everything auth (some 5) (codes "10.0.0.2") 4000
      (codes "/srv/ftp") none 100 [] [] lines sys-Records refl auth-HasHomes refl

-- With a limit of one, the second client is refused until the first is gone.
abbrev events : List Event
events =
    client_accepted ∷ thread_created ∷ client_accepted ∷ client_done ∷ client_accepted
    ∷ session_failed ∷ client_accepted ∷ []

one_waits :
    server_steps 1 no_clients events
    ≡ record { current_connections = 1; client_threads = 0; admitted = true }
unfolding server_steps server_step is_busy
one_waits = refl

connections_counted_example :
    ((server_steps 1 no_clients events).current_connections
      ≡ (server_steps 1 no_clients events).client_threads
        + waiting (server_steps 1 no_clients events))
    × (0 < 1 → (server_steps 1 no_clients events).client_threads ≤ 1)
connections_counted_example = connections_counted 1 events

receive_line-parse_command_example :
    (line : Bytes) × ((receive_line wire command_size (codes "retr a b\r\nQUIT\r\n")).0
      ≡ gives line)
    × (parse_command line
        ≡ some (record {
          command = to_uppercase (codes "retr");
          argument = codes "a b";
          has_argument = true;
        }))
    × ((receive_line wire command_size (codes "retr a b\r\nQUIT\r\n")).1 ≡ codes "QUIT\r\n")
receive_line-parse_command_example =
    receive_line-parse_command wire (λ e. e) (codes "retr") (codes "a b") (codes "QUIT\r\n")
      (codes "retr a b\r\nQUIT\r\n") wire-Streams retr-IsLine (omega arith) refl
