-- ===== src/Session/Data.antt =====
-- server/src/session.c: the data connection. A call returns the new state with the sockets that it
-- has closed. `session_open_data_connection` gives the session's mutex away while it waits, so it is
-- one step up to the wait and one for each call of `net_accept`. Answers of server/src/network.c are
-- arguments.
pub mod Sockets
use mathlib.Core.Option
use simple_ftp.Base.{
  ℕ, zero, suc, ◌+◌, ◌-◌, Bool, true, false, not, ◌&&◌, ◌||◌, Option, none, some, List, [], ◌∷◌,
  ◌++◌, ltb, leb, ◌==◌, if◌then◌else◌,
}
use simple_ftp.CString.{Bytes, strncpy}
use simple_ftp.Session.State.{Session, Socket, DataMode, no_mode, active, passive}

-- A socket that is not INVALID_SOCKET_T, closed by `net_close_socket`.
abbrev pub opened : Socket → List ℕ
opened none = []
opened (some k) = k ∷ []

-- The data sockets of a session.
abbrev pub held : Session → List ℕ
held s = opened s.data_socket ++ opened s.data_listen_socket

-- `session_close_data_connection`
unfoldable pub close_data_connection : Session → Session × List ℕ
close_data_connection s =
    (record s { data_socket = none; data_listen_socket = none; data_mode = no_mode }, held s)

-- `session_set_port`
unfoldable pub set_port : Bytes → ℕ → Session → Session × List ℕ
set_port ip port s = (
  record s {
    data_socket = none;
    data_listen_socket = none;
    active_ip = strncpy 64 ip;
    active_port = port;
    data_mode = active;
  },
  held s,
)

-- `session_set_pasv`; the argument is the socket and the port that `net_create_listening_socket_range`
-- gives, or none. The flag is true for 0.
unfoldable pub set_pasv : Option (ℕ × ℕ) → Session → Bool × Session × List ℕ
set_pasv none s = (false, record s { data_socket = none; data_listen_socket = none }, held s)
set_pasv (some (socket, port)) s = (
  true,
  record s {
    data_socket = none;
    data_listen_socket = some socket;
    passive_port = port;
    data_mode = passive;
  },
  held s,
)

-- What the first part of `session_open_data_connection` comes to: it returns, with the sockets that the
-- network has given, or it waits for the listening socket.
pub data Opening : Type 0 where
  returns : Bool → Session → List ℕ → Opening
  waits : ℕ → Opening

unfoldable pub open_mode : DataMode → Socket → Session → Opening
open_mode active none s = returns false (record s { data_socket = none }) []
open_mode active (some socket) s =
    returns true (record s { data_socket = some socket }) (socket ∷ [])
open_mode passive connected s = elim s.data_listen_socket [
  | none ↦ returns false s []
  | some listener ↦ waits listener
]
open_mode no_mode connected s = returns false s []

-- `session_open_data_connection` up to `net_wait_readable`; `connected` is what `net_connect` gives.
unfoldable pub open_begin : Socket → Session → Opening
unfolding open_mode
open_begin connected s = elim s.data_socket [
  | some socket ↦ returns true s []
  | none ↦ open_mode s.data_mode connected s
]

-- What `net_accept` comes to.
pub data Accept : Type 0 where
  accepted : ℕ → Accept
  would_block refused : Accept

-- What one round of the accept loop comes to: it returns, with the sockets that the network has given
-- and those closed, or it sleeps before the next round.
pub data Round : Type 0 where
  ends : Bool → Session → List ℕ → List ℕ → Round
  retries : Session → Round

abbrev pub is_listener : ℕ → Socket → Bool
is_listener listener none = false
is_listener listener (some k) = k == listener

unfoldable pub accept_answer : ℕ → ℕ → Accept → Session → Round
accept_answer listener left (accepted socket) s =
    ends true (record s { data_socket = some socket; data_listen_socket = none }) (socket ∷ [])
      (opened s.data_listen_socket)
accept_answer listener left would_block s =
    if ltb 1 left
    then retries (record s { data_socket = none })
    else ends false (record s { data_socket = none }) [] []
accept_answer listener left refused s = ends false (record s { data_socket = none }) [] []

-- One round of the accept loop, with the tests made after the mutex has been taken again;
-- `left` is `accept_retries`.
unfoldable pub accept_once : ℕ → ℕ → Accept → Session → Round
unfolding accept_answer
accept_once listener left answer s =
    if not (is_listener listener s.data_listen_socket) || s.should_quit
    then ends false s [] []
    else accept_answer listener left answer s
