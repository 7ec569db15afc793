-- ===== src/Session/State.antt =====
-- server/include/session.h and server/src/session.c: the state of one client's session and the
-- calls that set parts of it. Each call holds the session's mutex for the whole of its body, so it is
-- a function on the state; the mutex itself, the thread handle's value and log lines are left out.
use simple_ftp.Base.{
  ℕ, ◌-◌, Bool, true, false, not, Option, none, some, [], ltb, ◌==◌, if◌then◌else◌,
}
use simple_ftp.CString.{Bytes, codes, strncpy}
use simple_ftp.Protocol.Types.{
  TransferType, ascii, TransferMode, stream, DataStructure, file_structure,
}
use simple_ftp.Auth.{Permissions, perm_none}
use simple_ftp.Session.Path.{max_path, root}

-- `session_state_t`
pub data SessionState : Type 0 where
  connected wait_password authenticated_state closing : SessionState

-- `session_data_mode_t`
pub data DataMode : Type 0 where
  no_mode active passive : DataMode

-- `transfer_thread_state_t`
pub data ThreadState : Type 0 where
  idle starting running completing aborted : ThreadState

-- `transfer_status_t`
pub data TransferStatus : Type 0 where
  transfer_ok io_error conn_error internal_error transfer_aborted : TransferStatus

-- `transfer_operation_t`
pub data Operation : Type 0 where
  send_file recv_file send_list send_nlst : Operation

-- `transfer_params_t`; offsets are never negative here.
pub record TransferParams : Type 0 where
  pub operation : Operation
  pub filepath : Bytes
  pub offset : ℕ
  pub type : TransferType
  pub lock_acquired : Bool

-- A `socket_t`; `none` stands for INVALID_SOCKET_T.
abbrev pub Socket : Type 0
Socket = Option ℕ

-- `session_t`. A `char` array is the string in it, `transfer_thread` says whether the handle is not 0,
-- and times are seconds.
pub record Session : Type 0 where
  pub control_socket : Socket
  pub client_ip : Bytes
  pub client_port : ℕ
  pub bind_address : Bytes
  pub state : SessionState
  pub username : Bytes
  pub authenticated : Bool
  pub permissions : Permissions
  pub root_dir : Bytes
  pub current_dir : Bytes
  pub user_home_dir : Bytes
  pub transfer_type : TransferType
  pub transfer_mode : TransferMode
  pub data_structure : DataStructure
  pub data_mode : DataMode
  pub data_socket : Socket
  pub data_listen_socket : Socket
  pub active_ip : Bytes
  pub active_port : ℕ
  pub passive_port : ℕ
  pub rename_from : Bytes
  pub restart_offset : ℕ
  pub rename_pending : Bool
  pub transfer_in_progress : Bool
  pub transfer_should_abort : Bool
  pub transfer_thread : Bool
  pub transfer_thread_state : ThreadState
  pub connect_time : ℕ
  pub last_activity : ℕ
  pub should_quit : Bool
  pub transfer_params : Option TransferParams
  pub transfer_result : TransferStatus
  pub bytes_uploaded : ℕ
  pub bytes_downloaded : ℕ
  pub files_uploaded : ℕ
  pub files_downloaded : ℕ
  pub commands_received : ℕ

-- `session_reset_state`
unfoldable pub reset_state : Session → Session
reset_state s = record s {
  state = connected;
  authenticated = false;
  username = [];
  permissions = perm_none;
  current_dir = root;
  user_home_dir = [];
  transfer_type = ascii;
  transfer_mode = stream;
  data_structure = file_structure;
  data_mode = no_mode;
  data_socket = none;
  data_listen_socket = none;
  active_ip = [];
  active_port = 0;
  passive_port = 0;
  restart_offset = 0;
  rename_pending = false;
  rename_from = [];
  transfer_should_abort = false;
  transfer_in_progress = false;
  transfer_thread = false;
  transfer_thread_state = idle;
  transfer_params = none;
  transfer_result = transfer_ok;
}

-- `memset(session, 0, …)` and the connection's own fields.
abbrev pub blank : ℕ → Bytes → ℕ → Bytes → Bytes → ℕ → Session
blank socket client_ip client_port root_dir bind_address now = record {
  control_socket = some socket;
  client_ip = strncpy 64 client_ip;
  client_port = client_port;
  bind_address = strncpy 64 bind_address;
  state = connected;
  username = [];
  authenticated = false;
  permissions = perm_none;
  root_dir = strncpy max_path root_dir;
  current_dir = [];
  user_home_dir = [];
  transfer_type = ascii;
  transfer_mode = stream;
  data_structure = file_structure;
  data_mode = no_mode;
  data_socket = none;
  data_listen_socket = none;
  active_ip = [];
  active_port = 0;
  passive_port = 0;
  rename_from = [];
  restart_offset = 0;
  rename_pending = false;
  transfer_in_progress = false;
  transfer_should_abort = false;
  transfer_thread = false;
  transfer_thread_state = idle;
  connect_time = now;
  last_activity = now;
  should_quit = false;
  transfer_params = none;
  transfer_result = transfer_ok;
  bytes_uploaded = 0;
  bytes_downloaded = 0;
  files_uploaded = 0;
  files_downloaded = 0;
  commands_received = 0;
}

-- `bind_address`, with the address taken for NULL.
abbrev pub bind_or_default : Option Bytes → Bytes
bind_or_default none = codes "127.0.0.1"
bind_or_default (some address) = address

-- `session_create`, for a `malloc` that succeeds; `is_directory` answers for `fs_is_directory`, and
-- `none` stands for NULL.
unfoldable pub create :
    (Bytes → Bool) → Socket → Bytes → ℕ → Bytes → Option Bytes → ℕ → Option Session
unfolding reset_state
create is_directory none client_ip client_port root_dir bind_address now = none
create is_directory (some socket) client_ip client_port root_dir bind_address now =
    let s = blank socket client_ip client_port root_dir (bind_or_default bind_address) now in
    if is_directory s.root_dir then some (reset_state s) else none

-- `session_set_user`
unfoldable pub set_user : Bytes → Session → Session
set_user name s = record s { username = strncpy 256 name; state = wait_password }

-- `session_set_type`, `session_set_mode`, `session_set_structure`
unfoldable pub set_type : TransferType → Session → Session
set_type t s = record s { transfer_type = t }

unfoldable pub set_mode : TransferMode → Session → Session
set_mode m s = record s { transfer_mode = m }

unfoldable pub set_structure : DataStructure → Session → Session
set_structure d s = record s { data_structure = d }

-- `session_set_restart_offset`, for an offset that is not negative
unfoldable pub set_restart_offset : ℕ → Session → Session
set_restart_offset offset s = record s { restart_offset = offset }

-- `session_clear_restart_offset`
unfoldable pub clear_restart_offset : Session → Session
clear_restart_offset s = record s { restart_offset = 0 }

-- `session_set_rename_from`
unfoldable pub set_rename_from : Bytes → Session → Session
set_rename_from path s = record s { rename_from = strncpy max_path path; rename_pending = true }

-- `session_get_rename_from`; `none` stands for -1.
unfoldable pub get_rename_from : ℕ → Session → Option Bytes
get_rename_from buffer_size s =
    if buffer_size == 0
    then none
    else if s.rename_pending
    then some (strncpy buffer_size s.rename_from)
    else none

-- `session_clear_rename_state`
unfoldable pub clear_rename_state : Session → Session
clear_rename_state s = record s { rename_pending = false; rename_from = [] }

-- `session_set_transfer_should_abort` and `session_clear_transfer_should_abort`
unfoldable pub put_transfer_should_abort : Bool → Session → Session
put_transfer_should_abort b s = record s { transfer_should_abort = b }

-- `session_set_transfer_in_progress` and `session_clear_transfer_in_progress`
unfoldable pub put_transfer_in_progress : Bool → Session → Session
put_transfer_in_progress b s = record s { transfer_in_progress = b }

-- `session_set_transfer_thread_state`
unfoldable pub set_transfer_thread_state : ThreadState → Session → Session
set_transfer_thread_state t s = record s { transfer_thread_state = t }

-- `session_update_activity`, at the time `now`
unfoldable pub update_activity : ℕ → Session → Session
update_activity now s = record s { last_activity = now }

-- `session_is_timed_out`, at the time `now`; a timeout of 0 stands for every one that is not positive.
unfoldable pub is_timed_out : ℕ → ℕ → Session → Bool
is_timed_out now timeout_seconds s =
    if timeout_seconds == 0 then false else ltb timeout_seconds (now - s.last_activity)

abbrev pub is_idle : ThreadState → Bool
is_idle idle = true
is_idle starting = false
is_idle running = false
is_idle completing = false
is_idle aborted = false

-- `session_start_transfer_thread`: `has_memory` is what `malloc` answers and `created` what
-- `pthread_create` answers.
unfoldable pub start_transfer_thread : Bool → Bool → TransferParams → Session → Bool × Session
start_transfer_thread has_memory created params s =
    if not (is_idle s.transfer_thread_state)
    then (false, s)
    else if not has_memory
    then (false, record s { transfer_params = none })
    else if created
    then (
      true,
      record s {
        transfer_params = some params;
        transfer_thread_state = starting;
        transfer_thread = true;
      },
    )
    else (false, record s { transfer_params = none; transfer_thread_state = idle })
