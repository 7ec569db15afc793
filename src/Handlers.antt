-- ===== src/Handlers.antt =====
-- server/src/handler.c: what the command handlers work on, and the calls that they share. The operating
-- system and server/src/network.c are a `Platform`, whose state `E` each call may change: other
-- clients and other programs may act on files between any two calls.
pub mod Login
pub mod Parameters
pub mod Files
pub mod Transfers
pub mod Run
pub mod Keeps
pub mod Authorised
pub mod Served
pub mod Restricted
use simple_ftp.Base.{
  ℕ, Bool, true, false, not, Option, none, some, List, [], ◌∷◌, ◌++◌, if◌then◌else◌,
}
use simple_ftp.CString.{Bytes, codes, strncpy}
use simple_ftp.Protocol.Codes.{
  resp_not_logged_in, resp_syntax_error_param, resp_file_unavailable, resp_file_action_aborted,
}
use simple_ftp.Protocol.Types.{Command, max_response_line}
use simple_ftp.Protocol.Response.{format_response, format_response_multiline}
use simple_ftp.Auth.{Auth, Permissions}
use simple_ftp.FileLock.{Table, Allocation, try_acquire_shared, try_acquire_exclusive, release}
use simple_ftp.Session.Path.{max_path}
use simple_ftp.Session.State.{Session, Socket, TransferParams}
use simple_ftp.Session.Data.{Accept, close_data_connection}
use simple_ftp.Session.Access.{check_path_access, resolve_path}

-- The calls that leave the model: server/src/filesys.c, server/src/network.c, memory, threads and time.
-- `true` and `some` stand for success.
pub record Platform (E : Type 0) : Type 0 where
  pub path_exists : Bytes → E → Bool × E
  pub is_directory : Bytes → E → Bool × E
  pub get_file_size : Bytes → E → Option ℕ × E
  pub get_file_mtime : Bytes → E → Option ℕ × E
  pub format_time : ℕ → Bytes
  pub create_directory : Bytes → E → Bool × E
  pub delete_file : Bytes → E → Bool × E
  pub delete_directory : Bytes → E → Bool × E
  pub rename : Bytes → Bytes → E → Bool × E
  pub send_all : Socket → Bytes → E → Bool × E
  pub get_socket_info : Socket → E → Option Bytes × E
  pub listen : Bytes → ℕ → ℕ → E → Option (ℕ × ℕ) × E
  pub connect : Bytes → ℕ → E → Socket × E
  pub wait_readable : ℕ → E → Bool × E
  pub accept : ℕ → E → Accept × E
  pub close_sockets : List ℕ → E → E
  pub allocate : E → Allocation × E
  pub has_memory : E → Bool × E
  pub create_thread : TransferParams → E → Bool × E
  pub time : E → ℕ × E

-- A call that changes the file system, or starts a transfer thread to read or write it.
pub data Action : Type 0 where
  make_directory remove_directory delete overwrite : Action
  rename_from : Bytes → Action
  transfer : TransferParams → Action

-- The calls of the platform that an action makes: four of server/src/filesys.c, and pthread_create for a
-- transfer thread with what it finds in `session->transfer_params`.
pub data FileCall : Type 0 where
  makes_directory removes_directory deletes_file : Bytes → FileCall
  renames : Bytes → Bytes → FileCall
  starts_transfer : TransferParams → FileCall

abbrev pub call_of : Action → Bytes → FileCall
call_of make_directory path = makes_directory path
call_of remove_directory path = removes_directory path
call_of delete path = deletes_file path
call_of overwrite path = deletes_file path
call_of (rename_from source) path = renames source path
call_of (transfer params) path = starts_transfer params

abbrev pub perform : {E : Type 0} → Platform E → FileCall → E → Bool × E
perform sys (makes_directory path) = sys.create_directory path
perform sys (removes_directory path) = sys.delete_directory path
perform sys (deletes_file path) = sys.delete_file path
perform sys (renames source path) = sys.rename source path
perform sys (starts_transfer params) = sys.create_thread params

-- Such a call, whether or not it succeeds: its path, and the session that makes it.
pub record Change : Type 0 where
  pub action : Action
  pub path : Bytes
  pub session : Session

-- What a handler works on: its session, the locks and the users of the server, and the platform. The
-- reply lines passed to the network and the changes made are kept, with the last one first.
pub record World (E : Type 0) : Type 0 where
  pub session : Session
  pub locks : Table
  pub auth : Auth
  pub env : E
  pub output : List Bytes
  pub changes : List Change

abbrev pub M : Type 0 → Type 0 → Type 0
M E A = World E → A × World E

module _ {E : Type 0} where
  unfoldable pub pure : {A : Type 0} → A → M E A
  pure a w = (a, w)

  infixl 5 ◌>>=◌ ◌>>◌
  unfoldable pub ◌>>=◌ : {A B : Type 0} → M E A → (A → M E B) → M E B
  ◌>>=◌ m f w = let (a, after) = m w in f a after

  unfoldable pub ◌>>◌ : {A B : Type 0} → M E A → M E B → M E B
  m >> k = m >>= λ _. k

  -- A read of the session, and a call on it.
  unfoldable pub gets : {A : Type 0} → (Session → A) → M E A
  gets f w = (f w.session, w)

  unfoldable pub modify : (Session → Session) → M E Bool
  modify f w = (true, record w { session = f w.session })

  -- A call of the platform.
  unfoldable pub ask : {A : Type 0} → (E → A × E) → M E A
  ask call w = let (a, after) = call w.env in (a, record w { env = after })

  -- A call that changes files, as `action` on `path`.
  unfoldable pub change : Platform E → Action → Bytes → M E Bool
  change sys action path w =
      let (done, after) = perform sys (call_of action path) w.env in
      (
        done,
        record w {
          env = after;
          changes = record { action = action; path = path; session = w.session } ∷ w.changes;
        },
      )

  -- `file_lock_release_shared` and `file_lock_release_exclusive`
  unfoldable pub release_lock : Bool → Bytes → M E Bool
  release_lock exclusive path w = (true, record w { locks = release exclusive path w.locks })

-- The text that `snprintf` leaves in a `char[PROTO_MAX_RESPONSE_LINE]`.
abbrev pub line_text : Bytes → Bytes
line_text text = strncpy max_response_line text

module _ {E : Type 0} (sys : Platform E) where
  -- `net_send_all` on the control socket.
  unfoldable pub send_line : Bytes → M E Bool
  send_line line w =
      let (done, after) = sys.send_all w.session.control_socket line w.env in
      (done, record w { env = after; output = line ∷ w.output })

  unfoldable pub send_formatted : Option Bytes → M E Bool
  send_formatted none = pure false
  send_formatted (some line) = send_line line

  -- `session_send_response`; `true` stands for 0 and `false` for -1.
  unfoldable pub reply : ℕ → Bytes → M E Bool
  reply code message = send_formatted (format_response max_response_line code message)

  -- `session_send_response_multiline`
  unfoldable pub reply_multiline : ℕ → Bytes → M E Bool
  reply_multiline code message =
      send_formatted (format_response_multiline max_response_line code message)

  -- `session_close_data_connection`
  unfoldable pub close_data : M E Bool
  close_data w =
      let (s, closed) = close_data_connection w.session in
      (true, record w { session = s; env = sys.close_sockets closed w.env })

  -- `file_lock_try_acquire_shared` and `file_lock_try_acquire_exclusive`
  unfoldable pub try_lock : Bool → Bytes → M E Bool
  try_lock exclusive path w =
      let (alloc, after) = sys.allocate w.env in
      let (got, t) =
        (if exclusive
          then try_acquire_exclusive alloc path w.locks
          else try_acquire_shared alloc path w.locks) in
      (got, record w { env = after; locks = t })

  -- `REQUIRE_AUTH`
  unfoldable pub require_auth : M E Bool → M E Bool
  require_auth rest = do
    authenticated ← gets (λ s. s.authenticated)
    if not authenticated
        then reply resp_not_logged_in (codes "Please login with USER and PASS")
        else rest

  -- `REQUIRE_AUTH_AND_ARG`
  unfoldable pub require_auth_and_arg : Command → M E Bool → M E Bool
  require_auth_and_arg cmd rest = require_auth (
      if not cmd.has_argument
      then reply resp_syntax_error_param (codes "Syntax error in parameters")
      else rest)

  -- The test at the head of the handlers that take no parameter.
  unfoldable pub require_no_argument : Command → Bytes → M E Bool → M E Bool
  require_no_argument cmd message rest =
      if cmd.has_argument then reply resp_syntax_error_param message else rest

  -- `session_check_path_access`, then `session_resolve_path` into a `char[SESSION_MAX_PATH]`, with the
  -- replies to their failures.
  unfoldable pub with_path : Bytes → Permissions → Bytes → Bytes → (Bytes → M E Bool) → M E Bool
  with_path argument required denied invalid rest = do
    allowed ← gets (check_path_access argument required)
    resolved ← gets (resolve_path argument max_path)
    if not allowed
        then reply resp_file_unavailable denied
        else elim resolved [ none ↦ reply resp_file_unavailable invalid | some path ↦ rest path ]

  -- The `do … while (0)` of a handler that holds an exclusive lock inside it.
  unfoldable pub with_exclusive : Bytes → M E Bool → M E Bool
  with_exclusive path body = do
    acquired ← try_lock true path
    if not acquired
        then reply resp_file_action_aborted (codes "File is busy, try again later")
        else do response ← body; released ← release_lock true path; pure response
