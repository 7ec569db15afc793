-- ===== src/Handlers/Transfers.antt =====
-- server/src/handler.c: the handlers that start a transfer thread (RETR, STOR, APPE, LIST and NLST), and
-- `session_open_data_connection` and `session_start_transfer_thread` of server/src/session.c as they
-- call them.
use simple_ftp.Base.{
  ℕ, zero, suc, ◌-◌, Bool, true, false, not, ◌&&◌, ◌||◌, Option, none, some, [], ◌++◌, ltb,
  if◌then◌else◌,
}
use simple_ftp.CString.{Bytes, codes, strncpy, decimal}
use simple_ftp.Protocol.Codes.{
  resp_file_status_ok, resp_cant_open_data, resp_file_action_aborted, resp_local_error,
  resp_bad_command_sequence,
}
use simple_ftp.Protocol.Types.{Command, TransferType, ascii, binary, ebcdic}
use simple_ftp.Auth.{perm_read, perm_write}
use simple_ftp.Session.Path.{max_path}
use simple_ftp.Session.State.{
  Session, Socket, Operation, send_file, recv_file, send_list, send_nlst, TransferParams, is_idle,
  start_transfer_thread, clear_restart_offset, DataMode, no_mode, active, passive,
}
use simple_ftp.Session.Data.{
  Opening, returns, waits, open_begin, Round, ends, retries, is_listener, accept_answer,
}
use simple_ftp.Handlers.{
  Platform, M, pure, ◌>>=◌, gets, modify, ask, line_text, reply, close_data, require_auth,
  require_auth_and_arg, with_path, change, try_lock, release_lock, overwrite, transfer,
}
use simple_ftp.Handlers.Files.{denied, invalid, refuse}

-- What the variables of a handler hold at the end of its `do … while (0)`.
pub record Attempt : Type 0 where
  pub response : Bool
  pub lock_acquired : Bool
  pub data_connection_opened : Bool

abbrev pub is_no_mode : DataMode → Bool
is_no_mode no_mode = true
is_no_mode active = false
is_no_mode passive = false

-- The two words of the 150 reply.
abbrev pub mode_name : TransferType → Bytes
mode_name ascii = codes "ASCII"
mode_name binary = codes "BINARY"
mode_name ebcdic = codes "BINARY"

abbrev pub is_listening : ℕ → Session → Bool
is_listening listener s = is_listener listener s.data_listen_socket && not s.should_quit

module _ {E : Type 0} (sys : Platform E) where
  unfoldable pub put_session : Session → M E Bool
  put_session s w = (true, record w { session = s })

  -- The end of a round of the accept loop, which makes its tests again after each sleep.
  unfoldable pub after_accept : ℕ → M E Bool → E → Round → M E Bool
  after_accept listener again after (ends ok s given closed) w =
      (ok, record w { session = s; env = sys.close_sockets closed after })
  after_accept listener again after (retries s) w =
      let next = record w { session = s; env = after } in
      if is_listening listener s then again next else (false, next)

  -- The accept loop of `session_open_data_connection`
  unfoldable pub accept_rounds : ℕ → ℕ → M E Bool
  accept_rounds zero listener = pure false
  accept_rounds (suc left) listener = λ w.
      let again = accept_rounds left listener in
      let (answer, after) = sys.accept listener w.env in
      after_accept listener again after (accept_answer listener (suc left) answer w.session) w

  -- `session_open_data_connection` from `net_wait_readable` on.
  unfoldable pub wait_and_accept : ℕ → M E Bool
  wait_and_accept listener = do
    ready ← ask (sys.wait_readable listener)
    listening ← gets (is_listening listener)
    if not ready || not listening then pure false else accept_rounds 3 listener

  -- The socket that `net_connect` gives, where the call is made.
  unfoldable pub connect_if_active : DataMode → Socket → Session → M E Socket
  connect_if_active active none s = ask (sys.connect s.active_ip s.active_port)
  connect_if_active m socket s = pure none

  unfoldable pub opened_or_wait : Opening → M E Bool
  opened_or_wait (returns ok s given) = do put ← put_session s; pure ok
  opened_or_wait (waits listener) = wait_and_accept listener

  -- `session_open_data_connection`
  unfoldable pub open_data_connection : M E Bool
  open_data_connection = do
    s ← gets (λ s. s)
    connected ← connect_if_active s.data_mode s.data_socket s
    opened_or_wait (open_begin connected s)

  -- `pthread_create`, for a thread that finds these parameters in its session.
  unfoldable pub create_thread : Option TransferParams → M E Bool
  create_thread none = pure false
  create_thread (some params) = change sys (transfer params) params.filepath

  -- `session_start_transfer_thread`; a thread that is created finds in the session what was stored there.
  unfoldable pub start_thread : TransferParams → M E Bool
  start_thread params = do
    s ← gets (λ s. s)
    has_memory ← if is_idle s.transfer_thread_state then ask sys.has_memory else pure false
    let outcome = λ (created : Bool). start_transfer_thread has_memory created params s
    created ← if has_memory then create_thread (outcome true).1.transfer_params else pure false
    put ← put_session (outcome created).1
    pure (outcome created).0

  -- A `break` with a reply.
  unfoldable pub break_with : Bool → Bool → M E Bool → M E Attempt
  break_with locked opened answer = do
    response ← answer
    pure (record { response = response; lock_acquired = locked; data_connection_opened = opened })

  -- The part that the five handlers share: the 150 reply, the data connection and the thread. RETR and
  -- STOR clear the restart offset in between.
  unfoldable pub begin_transfer : Bool → Bool → Operation → Bytes → ℕ → Bytes → M E Attempt
  begin_transfer locked clears operation path offset message = do
    informed ← reply sys resp_file_status_ok message
    if not informed then break_with locked false (pure false) else do
      opened ← open_data_connection
      if not opened
          then break_with locked false
              (reply sys resp_cant_open_data (codes "Can't open data connection"))
          else do
            cleared ← modify (λ s. if clears then clear_restart_offset s else s)
            type ← gets (λ s. s.transfer_type)
            started ← start_thread (record {
              operation = operation;
              filepath = strncpy max_path path;
              offset = offset;
              type = type;
              lock_acquired = locked;
            })
            if not started
                then break_with locked true
                    (reply sys resp_local_error (codes "Failed to start transfer"))
                else break_with false false (pure true)

  -- What stands behind the `do … while (0)`.
  unfoldable pub clean_up : Bool → Bytes → Attempt → M E Bool
  clean_up exclusive path a = do
    closed ← if a.data_connection_opened then close_data sys else pure true
    released ← if a.lock_acquired then release_lock exclusive path else pure true
    pure a.response

  -- The `do … while (0)` of RETR, STOR and APPE, which begins with the lock, and what follows it.
  unfoldable pub with_lock : Bool → Bytes → M E Attempt → M E Bool
  with_lock exclusive path body = do
    acquired ← try_lock sys exclusive path
    a ←
        if not acquired
        then break_with false false
            (reply sys resp_file_action_aborted (codes "File is busy, try again later"))
        else body
    clean_up exclusive path a

  unfoldable pub opening : Bytes → Bytes → M E Bytes
  opening argument rest = do
    type ← gets (λ s. s.transfer_type)
    pure (
        line_text (
          codes "Opening "
          ++ (mode_name type ++ (codes " mode data connection for " ++ (argument ++ rest)))))

  -- `cmd_handle_retr` once it knows the size of the file.
  unfoldable pub retr_sized : Bytes → Bytes → ℕ → Option ℕ → M E Attempt
  retr_sized argument path offset none =
      break_with true false (refuse sys (codes "Cannot read file"))
  retr_sized argument path offset (some size) =
      if ltb size offset
      then break_with true false (refuse sys (codes "Invalid restart offset"))
      else do
        message ← opening argument (codes " (" ++ (decimal (size - offset) ++ codes " bytes)"))
        begin_transfer true true send_file path offset message

  -- The body under the lock in `cmd_handle_retr`.
  unfoldable pub retr_locked : Bytes → Bytes → ℕ → M E Attempt
  retr_locked argument path offset = do
    there ← ask (sys.path_exists path)
    if not there then break_with true false (refuse sys (codes "File not found")) else do
      directory ← ask (sys.is_directory path)
      if directory
          then break_with true false (refuse sys (codes "Cannot download a directory"))
          else do size ← ask (sys.get_file_size path); retr_sized argument path offset size

  unfoldable pub retr_at : Bytes → Bytes → M E Bool
  retr_at argument path = do
    there ← ask (sys.path_exists path)
    if not there then refuse sys (codes "File not found") else do
      offset ← gets (λ s. s.restart_offset)
      with_lock false path (retr_locked argument path offset)

  -- The test for PASV or PORT.
  unfoldable pub require_mode : M E Bool → M E Bool
  require_mode rest = do
    unset ← gets (λ s. is_no_mode s.data_mode)
    if unset then reply sys resp_bad_command_sequence (codes "Use PASV or PORT first") else rest

  -- `cmd_handle_retr`
  unfoldable pub handle_retr : Command → M E Bool
  handle_retr cmd =
      require_auth_and_arg sys cmd
        (require_mode (with_path sys cmd.argument perm_read denied invalid (retr_at cmd.argument)))

  unfoldable pub receive_at : Bool → Bytes → Bytes → ℕ → M E Attempt
  receive_at clears argument path offset = do
    message ← opening argument []
    begin_transfer true clears recv_file path offset message

  unfoldable pub stor_sized : Bytes → Bytes → ℕ → Option ℕ → M E Attempt
  stor_sized argument path offset none =
      break_with true false (refuse sys (codes "Cannot read file"))
  stor_sized argument path offset (some size) =
      if ltb size offset
      then break_with true false (refuse sys (codes "Invalid restart offset"))
      else receive_at true argument path offset

  -- `fs_path_exists(abs_path) && fs_delete_file(abs_path) != 0`
  unfoldable pub cannot_replace : Bytes → M E Bool
  cannot_replace path = do
    there ← ask (sys.path_exists path)
    if not there then pure false else do deleted ← change sys overwrite path; pure (not deleted)

  -- The body under the lock in `cmd_handle_stor`.
  unfoldable pub stor_locked : Bytes → Bytes → ℕ → M E Attempt
  stor_locked argument path offset =
      if ltb 0 offset
      then (do
        there ← ask (sys.path_exists path)
        if not there
            then break_with true false (refuse sys (codes "File does not exist for resume"))
            else do size ← ask (sys.get_file_size path); stor_sized argument path offset size)
      else (do
        stuck ← cannot_replace path
        if stuck
            then break_with true false (refuse sys (codes "Cannot overwrite existing file"))
            else receive_at true argument path offset)

  unfoldable pub stor_at : Bytes → Bytes → M E Bool
  stor_at argument path = do
    directory ← ask (sys.is_directory path)
    if directory then refuse sys (codes "Cannot upload to a directory") else do
      offset ← gets (λ s. s.restart_offset)
      with_lock true path (stor_locked argument path offset)

  -- `cmd_handle_stor`
  unfoldable pub handle_stor : Command → M E Bool
  handle_stor cmd =
      require_auth_and_arg sys cmd
        (require_mode (with_path sys cmd.argument perm_write denied invalid (stor_at cmd.argument)))

  unfoldable pub appe_sized : Bytes → Bytes → Option ℕ → M E Attempt
  appe_sized argument path none = break_with true false (refuse sys (codes "Cannot read file"))
  appe_sized argument path (some offset) = receive_at false argument path offset

  -- The body under the lock in `cmd_handle_appe`.
  unfoldable pub appe_locked : Bytes → Bytes → M E Attempt
  appe_locked argument path = do
    there ← ask (sys.path_exists path)
    size ← if there then ask (sys.get_file_size path) else pure (some 0)
    appe_sized argument path size

  unfoldable pub appe_at : Bytes → Bytes → M E Bool
  appe_at argument path = do
    directory ← ask (sys.is_directory path)
    if directory
        then refuse sys (codes "Cannot append to a directory")
        else with_lock true path (appe_locked argument path)

  -- `cmd_handle_appe`
  unfoldable pub handle_appe : Command → M E Bool
  handle_appe cmd =
      require_auth_and_arg sys cmd
        (require_mode (with_path sys cmd.argument perm_write denied invalid (appe_at cmd.argument)))

  -- `cmd_handle_list` and `cmd_handle_nlst` from their path on; they take no lock.
  unfoldable pub listing_at : Operation → Bytes → Bytes → M E Bool
  listing_at operation message path = do
    there ← ask (sys.path_exists path)
    if not there
        then refuse sys (codes "Path not found")
        else do a ← begin_transfer false false operation path 0 message; clean_up false path a

  unfoldable pub handle_listing : Operation → Bytes → Command → M E Bool
  handle_listing operation message cmd = require_auth sys (
      require_mode (
        with_path sys (if cmd.has_argument then cmd.argument else codes ".") perm_read denied
          invalid (listing_at operation message)))

  -- `cmd_handle_list` and `cmd_handle_nlst`
  unfoldable pub handle_list : Command → M E Bool
  handle_list cmd =
      handle_listing send_list (codes "Opening data connection for directory listing") cmd

  unfoldable pub handle_nlst : Command → M E Bool
  handle_nlst cmd = handle_listing send_nlst (codes "Opening data connection for name list") cmd
