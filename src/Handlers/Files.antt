-- ===== src/Handlers/Files.antt =====
-- server/src/handler.c: the handlers that make, remove and rename files, and those that tell about them.
use simple_ftp.Base.{ℕ, Bool, true, false, not, Option, none, some, ◌++◌, if◌then◌else◌}
use simple_ftp.CString.{Bytes, codes, decimal}
use simple_ftp.Protocol.Codes.{
  resp_ok, resp_system_status, resp_file_status, resp_system_type, resp_data_conn_open_no_transfer,
  resp_file_action_ok, resp_path_created, resp_file_action_pending, resp_conn_closed,
  resp_file_action_aborted, resp_local_error, resp_bad_command_sequence, resp_file_unavailable,
}
use simple_ftp.Protocol.Types.{Command}
use simple_ftp.Auth.{perm_read, perm_delete, perm_rename, perm_mkdir, perm_rmdir}
use simple_ftp.Filesys.{parent_directory}
use simple_ftp.Session.Path.{max_path}
use simple_ftp.Session.State.{
  ThreadState, idle, starting, running, completing, aborted, set_rename_from, get_rename_from,
  clear_rename_state, put_transfer_should_abort,
}
use simple_ftp.Session.Access.{get_current_directory}
use simple_ftp.Handlers.{
  Platform, M, pure, ◌>>=◌, gets, modify, ask, line_text, reply, reply_multiline, close_data,
  require_auth, require_auth_and_arg, require_no_argument, with_path, with_exclusive, change,
  try_lock, release_lock, make_directory, remove_directory, delete, rename_from,
}

abbrev pub denied : Bytes
denied = codes "Permission denied"

abbrev pub invalid : Bytes
invalid = codes "Invalid path"

abbrev pub quoted : Bytes → Bytes → Bytes
quoted path rest = line_text (codes "\"" ++ (path ++ (codes "\"" ++ rest)))

abbrev pub is_running : ThreadState → Bool
is_running running = true
is_running idle = false
is_running starting = false
is_running completing = false
is_running aborted = false

module _ {E : Type 0} (sys : Platform E) where
  -- The reply of a refusal.
  abbrev pub refuse : Bytes → M E Bool
  refuse message = reply sys resp_file_unavailable message

  -- `cmd_handle_mkd` from its path on
  unfoldable pub make_at : Bytes → Bytes → M E Bool
  make_at argument path = do
    there ← ask (sys.path_exists path)
    if there then refuse (codes "Directory already exists") else do
      made ← change sys make_directory path
      if not made
          then refuse (codes "Failed to create directory")
          else reply sys resp_path_created (quoted argument (codes " directory created"))

  -- `cmd_handle_mkd`
  unfoldable pub handle_mkd : Command → M E Bool
  handle_mkd cmd =
      require_auth_and_arg sys cmd
        (with_path sys cmd.argument perm_mkdir denied invalid (make_at cmd.argument))

  -- `cmd_handle_rmd` from its path on
  unfoldable pub remove_at : Bytes → M E Bool
  remove_at path = do
    there ← ask (sys.path_exists path)
    if not there then refuse (codes "Directory not found") else do
      directory ← ask (sys.is_directory path)
      if not directory then refuse (codes "Path is not a directory") else do
        removed ← change sys remove_directory path
        if not removed
            then refuse (codes "Failed to remove directory")
            else reply sys resp_file_action_ok (codes "Directory removed")

  -- `cmd_handle_rmd`
  unfoldable pub handle_rmd : Command → M E Bool
  handle_rmd cmd =
      require_auth_and_arg sys cmd (with_path sys cmd.argument perm_rmdir denied invalid remove_at)

  -- `cmd_handle_rnfr` from its path on; `session_set_rename_from` cannot fail here.
  unfoldable pub rename_source : Bytes → M E Bool
  rename_source path = do
    there ← ask (sys.path_exists path)
    if not there then refuse (codes "File or directory not found") else do
      acquired ← try_lock sys true path
      if not acquired
          then reply sys resp_file_action_aborted (codes "File is busy, try again later")
          else do
            released ← release_lock true path
            stored ← modify (set_rename_from path)
            if not stored
                then reply sys resp_local_error (codes "Failed to store rename source")
                else reply sys resp_file_action_pending
                    (codes "File exists, ready for destination name")

  -- `cmd_handle_rnfr`
  unfoldable pub handle_rnfr : Command → M E Bool
  handle_rnfr cmd =
      require_auth_and_arg sys cmd
        (with_path sys cmd.argument perm_rename denied invalid rename_source)

  -- The body under the lock in `cmd_handle_rnto`.
  unfoldable pub rename_locked : Bytes → Bytes → M E Bool
  rename_locked from_path to_path = do
    there ← ask (sys.path_exists from_path)
    if not there then refuse (codes "Source file no longer exists") else do
      taken ← ask (sys.path_exists to_path)
      if taken then refuse (codes "Destination already exists") else do
        renamed ← change sys (rename_from from_path) to_path
        if not renamed
            then refuse (codes "Rename failed")
            else reply sys resp_file_action_ok (codes "Rename successful")

  -- `cmd_handle_rnto` from its `do` on
  unfoldable pub rename_to : Bytes → Bytes → M E Bool
  rename_to from_path to_path = do
    response ← with_exclusive sys from_path (rename_locked from_path to_path)
    cleared ← modify clear_rename_state
    pure response

  -- The tests of the destination's parent directory, if it has one.
  unfoldable pub with_parent : Option Bytes → M E Bool → M E Bool
  with_parent none rest = rest
  with_parent (some parent) rest = do
    there ← ask (sys.path_exists parent)
    if not there then refuse (codes "Destination directory does not exist") else do
      directory ← ask (sys.is_directory parent)
      if not directory then refuse (codes "Invalid destination path") else rest

  -- `cmd_handle_rnto` from its destination's path on
  unfoldable pub rename_at : Bytes → Bytes → M E Bool
  rename_at from_path to_path = do
    taken ← ask (sys.path_exists to_path)
    if taken
        then refuse (codes "Destination already exists")
        else with_parent (parent_directory max_path to_path) (rename_to from_path to_path)

  unfoldable pub rename_stored : Bytes → Option Bytes → M E Bool
  rename_stored argument none =
      reply sys resp_bad_command_sequence (codes "Bad sequence of commands (use RNFR first)")
  rename_stored argument (some from_path) =
      with_path sys argument perm_rename (codes "Permission denied for destination")
        (codes "Invalid destination path") (rename_at from_path)

  -- `cmd_handle_rnto`
  unfoldable pub handle_rnto : Command → M E Bool
  handle_rnto cmd =
      require_auth_and_arg sys cmd
        (do source ← gets (get_rename_from max_path); rename_stored cmd.argument source)

  -- The body under the lock in `cmd_handle_dele`.
  unfoldable pub delete_locked : Bytes → M E Bool
  delete_locked path = do
    there ← ask (sys.path_exists path)
    if not there then refuse (codes "File no longer exists") else do
      directory ← ask (sys.is_directory path)
      if directory then refuse (codes "Cannot delete directory with DELE (use RMD)") else do
        deleted ← change sys delete path
        if not deleted
            then refuse (codes "Failed to delete file")
            else reply sys resp_file_action_ok (codes "File deleted")

  -- The two tests that DELE, SIZE and MDTM make of their path.
  unfoldable pub with_file : Bytes → Bytes → M E Bool → M E Bool
  with_file path message rest = do
    there ← ask (sys.path_exists path)
    if not there
        then refuse (codes "File not found")
        else do directory ← ask (sys.is_directory path); if directory then refuse message else rest

  -- `cmd_handle_dele` from its path on
  unfoldable pub delete_at : Bytes → M E Bool
  delete_at path =
      with_file path (codes "Cannot delete directory with DELE (use RMD)")
        (with_exclusive sys path (delete_locked path))

  -- `cmd_handle_dele`
  unfoldable pub handle_dele : Command → M E Bool
  handle_dele cmd =
      require_auth_and_arg sys cmd (with_path sys cmd.argument perm_delete denied invalid delete_at)

  unfoldable pub tell : (ℕ → Bytes) → Option ℕ → M E Bool
  tell text none = refuse (codes "Cannot read file")
  tell text (some n) = reply sys resp_file_status (line_text (text n))

  -- `cmd_handle_size` and `cmd_handle_mdtm` from their path on: what `question` answers while a shared
  -- lock is held, in `text`.
  unfoldable pub ask_locked : Bytes → (E → Option ℕ × E) → (ℕ → Bytes) → M E Bool
  ask_locked path question text = do
    acquired ← try_lock sys false path
    if not acquired
        then reply sys resp_file_action_aborted (codes "File is busy, try again later")
        else do answer ← ask question; released ← release_lock false path; tell text answer

  -- `cmd_handle_size`
  unfoldable pub handle_size : Command → M E Bool
  handle_size cmd = require_auth_and_arg sys cmd (
      with_path sys cmd.argument perm_read denied invalid (λ path.
        with_file path (codes "Cannot get size of a directory")
          (ask_locked path (sys.get_file_size path) decimal)))

  -- `cmd_handle_mdtm`
  unfoldable pub handle_mdtm : Command → M E Bool
  handle_mdtm cmd = require_auth_and_arg sys cmd (
      with_path sys cmd.argument perm_read denied invalid (λ path.
        with_file path (codes "Cannot get modification time of a directory")
          (ask_locked path (sys.get_file_mtime path) sys.format_time)))

  unfoldable pub tell_directory : Option Bytes → M E Bool
  tell_directory none = reply sys resp_local_error (codes "Failed to get current directory")
  tell_directory (some cwd) =
      reply sys resp_path_created (quoted cwd (codes " is current directory"))

  -- `cmd_handle_pwd`
  unfoldable pub handle_pwd : Command → M E Bool
  handle_pwd cmd = require_auth sys (
      require_no_argument sys cmd (codes "PWD does not take parameters")
        (do cwd ← gets (get_current_directory 992); tell_directory cwd))

  -- `cmd_handle_abor`
  unfoldable pub handle_abor : Command → M E Bool
  handle_abor cmd = do
    active ← gets (λ s. is_running s.transfer_thread_state)
    if not active
        then (do
          closed ← close_data sys
          reply sys resp_data_conn_open_no_transfer (codes "No transfer in progress"))
        else do
          marked ← modify (put_transfer_should_abort true)
          closed ← close_data sys
          reply sys resp_conn_closed (codes "Data connection closed; transfer aborted")

  -- `cmd_handle_syst` and `cmd_handle_noop`
  unfoldable pub handle_syst : Command → M E Bool
  handle_syst cmd = reply sys resp_system_type (codes "UNIX Type: L8")

  unfoldable pub handle_noop : Command → M E Bool
  handle_noop cmd = reply sys resp_ok (codes "OK")

  -- A line of `cmd_handle_feat`, and what follows if it was sent.
  unfoldable pub feature : Bytes → M E Bool → M E Bool
  feature text rest = do
    sent ← reply_multiline sys resp_system_status text
    if not sent then pure false else rest

  -- `cmd_handle_feat`
  unfoldable pub handle_feat : Command → M E Bool
  handle_feat cmd = feature (codes "Extensions supported:") (
      feature (codes " SIZE") (
        feature (codes " MDTM")
          (feature (codes " REST STREAM") (reply sys resp_system_status (codes "End")))))
