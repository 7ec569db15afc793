-- ===== src/Handlers/Login.antt =====
-- server/src/handler.c: the handlers that run in front of others, and those for login, logout and the
-- current directory.
use simple_ftp.Base.{◌-◌, Bool, true, false, not, ◌&&◌, Option, none, some, [], ◌++◌, if◌then◌else◌}
use simple_ftp.CString.{Bytes, codes, str_eq, strncpy, decimal}
use simple_ftp.Protocol.Codes.{
  resp_service_ready, resp_closing_control, resp_user_logged_in, resp_file_action_ok,
  resp_need_password, resp_syntax_error_param, resp_command_not_impl, resp_bad_command_sequence,
  resp_not_logged_in, resp_file_unavailable,
}
use simple_ftp.Protocol.Types.{Command}
use simple_ftp.Auth.{user_exists}
use simple_ftp.Session.State.{
  Session, SessionState, connected, wait_password, authenticated_state, closing,
  clear_restart_offset, clear_rename_state, set_user, reset_state,
}
use simple_ftp.Session.Access.{change_directory, session_authenticate}
use simple_ftp.Handlers.{
  Platform, World, M, ◌>>=◌, gets, modify, ask, reply, reply_multiline, close_data, require_auth,
  require_auth_and_arg, require_no_argument,
}

-- `cmd_prev_handle_clear_restart`, `cmd_prev_handle_clear_rename` and `cmd_prev_handle_clear_all`
unfoldable pub prev_clear_restart : {E : Type 0} → M E Bool
prev_clear_restart = modify clear_restart_offset

unfoldable pub prev_clear_rename : {E : Type 0} → M E Bool
prev_clear_rename = modify clear_rename_state

unfoldable pub prev_clear_all : {E : Type 0} → M E Bool
prev_clear_all = do restarted ← modify clear_restart_offset; modify clear_rename_state

abbrev pub is_wait_password : SessionState → Bool
is_wait_password wait_password = true
is_wait_password connected = false
is_wait_password authenticated_state = false
is_wait_password closing = false

-- A call that gives the session, or none where it fails.
unfoldable pub attempt : {E : Type 0} → (World E → Option Session) → M E Bool
attempt call w = elim (call w) [ none ↦ (false, w) | some s ↦ (true, record w { session = s }) ]

-- A line of the statistics, in a `char[256]`.
abbrev pub stat_line : Bytes → Bytes
stat_line text = strncpy 256 text

module _ {E : Type 0} (sys : Platform E) where
  -- `fs_is_directory` within a call on the session.
  abbrev pub directory_now : World E → Bytes → Bool
  directory_now w path = (sys.is_directory path w.env).0

  -- `session_set_user` and the reply to it.
  unfoldable pub name_user : Bytes → Bytes → M E Bool
  name_user name message = do named ← modify (set_user name); reply sys resp_need_password message

  -- `cmd_handle_user`, with the answers of `auth_user_exists` and `auth_is_anonymous_enabled`
  unfoldable pub user_answer : Command → Bool → Bool → M E Bool
  user_answer cmd exists anonymous_enabled =
      let is_anonymous = str_eq cmd.argument (codes "anonymous") in
      if not cmd.has_argument
      then reply sys resp_syntax_error_param (codes "Syntax error in parameters")
      else if not is_anonymous && not exists
      then reply sys resp_not_logged_in (codes "User not found")
      else if is_anonymous && not anonymous_enabled
      then reply sys resp_not_logged_in (codes "Anonymous login not allowed")
      else if is_anonymous
      then name_user cmd.argument (codes "Anonymous login OK, send your email as password")
      else name_user cmd.argument (codes "Username OK, need password")

  unfoldable pub handle_user : Command → M E Bool
  handle_user cmd w = user_answer cmd (user_exists cmd.argument w.auth) w.auth.anonymous_enabled w

  -- `cmd_handle_pass`
  unfoldable pub handle_pass : Command → M E Bool
  handle_pass cmd = do
    waiting ← gets (λ s. is_wait_password s.state)
    if not waiting then reply sys resp_bad_command_sequence (codes "Login with USER first") else do
      let password = if cmd.has_argument then cmd.argument else []
      accepted ← attempt (λ w. session_authenticate (directory_now w) w.auth password w.session)
      if not accepted
          then reply sys resp_not_logged_in (codes "Login incorrect")
          else reply sys resp_user_logged_in (codes "User logged in, proceed")

  -- `cmd_handle_acct` and `cmd_handle_smnt`
  unfoldable pub handle_acct : Command → M E Bool
  handle_acct cmd = reply sys resp_command_not_impl (codes "ACCT not implemented")

  unfoldable pub handle_smnt : Command → M E Bool
  handle_smnt cmd = reply sys resp_command_not_impl (codes "SMNT not implemented")

  -- `session_change_directory`, and the two replies to it.
  unfoldable pub change_to : Bytes → Bytes → M E Bool
  change_to path failure = do
    changed ← attempt (λ w. change_directory (directory_now w) path w.session)
    if not changed
        then reply sys resp_file_unavailable failure
        else reply sys resp_file_action_ok (codes "Directory successfully changed")

  -- `cmd_handle_cwd`
  unfoldable pub handle_cwd : Command → M E Bool
  handle_cwd cmd =
      require_auth_and_arg sys cmd (change_to cmd.argument (codes "Failed to change directory"))

  -- `cmd_handle_cdup`
  unfoldable pub handle_cdup : Command → M E Bool
  handle_cdup cmd = require_auth sys (
      require_no_argument sys cmd (codes "CDUP does not take parameters")
        (change_to (codes "..") (codes "Failed to change to parent directory")))

  -- One line of the statistics.
  unfoldable pub send_stat : Bytes → M E Bool
  send_stat text = reply_multiline sys resp_closing_control (stat_line text)

  -- The statistics that QUIT sends to a user who is logged in; the results of the replies are not
  -- looked at.
  unfoldable pub send_statistics : Session → Bytes → M E Bool
  send_statistics s duration = do
    r0 ← reply_multiline sys resp_closing_control (codes "Goodbye! Session statistics:")
    r1 ← send_stat (codes "  Data uploaded: " ++ (decimal s.bytes_uploaded ++ codes " bytes"))
    r2 ← send_stat (codes "  Data downloaded: " ++ (decimal s.bytes_downloaded ++ codes " bytes"))
    r3 ← send_stat (codes "  Files uploaded: " ++ decimal s.files_uploaded)
    r4 ← send_stat (codes "  Files downloaded: " ++ decimal s.files_downloaded)
    r5 ← send_stat (codes "  Commands received: " ++ decimal s.commands_received)
    r6 ← send_stat (codes "  Session duration: " ++ (duration ++ codes " seconds"))
    reply sys resp_closing_control (codes "Closing connection")

  -- `cmd_handle_quit` after its test, for a clock that does not go back.
  unfoldable pub say_goodbye : M E Bool
  say_goodbye = do
    now ← ask sys.time
    s ← gets (λ s. s)
    let duration = decimal (now - s.connect_time)
    marked ← modify (λ s. record s { should_quit = true })
    if s.authenticated
        then send_statistics s duration
        else reply sys resp_closing_control
            (stat_line (codes "Goodbye. Session duration: " ++ (duration ++ codes " seconds")))

  -- `cmd_handle_quit`
  unfoldable pub handle_quit : Command → M E Bool
  handle_quit cmd = require_no_argument sys cmd (codes "QUIT does not take parameters") say_goodbye

  -- `cmd_handle_rein` after its test
  unfoldable pub reinitialize : M E Bool
  reinitialize = do
    closed ← close_data sys
    fresh ← modify reset_state
    reply sys resp_service_ready (codes "Service ready for new user")

  -- `cmd_handle_rein`
  unfoldable pub handle_rein : Command → M E Bool
  handle_rein cmd = require_no_argument sys cmd (codes "REIN does not take parameters") reinitialize
