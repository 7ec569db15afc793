-- ===== src/Handlers/Keeps/Login.antt =====
-- The handlers for login, logout and the current directory keep what the laws allow.
use simple_ftp.Base.{refl, Bool, true, Option-cases, inl, inr}
use simple_ftp.CString.{Bytes}
use simple_ftp.Protocol.Types.{Command}
use simple_ftp.Auth.{Permissions}
use simple_ftp.Session.State.{Session, clear_restart_offset, set_user}
use simple_ftp.Session.Access.{change_directory}
use simple_ftp.Handlers.{Platform, World, modify}
use simple_ftp.Handlers.Login.{
  prev_clear_restart, prev_clear_rename, prev_clear_all, attempt, directory_now, name_user,
  user_answer, handle_user, handle_acct, handle_smnt, change_to, handle_cwd, handle_cdup, send_stat,
  send_statistics, say_goodbye, handle_quit,
}
use simple_ftp.Handlers.Keeps.{
  Keeps, Laws, bind-Keeps, if-Keeps, gets-Keeps, time-Keeps, modify-Keeps, clear_rename-Keeps,
  reply-Keeps, multiline-Keeps, auth-Keeps, no_argument-Keeps, auth_arg-Keeps,
}

module _ {E : Type 0} (sys : Platform E) (P : World E → Type 0) (Ok : Permissions → Bytes → Type 0)
    (laws : Laws sys P Ok) where
  pub clear_restart-Keeps : Keeps P (modify clear_restart_offset)
  unfolding clear_restart_offset
  clear_restart-Keeps = modify-Keeps sys P Ok laws clear_restart_offset (λ s. refl)

  pub prev_restart-Keeps : Keeps P prev_clear_restart
  unfolding prev_clear_restart
  prev_restart-Keeps = clear_restart-Keeps

  pub prev_rename-Keeps : Keeps P prev_clear_rename
  unfolding prev_clear_rename
  prev_rename-Keeps = clear_rename-Keeps sys P Ok laws

  pub prev_all-Keeps : Keeps P prev_clear_all
  unfolding prev_clear_all
  prev_all-Keeps = search (bind-Keeps, clear_restart-Keeps, clear_rename-Keeps sys P Ok laws)

  name_user-Keeps : (name message : Bytes) → Keeps P (name_user sys name message)
  unfolding name_user set_user
  name_user-Keeps name message =
      bind-Keeps P (modify (set_user name)) _
        (modify-Keeps sys P Ok laws (set_user name) (λ s. refl))
        (λ a. reply-Keeps sys P Ok laws _ message)

  user_answer-Keeps : (cmd : Command) (a b : Bool) → Keeps P (user_answer sys cmd a b)
  unfolding user_answer
  user_answer-Keeps cmd a b = search (if-Keeps, reply-Keeps sys P Ok laws, name_user-Keeps)

  pub user-Keeps : (cmd : Command) → Keeps P (handle_user sys cmd)
  unfolding handle_user Keeps
  user-Keeps cmd w h = user_answer-Keeps cmd _ _ w h

  pub acct-Keeps : (cmd : Command) → Keeps P (handle_acct sys cmd)
  unfolding handle_acct
  acct-Keeps cmd = reply-Keeps sys P Ok laws _ _

  pub smnt-Keeps : (cmd : Command) → Keeps P (handle_smnt sys cmd)
  unfolding handle_smnt
  smnt-Keeps cmd = reply-Keeps sys P Ok laws _ _

  move-Keeps :
      (path : Bytes)
      → Keeps P (attempt (λ w. change_directory (directory_now sys w) path w.session))
  unfolding Keeps attempt
  move-Keeps path w h =
      elim (Option-cases (change_directory (directory_now sys w) path w.session)) [
        | inl stays ↦ rw (attempt, stays) h
        | inr (s, moved) ↦ rw (attempt, moved) (laws.moved w (directory_now sys w) path s h moved)
      ]

  change_to-Keeps : (path failure : Bytes) → Keeps P (change_to sys path failure)
  unfolding change_to
  change_to-Keeps path failure =
      search (bind-Keeps, if-Keeps, move-Keeps, reply-Keeps sys P Ok laws)

  pub cwd-Keeps : (cmd : Command) → Keeps P (handle_cwd sys cmd)
  unfolding handle_cwd
  cwd-Keeps cmd = search (auth_arg-Keeps sys P Ok laws, change_to-Keeps)

  pub cdup-Keeps : (cmd : Command) → Keeps P (handle_cdup sys cmd)
  unfolding handle_cdup
  cdup-Keeps cmd =
      search (auth-Keeps sys P Ok laws, no_argument-Keeps sys P Ok laws, change_to-Keeps)

  stat-Keeps : (text : Bytes) → Keeps P (send_stat sys text)
  unfolding send_stat
  stat-Keeps text = multiline-Keeps sys P Ok laws _ _

  statistics-Keeps : (s : Session) (duration : Bytes) → Keeps P (send_statistics sys s duration)
  unfolding send_statistics
  statistics-Keeps s duration =
      search (bind-Keeps, stat-Keeps, multiline-Keeps sys P Ok laws, reply-Keeps sys P Ok laws)
        depth 20

  marked-Keeps : Keeps P (modify (λ s. record s { should_quit = true }))
  marked-Keeps = modify-Keeps sys P Ok laws _ (λ s. refl)

  goodbye-Keeps : Keeps P (say_goodbye sys)
  unfolding say_goodbye
  goodbye-Keeps = search (
    bind-Keeps,
    if-Keeps,
    time-Keeps sys P Ok laws,
    gets-Keeps,
    marked-Keeps,
    statistics-Keeps,
    reply-Keeps sys P Ok laws,
  )

  pub quit-Keeps : (cmd : Command) → Keeps P (handle_quit sys cmd)
  unfolding handle_quit
  quit-Keeps cmd = no_argument-Keeps sys P Ok laws cmd _ (say_goodbye sys) goodbye-Keeps
