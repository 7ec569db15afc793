-- ===== src/Handlers/Restricted.antt =====
-- What a client can do before login, and when a rename that RNFR began is forgotten.

use simple_ftp.Base.{
  ℕ, ◌≡◌, refl, ap, subst, ◌∙◌, Bool, true, false, not, ◌&&◌, ◌||◌, Option, none, some, some_inj,
  List, [], ◌∷◌, Bool-cases, Option-cases, &&-true, inl, inr, arith,
}
use simple_ftp.CString.{Bytes, codes, toupper, str_eq}
use simple_ftp.Protocol.Codes.{resp_not_logged_in}
use simple_ftp.Protocol.Types.{Command, max_response_line}
use simple_ftp.Protocol.Response.{format_response}
use simple_ftp.Commands.{
  HandlerEntry, cmd_init, clear_handlers, cmd_upper, index_of, find_handler_index, update_at,
  fill_handler, register_handler, is_handler, lookup, call_handler, after_prev, dispatch_to,
  dispatch,
}
use simple_ftp.Commands.Standard.{
  Handler, clear_rename, clear_all, pass, cwd, cdup, rein, port, pasv, type, stru, mode, rest, stor,
  retr, appe, list, nlst, rnfr, rnto, dele, rmd, mkd, pwd, noop, feat, size, mdtm, standard,
  register_all, register_standard_handlers,
}
use simple_ftp.Session.Path.{max_path}
use simple_ftp.Session.State.{Session, get_rename_from, reset_state, clear_rename_state}
use simple_ftp.Session.Access.{session_authenticate}
use simple_ftp.Session.Access.Directory.{change_directory-pending}
use simple_ftp.Session.Access.Login.{session_authenticate-rename}
use simple_ftp.Handlers.{
  Platform, World, M, pure, ◌>>=◌, gets, modify, send_formatted, send_line, reply, require_auth,
  require_auth_and_arg,
}
use simple_ftp.Handlers.Login.{
  prev_clear_rename, prev_clear_all, attempt, directory_now, handle_cwd, handle_cdup, handle_pass,
  reinitialize, handle_rein,
}
use simple_ftp.Handlers.Parameters.{
  handle_port, handle_pasv, handle_type, handle_stru, handle_mode, handle_rest,
}
use simple_ftp.Handlers.Files.{
  handle_mkd, handle_rmd, handle_rnfr, handle_rnto, handle_dele, handle_size, handle_mdtm,
  handle_pwd,
}
use simple_ftp.Handlers.Transfers.{
  handle_retr, handle_stor, handle_appe, handle_listing, handle_list, handle_nlst,
}
use simple_ftp.Handlers.Run.{handle}
use simple_ftp.Handlers.Keeps.{
  Keeps, Laws, Standing, bind-Keeps, if-Keeps, gets-Keeps, reply-Keeps, close-Keeps,
  no_argument-Keeps,
}
use simple_ftp.Handlers.Keeps.Handled.{handle-Keeps}

-- The commands that are for users who have logged in.
abbrev pub needs_login : Handler → Bool
needs_login cwd = true
needs_login cdup = true
needs_login port = true
needs_login pasv = true
needs_login type = true
needs_login stru = true
needs_login mode = true
needs_login rest = true
needs_login stor = true
needs_login retr = true
needs_login appe = true
needs_login list = true
needs_login nlst = true
needs_login rnfr = true
needs_login rnto = true
needs_login dele = true
needs_login rmd = true
needs_login mkd = true
needs_login pwd = true
needs_login size = true
needs_login mdtm = true
needs_login _ = false

abbrev pub please_login : Bytes
please_login = codes "Please login with USER and PASS"

module _ {E : Type 0} (sys : Platform E) where
  require_auth-refused :
      (next : M E Bool) (w : World E)
      → w.session.authenticated ≡ false
      → require_auth sys next w ≡ reply sys resp_not_logged_in please_login w
  unfolding require_auth ◌>>=◌ gets
  require_auth-refused next w e = rw e refl

  -- A reply changes neither the session, the locks nor the files.
  reply-frame :
      (code : ℕ) (message : Bytes) (w : World E)
      → ((reply sys code message w).1.session ≡ w.session)
        × ((reply sys code message w).1.locks ≡ w.locks)
        × ((reply sys code message w).1.changes ≡ w.changes)
  unfolding reply send_formatted send_line pure
  reply-frame code message w =
      elim (Option-cases (format_response max_response_line code message)) [
        | inl failed ↦ rw failed (refl, refl, refl)
        | inr (line, formatted) ↦ rw formatted (refl, refl, refl)
      ]

  refused :
      (h : Handler) (cmd : Command) (w : World E)
      → needs_login h ≡ true
      → w.session.authenticated ≡ false
      → handle sys h cmd w ≡ reply sys resp_not_logged_in please_login w
  unfolding handle handle_cwd handle_cdup handle_port handle_pasv handle_type handle_stru
      handle_mode handle_rest handle_stor handle_retr handle_appe handle_list handle_nlst
      handle_listing handle_rnfr handle_rnto handle_dele handle_rmd handle_mkd handle_pwd
      handle_size handle_mdtm require_auth_and_arg
  refused cwd cmd w n e = require_auth-refused _ w e
  refused cdup cmd w n e = require_auth-refused _ w e
  refused port cmd w n e = require_auth-refused _ w e
  refused pasv cmd w n e = require_auth-refused _ w e
  refused type cmd w n e = require_auth-refused _ w e
  refused stru cmd w n e = require_auth-refused _ w e
  refused mode cmd w n e = require_auth-refused _ w e
  refused rest cmd w n e = require_auth-refused _ w e
  refused stor cmd w n e = require_auth-refused _ w e
  refused retr cmd w n e = require_auth-refused _ w e
  refused appe cmd w n e = require_auth-refused _ w e
  refused list cmd w n e = require_auth-refused _ w e
  refused nlst cmd w n e = require_auth-refused _ w e
  refused rnfr cmd w n e = require_auth-refused _ w e
  refused rnto cmd w n e = require_auth-refused _ w e
  refused dele cmd w n e = require_auth-refused _ w e
  refused rmd cmd w n e = require_auth-refused _ w e
  refused mkd cmd w n e = require_auth-refused _ w e
  refused pwd cmd w n e = require_auth-refused _ w e
  refused size cmd w n e = require_auth-refused _ w e
  refused mdtm cmd w n e = require_auth-refused _ w e
  refused _ cmd w n e = absurd (cc n)

-- On a session that is not logged in, each of the 21 handlers for paths, transfers and their parameters
-- does exactly what it takes to reply 530, and leaves the session, the locks and the files as they were.
pub handle-refused :
    {E : Type 0} (sys : Platform E) (h : Handler) (cmd : Command) (w : World E)
    → needs_login h ≡ true
    → w.session.authenticated ≡ false
    → (handle sys h cmd w ≡ reply sys resp_not_logged_in please_login w)
      × ((handle sys h cmd w).1.session ≡ w.session)
      × ((handle sys h cmd w).1.locks ≡ w.locks)
      × ((handle sys h cmd w).1.changes ≡ w.changes)
handle-refused sys h cmd w n e =
    let same = refused sys h cmd w n e in
    let (session, locks, changes) = reply-frame sys resp_not_logged_in please_login w in
    rw same (refl, session, locks, changes)

-- The handlers in front of which, or in which, a rename may stay pending.
abbrev pub may_keep_rename : Option Handler → Bool
may_keep_rename (some rnfr) = true
may_keep_rename (some rnto) = true
may_keep_rename (some noop) = true
may_keep_rename (some feat) = true
may_keep_rename _ = false

abbrev clears_pending : Option Handler → Bool
clears_pending (some clear_all) = true
clears_pending (some clear_rename) = true
clears_pending _ = false

unfoldable forgetful : List (HandlerEntry Handler) → Bool
forgetful [] = true
forgetful (e ∷ es) =
    (not e.in_use || clears_pending e.prev_handler || may_keep_rename e.handler) && forgetful es

standard-initialized : standard.initialized ≡ true
unfolding register_standard_handlers register_all register_handler find_handler_index index_of
    is_handler cmd_upper fill_handler update_at cmd_init clear_handlers toupper str_eq
standard-initialized = refl

standard-forgetful : forgetful standard.handlers ≡ true
unfolding forgetful register_standard_handlers register_all register_handler find_handler_index
    index_of is_handler cmd_upper fill_handler update_at cmd_init clear_handlers toupper str_eq
standard-forgetful = refl

lookup-forgetful :
    (name : Bytes) (es : List (HandlerEntry Handler)) {e : HandlerEntry Handler}
    → forgetful es ≡ true
    → lookup name es ≡ some e
    → (clears_pending e.prev_handler || may_keep_rename e.handler) ≡ true
unfolding forgetful lookup is_handler
lookup-forgetful name [] {e} f h = absurd (cc h)
lookup-forgetful name (x ∷ es) {e} f h =
    let (this, others) = &&-true _ (forgetful es) f in
    elim (Bool-cases (is_handler name x)) [
      | inr other ↦ lookup-forgetful name es others (rw other at h)
      | inl found ↦
          let (used, named) = &&-true x.in_use _ found in
          subst
            (λ (y : HandlerEntry Handler).
              (clears_pending y.prev_handler || may_keep_rename y.handler) ≡ true)
            (some_inj (rw found at h)) (rw used at this)
    ]

module _ {E : Type 0} (sys : Platform E) where
  abbrev Quiet : World E → Type 0
  Quiet w = w.session.rename_pending ≡ false

  laws-Quiet : Laws sys Quiet (λ required path. Unit {0})
  unfolding clear_rename_state
  laws-Quiet = record {
    Same = λ d e. Unit {0};
    neutral = record {
      unmoved = λ e. tt;
      compose = λ a b. tt;
      path_exists = λ path e. tt;
      is_directory = λ path e. tt;
      get_file_size = λ path e. tt;
      get_file_mtime = λ path e. tt;
      send_all = λ socket text e. tt;
      get_socket_info = λ socket e. tt;
      listen = λ ip low high e. tt;
      connect = λ ip port e. tt;
      wait_readable = λ socket e. tt;
      accept = λ socket e. tt;
      close_sockets = λ closed e. tt;
      allocate = λ e. tt;
      has_memory = λ e. tt;
      time = λ e. tt;
    };
    outside = λ w e o t m h. h;
    granted = λ w argument required path h a r. tt;
    cut = λ required path a. tt;
    source = λ w path h e. tt;
    kept = λ w s u h. ap (λ (x : Standing). x.rename_pending) u ∙ h;
    cleared = λ w h. refl;
    moved = λ w is_directory path s h e. change_directory-pending is_directory path w.session e ∙ h;
    changed = λ w action path n h. h;
  }

  reply-Quiet : (code : ℕ) (message : Bytes) → Keeps Quiet (reply sys code message)
  reply-Quiet code message = reply-Keeps sys _ _ laws-Quiet code message

  reset-Quiet : Keeps Quiet (modify reset_state)
  unfolding Keeps modify reset_state
  reset-Quiet w h = refl

  rein-Quiet : (cmd : Command) → Keeps Quiet (handle_rein sys cmd)
  unfolding handle_rein reinitialize
  rein-Quiet cmd =
      let close = close-Keeps sys _ _ laws-Quiet in
      let reinitialized : Keeps Quiet (reinitialize sys) =
        search (bind-Keeps, close, reset-Quiet, reply-Quiet) in
      no_argument-Keeps sys _ _ laws-Quiet cmd _ (reinitialize sys) reinitialized

  authenticate-Quiet :
      (password : Bytes)
      → Keeps Quiet
          (attempt (λ w. session_authenticate (directory_now sys w) w.auth password w.session))
  unfolding attempt Keeps
  authenticate-Quiet password w h =
      elim (Option-cases (session_authenticate (directory_now sys w) w.auth password w.session)) [
        | inl failed ↦ rw (attempt, failed) h
        | inr (s, logged) ↦
            rw (attempt, logged)
              (session_authenticate-rename (directory_now sys w) w.auth password w.session logged
                ∙ h)
      ]

  pass-Quiet : (cmd : Command) → Keeps Quiet (handle_pass sys cmd)
  unfolding handle_pass
  pass-Quiet cmd = search (bind-Keeps, if-Keeps, gets-Keeps, authenticate-Quiet, reply-Quiet)

  handle-Quiet :
      (h : Handler) (cmd : Command)
      → may_keep_rename (some h) ≡ false
      → Keeps Quiet (handle sys h cmd)
  unfolding handle
  handle-Quiet pass cmd e = pass-Quiet cmd
  handle-Quiet rein cmd e = rein-Quiet cmd
  handle-Quiet rnfr cmd e = absurd (cc e)
  handle-Quiet h cmd e = handle-Keeps sys _ _ laws-Quiet h cmd refl

  call-Quiet :
      (h : Option Handler) (cmd : Command) (w : World E)
      → may_keep_rename h ≡ false
      → Quiet w
      → Quiet (call_handler (handle sys) h cmd w).1
  unfolding call_handler Keeps
  call-Quiet none cmd w e q = q
  call-Quiet (some h) cmd w e q = handle-Quiet h cmd e w q

  entry-Quiet :
      (name : Bytes) (prev h : Option Handler) (used : Bool) (cmd : Command) (w : World E)
      → clears_pending prev ≡ true
      → may_keep_rename h ≡ false
      → Quiet
          (dispatch_to
            (handle sys)
            (record { command = name; handler = h; prev_handler = prev; in_use = used })
            cmd
            w).1
  unfolding handle prev_clear_all prev_clear_rename modify ◌>>=◌ after_prev clear_rename_state
      dispatch_to
  entry-Quiet name none h used cmd w c e = absurd (cc c)
  entry-Quiet name (some clear_all) h used cmd w c e = call-Quiet h cmd _ e refl
  entry-Quiet name (some clear_rename) h used cmd w c e = call-Quiet h cmd _ e refl
  entry-Quiet name (some _) h used cmd w c e = absurd (cc c)

dispatch-Quiet :
    {E : Type 0} (sys : Platform E) (cmd : Command) (w : World E) {e : HandlerEntry Handler}
    → lookup cmd.command standard.handlers ≡ some e
    → may_keep_rename e.handler ≡ false
    → (dispatch (handle sys) standard cmd w).1.session.rename_pending ≡ false
unfolding dispatch
dispatch-Quiet sys cmd w {e} found other =
    let clears : clears_pending e.prev_handler ≡ true =
      ground
        (arith, lookup-forgetful cmd.command standard.handlers standard-forgetful found, other) in
    elim (Bool-cases standard.initialized) [
      | inr unready ↦ absurd (cc (standard-initialized, unready))
      | inl ready ↦
          rw (ready, found)
            (entry-Quiet sys e.command e.prev_handler e.handler e.in_use cmd w clears other)
    ]

get_rename_from-none : (s : Session) → s.rename_pending ≡ false → get_rename_from max_path s ≡ none
unfolding get_rename_from
get_rename_from-none s quiet = rw quiet refl

-- After the dispatch of any registered command but RNFR, RNTO, NOOP and FEAT, in any state and with any
-- outcome, no rename is pending, and `session_get_rename_from`, which RNTO asks for its source, fails.
pub dispatch-forgets :
    {E : Type 0} (sys : Platform E) (cmd : Command) (w : World E) {e : HandlerEntry Handler}
    → lookup cmd.command standard.handlers ≡ some e
    → may_keep_rename e.handler ≡ false
    → ((dispatch (handle sys) standard cmd w).1.session.rename_pending ≡ false)
      × (get_rename_from max_path (dispatch (handle sys) standard cmd w).1.session ≡ none)
dispatch-forgets sys cmd w {e} found other =
    let quiet = dispatch-Quiet sys cmd w found other in
    (quiet, get_rename_from-none (dispatch (handle sys) standard cmd w).1.session quiet)
