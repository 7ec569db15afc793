-- ===== src/Handlers/Served.antt =====
-- The changes of files that one client's commands make, dispatched through the table that the server
-- starts with.

use simple_ftp.Base.{
  ℕ, ◌≡◌, refl, sym, subst, Bool, true, false, not, ◌&&◌, ◌||◌, Option, none, some, some_inj, List,
  [], ◌∷◌, if◌then◌else◌, All, Bool-cases, Option-cases, &&-true, inl, inr, arith,
}
use simple_ftp.CString.{Bytes, codes, strncpy, toupper, str_eq}
use simple_ftp.Protocol.Codes.{resp_not_logged_in, resp_user_logged_in}
use simple_ftp.Protocol.Types.{Command}
use simple_ftp.Auth.{Auth}
use simple_ftp.FileLock.{Table}
use simple_ftp.Commands.{
  HandlerEntry, Registry, cmd_init, clear_handlers, cmd_upper, index_of, find_handler_index,
  update_at, fill_handler, register_handler, is_handler, lookup, call_handler, after_prev,
  dispatch_to, dispatch,
}
use simple_ftp.Commands.Standard.{
  Handler, clear_restart, clear_rename, clear_all, pass, rein, rnfr, standard, register_all,
  register_standard_handlers,
}
use simple_ftp.Session.Path.{max_path, is_absolute}
use simple_ftp.Session.State.{Session, Socket, create, reset_state, clear_rename_state}
use simple_ftp.Session.Access.{session_authenticate}
use simple_ftp.Session.Access.Login.{session_authenticate-rename}
use simple_ftp.Session.Calls.{HasHomes, IsPlaced, pass-IsPlaced, or_before}
use simple_ftp.Handlers.{
  Platform, FileCall, World, M, ◌>>=◌, gets, modify, reply, close_data, require_no_argument,
}
use simple_ftp.Handlers.Login.{
  prev_clear_all, prev_clear_restart, prev_clear_rename, is_wait_password, attempt, directory_now,
  handle_pass, reinitialize, handle_rein,
}
use simple_ftp.Handlers.Files.{handle_rnfr}
use simple_ftp.Transfer.{ThreadMove, thread_move}
use simple_ftp.Transfer.Keeps.{thread_move-Keeps}
use simple_ftp.Handlers.Run.{handle, Event, command, thread, serve_one, serve}
use simple_ftp.Handlers.Keeps.{Keeps, bind-Keeps, reply-Keeps, close-Keeps}
use simple_ftp.Handlers.Keeps.Files.{rnfr-Keeps}
use simple_ftp.Handlers.Keeps.Handled.{is_special, handle-Keeps}
use simple_ftp.Handlers.Authorised.{
  Records, calls_of, credentials, Authorised, Good, laws-Good, stored-Good,
}

-- An entry with PASS clears the rename first.
abbrev pub runs_pass : Option Handler → Bool
runs_pass (some pass) = true
runs_pass _ = false

abbrev pub clears_all : Option Handler → Bool
clears_all (some clear_all) = true
clears_all _ = false

abbrev pub is_clear : Option Handler → Bool
is_clear none = true
is_clear (some clear_all) = true
is_clear (some clear_restart) = true
is_clear (some clear_rename) = true
is_clear _ = false

abbrev pub is_safe : HandlerEntry Handler → Bool
is_safe e = is_clear e.prev_handler && (clears_all e.prev_handler || not (runs_pass e.handler))

unfoldable pub are_safe : List (HandlerEntry Handler) → Bool
are_safe [] = true
are_safe (e ∷ es) = is_safe e && are_safe es

lookup-is_safe :
    (name : Bytes) (es : List (HandlerEntry Handler)) {e : HandlerEntry Handler}
    → are_safe es ≡ true
    → lookup name es ≡ some e
    → is_safe e ≡ true
unfolding are_safe lookup
lookup-is_safe name [] {e} safe h = absurd (cc h)
lookup-is_safe name (x ∷ es) {e} safe h =
    let (this, others) = &&-true (is_safe x) (are_safe es) safe in
    elim (Bool-cases (is_handler name x)) [
      | inl found ↦ subst (λ y. is_safe y ≡ true) (some_inj (rw found at h)) this
      | inr other ↦ lookup-is_safe name es others (rw other at h)
    ]

module _ {E : Type 0} (sys : Platform E) (log : E → List FileCall) (records : Records sys log)
    (root : Bytes) where
  abbrev pub Sound : World E → Type 0
  Sound w = Good log root (credentials w.session) w

  -- What keeps `Good` for every credentials keeps it for those of the moment.
  pub laws-Sound :
      {A : Type 0} (m : M E A)
      → ((w : World E) → Keeps (Good log root (credentials w.session)) m)
      → Keeps Sound m
  unfolding Keeps
  laws-Sound m k w h =
      let after = k w w h in subst (λ x. Good log root x (m w).1) (sym after.same) after

  pub reply-Sound : (code : ℕ) (message : Bytes) → Keeps Sound (reply sys code message)
  reply-Sound code message = laws-Sound (reply sys code message) (λ w.
      reply-Keeps sys _ _ (laws-Good sys log records root (credentials w.session)) code message)

  pub thread-Sound : (m : ThreadMove) → Keeps Sound (thread_move sys m)
  thread-Sound m =
      laws-Sound (thread_move sys m)
        (λ w. thread_move-Keeps sys _ _ (laws-Good sys log records root (credentials w.session)) m)

  reset-Sound : Keeps Sound (modify reset_state)
  unfolding Keeps modify reset_state is_absolute
  reset-Sound w h = record {
    same = refl;
    rooted = h.rooted;
    placed = refl;
    pending = λ p. absurd (cc p);
    homes = h.homes;
    changes = h.changes;
    logged = h.logged;
  }

  close-Sound : Keeps Sound (close_data sys)
  close-Sound =
      laws-Sound (close_data sys)
        (λ w. close-Keeps sys _ _ (laws-Good sys log records root (credentials w.session)))

  reinitialize-Sound : Keeps Sound (reinitialize sys)
  unfolding reinitialize
  reinitialize-Sound = search (bind-Keeps, close-Sound, reset-Sound, reply-Sound)

  rein-Sound : (cmd : Command) → Keeps Sound (handle_rein sys cmd)
  unfolding handle_rein require_no_argument Keeps
  rein-Sound cmd w h = elim (Bool-cases cmd.has_argument) [
    | inl given ↦ rw given (reply-Sound _ _ w h)
    | inr bare ↦ rw bare (reinitialize-Sound w h)
  ]

  authenticated-Sound :
      (password : Bytes) (w : World E)
      → w.session.rename_pending ≡ false
      → Sound w
      → Sound
          (attempt (λ x. session_authenticate (directory_now sys x) x.auth password x.session) w).1
  unfolding attempt
  authenticated-Sound password w quiet h =
      elim (Option-cases (session_authenticate (directory_now sys w) w.auth password w.session)) [
        | inl failed ↦ rw (attempt, failed) h
        | inr (s, logged) ↦
            let placed =
              pass-IsPlaced (directory_now sys w) w.auth root password w.session h.homes
                (h.placed, h.rooted) in
            let (absolute, rooted) =
              subst (λ o. IsPlaced (directory_now sys w) w.auth root (or_before w.session o)) logged
                placed in
            rw (attempt, logged)
              (record {
                same = refl;
                rooted = rooted;
                placed = absolute;
                pending = λ p. absurd (
                    cc (
                      session_authenticate-rename (directory_now sys w) w.auth password w.session
                          logged,
                      quiet,
                      p,
                    ));
                homes = h.homes;
                changes = h.changes;
                logged = h.logged;
              })
      ]

  pass-Sound :
      (cmd : Command) (w : World E)
      → w.session.rename_pending ≡ false
      → Sound w
      → Sound (handle_pass sys cmd w).1
  unfolding handle_pass ◌>>=◌ gets Keeps
  pass-Sound cmd w quiet h = elim (Bool-cases (is_wait_password w.session.state)) [
    | inr early ↦ rw early (reply-Sound _ _ w h)
    | inl waiting ↦
        let password = if cmd.has_argument then cmd.argument else [] in
        let call : M E Bool =
          attempt (λ x. session_authenticate (directory_now sys x) x.auth password x.session) in
        rw waiting (of_answer (call w).0 (call w).1 (authenticated-Sound password w quiet h))
  ]
    where
      of_answer :
          (accepted : Bool) (x : World E)
          → Sound x
          → Sound
              ((if not accepted
                  then reply sys resp_not_logged_in (codes "Login incorrect")
                  else reply sys resp_user_logged_in (codes "User logged in, proceed"))
                x).1
      of_answer true x k = reply-Sound _ _ x k
      of_answer false x k = reply-Sound _ _ x k

  rnfr-Sound : (cmd : Command) → Keeps Sound (handle_rnfr sys cmd)
  rnfr-Sound cmd = laws-Sound (handle_rnfr sys cmd) (λ w.
      rnfr-Keeps sys _ _ (laws-Good sys log records root (credentials w.session))
        (stored-Good sys log records root (credentials w.session)) cmd)

  handle-Sound :
      (h : Handler) (cmd : Command) (w : World E)
      → (runs_pass (some h) ≡ true → w.session.rename_pending ≡ false)
      → Sound w
      → Sound (handle sys h cmd w).1
  unfolding handle Keeps
  handle-Sound pass cmd w quiet s = pass-Sound cmd w (quiet refl) s
  handle-Sound rein cmd w quiet s = rein-Sound cmd w s
  handle-Sound rnfr cmd w quiet s = rnfr-Sound cmd w s
  handle-Sound h cmd w quiet s = other-Sound h cmd refl w s
    where
      other-Sound :
          (x : Handler) (c : Command) → is_special x ≡ false → Keeps Sound (handle sys x c)
      other-Sound x c e =
          laws-Sound (handle sys x c) (λ v.
            handle-Keeps sys _ _ (laws-Good sys log records root (credentials v.session)) x c e)

  call-Sound :
      (h : Option Handler) (cmd : Command) (w : World E)
      → (runs_pass h ≡ true → w.session.rename_pending ≡ false)
      → Sound w
      → Sound (call_handler (handle sys) h cmd w).1
  unfolding call_handler
  call-Sound none cmd w quiet s = s
  call-Sound (some h) cmd w quiet s = handle-Sound h cmd w quiet s

  entry-Sound :
      (name : Bytes) (prev h : Option Handler) (used : Bool) (cmd : Command) (w : World E)
      → is_clear prev ≡ true
      → (clears_all prev || not (runs_pass h)) ≡ true
      → Sound w
      → Sound
          (dispatch_to
            (handle sys)
            (record { command = name; handler = h; prev_handler = prev; in_use = used })
            cmd
            w).1
  unfolding handle prev_clear_all prev_clear_restart prev_clear_rename modify ◌>>=◌ after_prev
      clear_rename_state dispatch_to
  entry-Sound name none h used cmd w clear safe s =
      call-Sound h cmd w (λ p. absurd (ground (arith, p, safe))) s
  entry-Sound name (some clear_all) h used cmd w clear safe s =
      call-Sound h cmd _ (λ p. refl) (handle-Sound clear_all cmd w (λ p. absurd (cc p)) s)
  entry-Sound name (some clear_restart) h used cmd w clear safe s =
      call-Sound h cmd _ (λ p. absurd (ground (arith, p, safe)))
        (handle-Sound clear_restart cmd w (λ p. absurd (cc p)) s)
  entry-Sound name (some clear_rename) h used cmd w clear safe s =
      call-Sound h cmd _ (λ p. absurd (ground (arith, p, safe)))
        (handle-Sound clear_rename cmd w (λ p. absurd (cc p)) s)
  entry-Sound name (some _) h used cmd w clear safe s = absurd (cc clear)

  pub dispatch-Sound :
      (r : Registry Handler) (cmd : Command) (w : World E)
      → are_safe r.handlers ≡ true
      → Sound w
      → Sound (dispatch (handle sys) r cmd w).1
  unfolding dispatch dispatch_to
  dispatch-Sound r cmd w safe s = elim (Bool-cases r.initialized) [
    | inr unready ↦ rw unready s
    | inl ready ↦ elim (Option-cases (lookup cmd.command r.handlers)) [
      | inl unknown ↦ rw (ready, unknown) s
      | inr (e, found) ↦
          let (clear, quiet) = &&-true _ _ (lookup-is_safe cmd.command r.handlers safe found) in
          rw (ready, found)
            (entry-Sound e.command e.prev_handler e.handler e.in_use cmd w clear quiet s)
    ]
  ]

  pub serve-Sound :
      (r : Registry Handler) (es : List Event) (w : World E)
      → are_safe r.handlers ≡ true
      → Sound w
      → Sound (serve sys r es w)
  unfolding serve serve_one Keeps
  serve-Sound r [] w safe s = s
  serve-Sound r (command cmd ∷ es) w safe s =
      serve-Sound r es (dispatch (handle sys) r cmd w).1 safe (dispatch-Sound r cmd w safe s)
  serve-Sound r (thread m ∷ es) w safe s =
      serve-Sound r es (thread_move sys m w).1 safe (thread-Sound m w s)

pub standard-are_safe : are_safe standard.handlers ≡ true
unfolding are_safe register_standard_handlers register_all register_handler find_handler_index
    index_of is_handler cmd_upper fill_handler update_at cmd_init clear_handlers toupper str_eq
standard-are_safe = refl

-- The world of a new session.
abbrev pub begin : {E : Type 0} → Session → Table → Auth → E → World E
begin s locks auth env = record {
  session = s;
  locks = locks;
  auth = auth;
  env = env;
  output = [];
  changes = [];
}

-- The world of the session that `session_create` gives.
pub create-Good :
    {E : Type 0} (log : E → List FileCall) (is_directory : Bytes → Bool) (auth : Auth)
    (socket : Socket) (client_ip : Bytes) (client_port : ℕ) (root : Bytes) (bind : Option Bytes)
    (now : ℕ) {s : Session} (locks : Table) (env : E)
    → log env ≡ []
    → HasHomes is_directory auth
    → create is_directory socket client_ip client_port root bind now ≡ some s
    → Good log (strncpy max_path root) (credentials s) (begin s locks auth env)
unfolding create reset_state is_absolute
create-Good log is_directory auth none client_ip client_port root bind now locks env fresh homes e =
    absurd (cc e)
create-Good log is_directory auth (some n) client_ip client_port root bind now locks env fresh homes
      e =
    elim (Bool-cases (is_directory (strncpy max_path root))) [
      | inr missing ↦ absurd (cc (rw missing at e))
      | inl there ↦
          subst
            (λ (x : Session).
              Good log (strncpy max_path root) (credentials x) (begin x locks auth env))
            (some_inj (rw there at e))
            (record {
              same = refl;
              rooted = refl;
              placed = refl;
              pending = λ p. absurd (cc p);
              homes = homes;
              changes = tt;
              logged = fresh;
            })
    ]

-- Whatever commands a client sends on a new session, with moves of its transfer threads between them in
-- any order and with any results, every call by the handlers that makes, removes, renames or deletes
-- a file or starts a transfer thread is for a path that is the root directory given to `session_create`
-- (its first 1023 bytes) with a path behind it that has no "..", "." or empty names; at the time of the call the session is
-- logged in, and it is an administrator's or it has the permission of that call (for a rename, on both
-- paths) and the path lies in its home directory; and a record of these calls that the operating
-- system keeps from the start has exactly the calls listed, with these paths, in their order. Every
-- user's home directory is taken to be empty or to begin with a slash; the operating system may answer
-- anything.
pub serve-Authorised :
    {E : Type 0} (sys : Platform E) (log : E → List FileCall) (is_directory : Bytes → Bool)
    (auth : Auth) (socket : Socket) (client_ip : Bytes) (client_port : ℕ) (root : Bytes)
    (bind : Option Bytes) (now : ℕ) {s : Session} (locks : Table) (env : E) (es : List Event)
    → Records sys log
    → log env ≡ []
    → HasHomes is_directory auth
    → create is_directory socket client_ip client_port root bind now ≡ some s
    → let after = serve sys standard es (begin s locks auth env) in
      All (Authorised (strncpy max_path root)) after.changes
      × (log after.env ≡ calls_of after.changes)
serve-Authorised sys log is_directory auth socket client_ip client_port root bind now {s} locks env
      es records fresh homes made =
    let sound =
      serve-Sound sys log records (strncpy max_path root) standard es (begin s locks auth env)
        standard-are_safe
        (create-Good log is_directory auth socket client_ip client_port root bind now locks env
          fresh homes made) in
    (sound.changes, sound.logged)
