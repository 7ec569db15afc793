-- ===== src/Server/Lines.antt =====
-- The command loop of client_thread in server/src/server.c: the changes of files it makes, on any lines.

use simple_ftp.Base.{
  ℕ, ◌+◌, ◌≡◌, refl, Bool, true, false, Option, none, some, List, [], ◌∷◌, if◌then◌else◌, All,
}
use simple_ftp.CString.{Bytes, codes, strncpy}
use simple_ftp.Protocol.Types.{Command}
use simple_ftp.Protocol.Codes.{resp_service_ready}
use simple_ftp.Auth.{Auth}
use simple_ftp.FileLock.{Table}
use simple_ftp.Commands.{dispatch}
use simple_ftp.Commands.Standard.{standard}
use simple_ftp.Session.Path.{max_path}
use simple_ftp.Session.State.{Session, Socket, create, update_activity}
use simple_ftp.Session.Calls.{HasHomes}
use simple_ftp.Handlers.{FileCall, reply, Platform, World, modify, ask}
use simple_ftp.Handlers.Run.{handle}
use simple_ftp.Handlers.Keeps.{
  Undisturbed, Keeps, pure-Keeps, bind-Keeps, if-Keeps, time-Keeps, modify-Keeps,
}
use simple_ftp.Handlers.Authorised.{Records, calls_of, credentials, Authorised, laws-Good}
use simple_ftp.Handlers.Served.{
  thread-Sound, Sound, laws-Sound, reply-Sound, dispatch-Sound, standard-are_safe, begin,
  create-Good,
}
use simple_ftp.Server.{
  ClientEvent, line_received, thread, reply_unknown, run_command, client_round, client_lines,
  client_thread,
}

module _ {E : Type 0} (sys : Platform E) (log : E → List FileCall) (records : Records sys log)
    (root : Bytes) where
  modify-Sound :
      (f : Session → Session)
      → ((s : Session) → Undisturbed s (f s))
      → Keeps (Sound sys log records root) (modify f)
  modify-Sound f u =
      laws-Sound sys log records root (modify f)
        (λ w. modify-Keeps sys _ _ (laws-Good sys log records root (credentials w.session)) f u)

  time-Sound : Keeps (Sound sys log records root) (ask sys.time)
  time-Sound =
      laws-Sound sys log records root (ask sys.time)
        (λ w. time-Keeps sys _ _ (laws-Good sys log records root (credentials w.session)))

  unknown-Sound :
      (cmd : Command) (b : Bool) → Keeps (Sound sys log records root) (reply_unknown sys cmd b)
  unfolding reply_unknown
  unknown-Sound cmd b = search (if-Keeps, pure-Keeps, reply-Sound sys log records root)

  dispatched-Sound :
      (cmd : Command) → Keeps (Sound sys log records root) (dispatch (handle sys) standard cmd)
  unfolding Keeps
  dispatched-Sound cmd w h = dispatch-Sound sys log records root standard cmd w standard-are_safe h

  run-Sound : (o : Option Command) → Keeps (Sound sys log records root) (run_command sys o)
  unfolding run_command
  run-Sound none = reply-Sound sys log records root _ _
  run-Sound (some cmd) =
      let counted =
        modify-Sound (λ s. record s { commands_received = s.commands_received + 1 }) (λ s. refl) in
      search (bind-Keeps, counted, dispatched-Sound, unknown-Sound)

  activity-Sound : (now : ℕ) → Keeps (Sound sys log records root) (modify (update_activity now))
  unfolding update_activity
  activity-Sound now = modify-Sound (update_activity now) (λ s. refl)

  round-Sound : (line : Bytes) → Keeps (Sound sys log records root) (client_round sys line)
  unfolding client_round
  round-Sound line = search (bind-Keeps, time-Sound, activity-Sound, run-Sound)

  either-Sound :
      (b : Bool) {v w : World E}
      → Sound sys log records root v
      → Sound sys log records root w
      → Sound sys log records root (if b then v else w)
  either-Sound true s t = s
  either-Sound false s t = t

  lines-Sound :
      (es : List ClientEvent) (w : World E)
      → Sound sys log records root w
      → Sound sys log records root (client_lines sys es w)
  unfolding client_lines Keeps
  lines-Sound [] w h = h
  lines-Sound (line_received line ∷ es) w h =
      either-Sound w.session.should_quit (lines-Sound es w h)
        (lines-Sound es _ (round-Sound line w h))
  lines-Sound (thread m ∷ es) w h = lines-Sound es _ (thread-Sound sys log records root m w h)

  whole-Sound :
      (es : List ClientEvent) (w : World E)
      → Sound sys log records root w
      → Sound sys log records root (client_thread sys es w)
  unfolding client_thread Keeps
  whole-Sound es w h =
      let welcomed =
        reply-Sound sys log records root resp_service_ready (codes "FTP Server Ready") w h in
      either-Sound (reply sys resp_service_ready (codes "FTP Server Ready") w).0
        (lines-Sound es _ welcomed) welcomed

-- Whatever lines of bytes a client sends in the thread of a new session, with moves of its transfer
-- threads between them in any order and with any results, every call by the handlers that makes,
-- removes, renames or deletes a file or starts a transfer thread is for a path below the root directory
-- given to `session_create` (its first 1023 bytes), by a session that is logged in and, unless it is an administrator's, has
-- the permission of that call and the path in its home directory; and a record of these calls that the
-- operating system keeps from the start has exactly the calls listed, with these paths, in their order.
-- Every user's home directory is taken to be empty or to begin with a slash.
pub client_thread-Authorised :
    {E : Type 0} (sys : Platform E) (log : E → List FileCall) (is_directory : Bytes → Bool)
    (auth : Auth) (socket : Socket) (client_ip : Bytes) (client_port : ℕ) (root : Bytes)
    (bind : Option Bytes) (now : ℕ) {s : Session} (locks : Table) (env : E) (es : List ClientEvent)
    → Records sys log
    → log env ≡ []
    → HasHomes is_directory auth
    → create is_directory socket client_ip client_port root bind now ≡ some s
    → let after = client_thread sys es (begin s locks auth env) in
      All (Authorised (strncpy max_path root)) after.changes
      × (log after.env ≡ calls_of after.changes)
client_thread-Authorised sys log is_directory auth socket client_ip client_port root bind now {s}
      locks env es records fresh homes made =
    let sound = whole-Sound sys log records (strncpy max_path root) es (begin s locks auth env) (
      create-Good log is_directory auth socket client_ip client_port root bind now locks env fresh
        homes made) in
    (sound.changes, sound.logged)
