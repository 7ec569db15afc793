-- ===== src/Tests/Handlers.antt =====
-- Commands of a client at concrete inputs.

use simple_ftp.Base.{◌∙◌, ◌≡◌, refl, true, false, ◌||◌, none, some, List, [], ◌∷◌, All, length}
use simple_ftp.CString.{Bytes, codes, strncpy, str_eq, contains, decimal}
use simple_ftp.Protocol.Types.{Command, binary}
use simple_ftp.Protocol.Codes.{resp_not_logged_in}
use simple_ftp.Commands.{HandlerEntry, cmd_init, dispatch, lookup}
use simple_ftp.Commands.Standard.{
  Handler, standard, register_standard_handlers, dele, mkd, clear_all, user,
}
use simple_ftp.Session.Path.{max_path, resolve_virtual}
use simple_ftp.Session.State.{
  Session, get_rename_from, transfer_ok, create, blank, TransferParams, send_file, transfer_aborted,
  idle, no_mode,
}
use simple_ftp.Session.Data.{would_block}
use simple_ftp.Protocol.Response.{format_response}
use simple_ftp.Protocol.PathText.{normalize_path, validate_path}
use simple_ftp.Auth.{bit_and, permits}
use simple_ftp.Filesys.{join_path}
use simple_ftp.CString.Tokens.{tokens}
use simple_ftp.Session.Access.{check_path_access, is_admin, within_home, resolve_path}
use simple_ftp.Handlers.{
  FileCall, makes_directory, removes_directory, deletes_file, renames, starts_transfer, perform,
  Platform, World, reply, require_auth_and_arg, require_auth, ◌>>=◌, gets, with_path, ask, change,
  send_formatted, send_line,
}
use simple_ftp.Handlers.Files.{handle_mkd, make_at}
use simple_ftp.Handlers.Run.{Event, command, thread, handle, serve}
use simple_ftp.Handlers.Authorised.{Authorised, Records, calls_of}
use simple_ftp.Handlers.Served.{begin, serve-Authorised}
use simple_ftp.Handlers.Restricted.{please_login, handle-refused, dispatch-forgets}
use simple_ftp.Transfer.{begins, ends, finish_transfer}
use simple_ftp.Transfer.Finish.{given_back, finish_transfer-frees}
use simple_ftp.Tests.Sessions.{everything, auth, auth-HasHomes}

-- A platform on which every call succeeds, everything exists and nothing is a directory but "/srv/ftp/pub".
abbrev pub sys : Platform (List FileCall)
sys = record {
  path_exists =
      λ path e. (str_eq path (codes "/srv/ftp/pub") || str_eq path (codes "/srv/ftp/pub/a"), e);
  is_directory = λ path e. (str_eq path (codes "/srv/ftp/pub"), e);
  get_file_size = λ path e. (some 3, e);
  get_file_mtime = λ path e. (some 0, e);
  format_time = λ t. codes "19700101000000";
  create_directory = λ path e. (true, makes_directory path ∷ e);
  delete_file = λ path e. (true, deletes_file path ∷ e);
  delete_directory = λ path e. (true, removes_directory path ∷ e);
  rename = λ a b e. (true, renames a b ∷ e);
  send_all = λ socket text e. (true, e);
  get_socket_info = λ socket e. (some (codes "10.0.0.1"), e);
  listen = λ address low high e. (some (9, 20000), e);
  connect = λ ip port e. (some 11, e);
  wait_readable = λ socket e. (true, e);
  accept = λ socket e. (would_block, e);
  close_sockets = λ closed e. e;
  allocate = λ e. (some 7, e);
  has_memory = λ e. (true, e);
  create_thread = λ params e. (true, starts_transfer params ∷ e);
  time = λ e. (100, e);
}

pub sys-Records : Records sys (λ e. e)
sys-Records = record {
  neutral = record {
    unmoved = λ e. refl;
    compose = λ a b. b ∙ a;
    path_exists = λ path e. refl;
    is_directory = λ path e. refl;
    get_file_size = λ path e. refl;
    get_file_mtime = λ path e. refl;
    send_all = λ socket text e. refl;
    get_socket_info = λ socket e. refl;
    listen = λ ip low high e. refl;
    connect = λ ip port e. refl;
    wait_readable = λ socket e. refl;
    accept = λ socket e. refl;
    close_sockets = λ closed e. refl;
    allocate = λ e. refl;
    has_memory = λ e. refl;
    time = λ e. refl;
  };
  called = recorded;
}
  where
    recorded : (call : FileCall) (e : List FileCall) → (perform sys call e).1 ≡ call ∷ e
    recorded (makes_directory path) e = refl
    recorded (removes_directory path) e = refl
    recorded (deletes_file path) e = refl
    recorded (renames a b) e = refl
    recorded (starts_transfer params) e = refl

abbrev bare : Bytes → Command
bare name = record { command = name; argument = []; has_argument = false }

abbrev with_argument : Bytes → Bytes → Command
with_argument name argument = record { command = name; argument = argument; has_argument = true }

-- A download.
abbrev params : TransferParams
params = record {
  operation = send_file;
  filepath = codes "/srv/ftp/a";
  offset = 0;
  type = binary;
  lock_acquired = true;
}

-- A login, a rename without permission, and two downloads in active mode.
abbrev events : List Event
events =
    command (with_argument (codes "USER") (codes "anonymous"))
    ∷ command (bare (codes "PASS"))
    ∷ command (with_argument (codes "RNFR") (codes "a"))
    ∷ command (with_argument (codes "PORT") (codes "10,0,0,2,7,8"))
    ∷ command (with_argument (codes "RETR") (codes "a"))
    ∷ thread begins
    ∷ thread (ends params transfer_ok 3)
    ∷ command (with_argument (codes "PORT") (codes "10,0,0,2,7,8"))
    ∷ command (with_argument (codes "RETR") (codes "a"))
    ∷ []

abbrev pub new_session : Session
new_session = record (blank 5 (codes "10.0.0.2") 4000 (codes "/srv/ftp") (codes "127.0.0.1") 100) {
  current_dir = codes "/";
}

serve-Authorised_example :
    let after = serve sys standard events (begin new_session [] auth []) in
    All (Authorised (strncpy max_path (codes "/srv/ftp"))) after.changes
    × (after.env ≡ calls_of after.changes)
unfolding create
serve-Authorised_example =
    serve-Authorised sys (λ e. e) everything auth (some 5) (codes "10.0.0.2") 4000
      (codes "/srv/ftp") none 100 [] [] events sys-Records refl auth-HasHomes refl

abbrev fresh_world : World (List FileCall)
fresh_world = begin new_session [] auth []

handle-refused_example :
    (handle sys dele (with_argument (codes "DELE") (codes "a")) fresh_world
      ≡ reply sys resp_not_logged_in please_login fresh_world)
    × ((handle sys dele (with_argument (codes "DELE") (codes "a")) fresh_world).1.session
        ≡ new_session)
    × ((handle sys dele (with_argument (codes "DELE") (codes "a")) fresh_world).1.locks ≡ [])
    × ((handle sys dele (with_argument (codes "DELE") (codes "a")) fresh_world).1.changes ≡ [])
handle-refused_example =
    handle-refused sys dele (with_argument (codes "DELE") (codes "a")) fresh_world refl refl

-- A session with a rename that is pending.
abbrev renaming : World (List FileCall)
renaming =
    begin (record new_session { rename_pending = true; rename_from = codes "/srv/ftp/a" }) [] auth
      []

abbrev user_entry : HandlerEntry Handler
user_entry = record {
  command = codes "USER";
  handler = some user;
  prev_handler = some clear_all;
  in_use = true;
}

dispatch-forgets_example :
    ((dispatch (handle sys) standard (bare (codes "USER")) renaming).1.session.rename_pending
      ≡ false)
    × (get_rename_from max_path
          (dispatch (handle sys) standard (bare (codes "USER")) renaming).1.session
        ≡ none)
unfolding lookup register_standard_handlers cmd_init
dispatch-forgets_example =
    dispatch-forgets sys (bare (codes "USER")) renaming {e = user_entry} refl refl

finish_transfer_example :
    let after = (finish_transfer sys params transfer_aborted renaming).1 in
    (after.locks ≡ given_back params [])
    × (after.session ≡ record renaming.session {
      data_socket = none;
      data_listen_socket = none;
      data_mode = no_mode;
      transfer_should_abort = false;
      transfer_result = transfer_aborted;
      transfer_in_progress = false;
      transfer_params = none;
      transfer_thread_state = idle;
    })
finish_transfer_example = finish_transfer-frees sys params transfer_aborted renaming

-- A user with every permission makes a directory: one change, and one line.
abbrev editor : World (List FileCall)
editor = begin (record new_session { authenticated = true; permissions = 63 }) [] auth []

directory_made :
    let after = (handle sys mkd (with_argument (codes "MKD") (codes "b")) editor).1 in
    (length after.changes ≡ 1) × (after.output ≡ codes "257 \"b\" directory created\r\n" ∷ [])
unfolding handle handle_mkd require_auth_and_arg require_auth ◌>>=◌ gets with_path check_path_access
    is_admin bit_and permits within_home resolve_path resolve_virtual normalize_path validate_path
    tokens contains join_path make_at ask change reply send_formatted send_line format_response
    decimal
directory_made = (refl, refl)
