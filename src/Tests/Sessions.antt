-- ===== src/Tests/Sessions.antt =====
-- Sessions of server/src/session.c at concrete inputs.

use simple_ftp.Base.{
  ◌<◌, ◌≡◌, refl, ◌⊎◌, subst, Bool, true, false, none, some, some_inj, List, [], ◌∷◌, ◌++◌, length,
  Bool-cases, inl, inr,
}
use simple_ftp.CString.{Bytes, codes, contains}
use simple_ftp.CString.Tokens.{tokens}
use simple_ftp.Auth.{
  authenticate, Auth, User, free_slot, perm_read, permits, bit_and, get_user, find_user,
  is_anonymous,
}
use simple_ftp.Filesys.{join_text}
use simple_ftp.Protocol.PathText.{normalize_path, validate_path}
use simple_ftp.Session.Path.{root, is_absolute, skip_first, resolve_virtual}
use simple_ftp.Session.Path.Confined.{IsVirtual}
use simple_ftp.Session.State.{Session, blank, authenticated_state}
use simple_ftp.Session.Data.{close_data_connection, accepted}
use simple_ftp.Session.Data.Sockets.{
  Move, pasv, open_data, port, accept, count, moves, begin, sockets_closed,
}
use simple_ftp.Session.Calls.{HasHomes, Call, pass, change}
use simple_ftp.Session.Access.{
  is_admin, check_path_access, resolve_path, change_directory, session_authenticate,
}
use simple_ftp.Session.Access.Confined.{
  check_path_access-confined, check_path_access-root_home, resolve_path-confined,
}
use simple_ftp.Session.Access.Directory.{Moved, change_directory-Moved}
use simple_ftp.Session.Access.Login.{logged_in_as, session_authenticate-cases}

-- A session logged in with read access and a home directory.
abbrev with_home : Bytes → Session
with_home home = record (blank 5 (codes "10.0.0.2") 4000 (codes "/srv/ftp") (codes "0.0.0.0") 100) {
  authenticated = true;
  permissions = 1;
  current_dir = home;
  user_home_dir = home;
}

abbrev session : Session
session = with_home (codes "/pub")

-- A file system in which everything is a directory.
abbrev pub everything : Bytes → Bool
everything p = true

check_path_access_example :
    (true ≡ true)
    × (permits 1 perm_read ≡ true)
    × (r : Bytes) × (resolve_virtual (codes "/pub") (codes "a/../b") ≡ some r)
    × IsVirtual r
    × (extra : List Bytes) × (tokens r ≡ tokens (codes "/pub") ++ extra)
unfolding check_path_access is_admin permits bit_and resolve_virtual normalize_path validate_path
    tokens contains
check_path_access_example =
    check_path_access-confined session (codes "a/../b") perm_read refl refl refl refl

root_home_example : resolve_virtual root (codes ".") ≡ some root
unfolding check_path_access is_admin permits bit_and resolve_virtual normalize_path validate_path
    tokens contains
root_home_example =
    check_path_access-root_home (with_home root) (codes ".") perm_read refl refl refl refl

resolve_path_example :
    (r : Bytes) × (resolve_virtual (codes "/pub") (codes "../../etc") ≡ some r)
    × IsVirtual r
    × (codes "/srv/ftp/etc" ≡ join_text (codes "/srv/ftp") (skip_first r))
    × (length (codes "/srv/ftp/etc") < 1024)
unfolding resolve_path resolve_virtual normalize_path validate_path tokens contains
resolve_path_example =
    resolve_path-confined session (codes "../../etc") 1024 (codes "/srv/ftp/etc") refl refl

change_directory_example :
    Moved everything (codes "a") session (record session { current_dir = codes "/pub/a" })
unfolding change_directory check_path_access is_admin permits bit_and resolve_virtual normalize_path
    validate_path tokens contains
change_directory_example = change_directory-Moved everything (codes "a") session refl refl

abbrev pub auth : Auth
auth = record {
  initialized = true;
  anonymous_enabled = true;
  users = free_slot ∷ [];
  virtual_anonymous = record free_slot {
    username = codes "anonymous";
    home_dir = codes "/pub";
    permissions = perm_read;
  };
}

abbrev before : Session
before = record session { username = codes "anonymous"; authenticated = false }

abbrev session_after : Session
session_after = record session { username = codes "anonymous"; state = authenticated_state }

login_example :
    ((authenticate (codes "anonymous") [] auth ≡ false)
      × (session_authenticate everything auth [] before ≡ none))
    ⊎ ((user : User) × (authenticate (codes "anonymous") [] auth ≡ true)
        × (get_user (codes "anonymous") auth ≡ some user)
        × (session_authenticate everything auth [] before
            ≡ some (logged_in_as everything user before)))
login_example = session_authenticate-cases everything auth [] before

pub auth-HasHomes : HasHomes everything auth
unfolding get_user find_user is_absolute
auth-HasHomes n u e homed = elim (Bool-cases (is_anonymous n)) [
  | inl named ↦
      subst (λ (x : User). is_absolute x.home_dir ≡ true) (some_inj (rw named at e)) (refl)
  | inr other ↦ absurd (cc (rw other at e))
]

-- A login as anonymous and two changes of the directory.
abbrev session_calls : List Call
session_calls =
    Call.user (codes "anonymous") ∷ pass [] ∷ change (codes "a/b") ∷ change (codes "..") ∷ []

-- PASV, a transfer thread that waits, PORT in between, and a round that finds the socket gone.
abbrev socket_moves : List Move
socket_moves =
    pasv (some (9, 2000)) ∷ open_data none ∷ port (codes "10.0.0.2") 30 ∷ accept (accepted 11) ∷ []

sockets_example :
    count 9 (
      (close_data_connection (moves (begin session) socket_moves).session).1
      ++ (moves (begin session) socket_moves).closed)
    ≡ count 9 (moves (begin session) socket_moves).given
sockets_example = sockets_closed session socket_moves 9 refl refl
