-- ===== src/Session/Access.antt =====
-- server/src/session.c: login, permissions and the paths that a session may reach. The parameter
-- `is_directory` answers for `fs_is_directory`, which asks the operating system.
pub mod Confined
pub mod Directory
pub mod Login
use simple_ftp.Base.{
  ℕ, zero, suc, ◌+◌, ◌-◌, Bool, true, false, not, ◌&&◌, ◌||◌, Option, none, some, List, [], ◌∷◌,
  ltb, leb, ◌==◌, if◌then◌else◌, length, take,
}
use simple_ftp.CString.{Bytes, strncpy, starts_with}
use simple_ftp.Auth.{
  Permissions, perm_read, perm_admin, permits, bit_and, User, Auth, authenticate, get_user,
}
use simple_ftp.Filesys.{join_path}
use simple_ftp.Session.Path.{max_path, is_absolute, skip_first, resolve_virtual}
use simple_ftp.Session.State.{Session, authenticated_state}

-- `session_has_permission`
unfoldable pub session_has_permission : Permissions → Session → Bool
unfolding permits
session_has_permission permission s = s.authenticated && permits s.permissions permission

-- `session->permissions & AUTH_PERM_ADMIN`
unfoldable pub is_admin : Session → Bool
unfolding bit_and
is_admin s = not (bit_and 32 s.permissions perm_admin == 0)

-- `normalized_path[home_len]` is '\0' or '/'.
unfoldable pub ends_name : ℕ → Bytes → Bool
ends_name zero [] = true
ends_name zero (c ∷ s) = c == b'/'
ends_name (suc n) [] = false
ends_name (suc n) (c ∷ s) = ends_name n s

-- The test of a normalized path against the home directory.
unfoldable pub within_home : Bytes → Bytes → Bool
unfolding starts_with ends_name
within_home [] path = true
within_home (c ∷ home) path = starts_with (c ∷ home) path && ends_name (length (c ∷ home)) path

-- `session_check_path_access`
unfoldable pub check_path_access : Bytes → Permissions → Session → Bool
unfolding is_admin permits within_home resolve_virtual
check_path_access path required s =
    if not s.authenticated
    then false
    else if is_admin s
    then true
    else if not (permits s.permissions required)
    then false
    else elim (resolve_virtual s.current_dir path) [
      | none ↦ false
      | some normalized ↦ within_home s.user_home_dir normalized
    ]

-- `session_get_current_directory`; `none` stands for -1.
unfoldable pub get_current_directory : ℕ → Session → Option Bytes
get_current_directory buffer_size s =
    if buffer_size == 0 then none else some (strncpy buffer_size s.current_dir)

-- `session_resolve_path`; `none` stands for -1.
unfoldable pub resolve_path : Bytes → ℕ → Session → Option Bytes
unfolding resolve_virtual join_path
resolve_path relative buffer_size s =
    if buffer_size == 0 then none else elim (resolve_virtual s.current_dir relative) [
      | none ↦ none
      | some normalized ↦ join_path buffer_size s.root_dir (skip_first normalized)
    ]

-- The end of `session_change_directory`, from the call of `fs_join_path` on.
unfoldable pub enter_directory : (Bytes → Bool) → Bytes → Session → Option Session
unfolding join_path
enter_directory is_directory new_path s =
    elim (join_path max_path s.root_dir (skip_first new_path)) [
      | none ↦ none
      | some absolute ↦
          if is_directory absolute
          then some (record s { current_dir = strncpy max_path new_path })
          else none
    ]

-- `session_change_directory`; `none` stands for -1, with the state unchanged.
unfoldable pub change_directory : (Bytes → Bool) → Bytes → Session → Option Session
unfolding resolve_virtual check_path_access enter_directory
change_directory is_directory path s = elim (resolve_virtual s.current_dir path) [
  | none ↦ none
  | some new_path ↦
      if check_path_access new_path perm_read s
      then enter_directory is_directory new_path s
      else none
]

-- The user's entry in the session.
abbrev pub log_in : User → Session → Session
log_in user s = record s {
  permissions = user.permissions;
  user_home_dir = strncpy max_path user.home_dir;
  authenticated = true;
  state = authenticated_state;
}

-- `home_rel`
abbrev pub home_relative : Bytes → Bytes
home_relative home = if is_absolute home then skip_first home else home

-- The move to the home directory at the end of `session_authenticate`.
unfoldable pub go_home : (Bytes → Bool) → Session → Session
unfolding is_absolute join_path
go_home is_directory s =
    if length s.user_home_dir == 0
    then s
    else elim (join_path max_path s.root_dir (home_relative s.user_home_dir)) [
      | none ↦ s
      | some absolute ↦
          if is_directory absolute
          then record s { current_dir = strncpy max_path s.user_home_dir }
          else s
    ]

-- `session_authenticate`; `none` stands for -1, with the state unchanged.
unfoldable pub session_authenticate : (Bytes → Bool) → Auth → Bytes → Session → Option Session
unfolding authenticate get_user go_home
session_authenticate is_directory auth password s =
    if not (authenticate s.username password auth) then none else elim (get_user s.username auth) [
      | none ↦ none
      | some user ↦ some (go_home is_directory (log_in user s))
    ]
