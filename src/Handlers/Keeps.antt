-- ===== src/Handlers/Keeps.antt =====
-- A property of the world that every step of the handlers keeps, up to the calls that all of them share.
pub mod Login
pub mod Parameters
pub mod Files
pub mod Transfers
pub mod Handled
use simple_ftp.Base.{
  ℕ, ◌≡◌, refl, Bool, true, false, not, Option, none, some, List, [], ◌∷◌, if◌then◌else◌,
  Bool-cases, Option-cases, inl, inr,
}
use simple_ftp.CString.{Bytes, strncpy}
use simple_ftp.Protocol.Types.{Command, max_response_line}
use simple_ftp.Protocol.Response.{format_response, format_response_multiline}
use simple_ftp.Auth.{
  Permissions, perm_read, perm_write, perm_delete, perm_rename, perm_mkdir, perm_rmdir,
}
use simple_ftp.FileLock.{Table}
use simple_ftp.Session.Path.{max_path}
use simple_ftp.Session.State.{
  Session, Socket, Operation, send_file, recv_file, send_list, send_nlst, get_rename_from,
  clear_rename_state,
}
use simple_ftp.Session.Data.{close_data_connection}
use simple_ftp.Session.Access.{check_path_access, resolve_path, change_directory}
use simple_ftp.Handlers.{
  Platform, call_of, perform, Action, make_directory, remove_directory, delete, overwrite,
  rename_from, transfer, World, M, pure, ◌>>=◌, gets, modify, ask, change, send_line,
  send_formatted, reply, reply_multiline, close_data, try_lock, release_lock, require_auth,
  require_auth_and_arg, require_no_argument, with_path, with_exclusive,
}

-- Who is logged in, where, and the rename that is pending.
pub record Standing : Type 0 where
  pub authenticated : Bool
  pub permissions : Permissions
  pub root_dir : Bytes
  pub current_dir : Bytes
  pub user_home_dir : Bytes
  pub rename_from : Bytes
  pub rename_pending : Bool

abbrev pub standing : Session → Standing
standing s = record {
  authenticated = s.authenticated;
  permissions = s.permissions;
  root_dir = s.root_dir;
  current_dir = s.current_dir;
  user_home_dir = s.user_home_dir;
  rename_from = s.rename_from;
  rename_pending = s.rename_pending;
}

-- A change of the session that leaves this alone.
abbrev pub Undisturbed : Session → Session → Type 0
Undisturbed s after = standing after ≡ standing s

-- The permission that a transfer needs.
abbrev pub transfer_permission : Operation → Permissions
transfer_permission send_file = perm_read
transfer_permission recv_file = perm_write
transfer_permission send_list = perm_read
transfer_permission send_nlst = perm_read

-- What an action on a path needs, where `Ok` says that a permission extends to a path.
abbrev pub Needs : (Permissions → Bytes → Type 0) → Action → Bytes → Type 0
Needs Ok make_directory path = Ok perm_mkdir path
Needs Ok remove_directory path = Ok perm_rmdir path
Needs Ok delete path = Ok perm_delete path
Needs Ok overwrite path = Ok perm_write path
Needs Ok (rename_from source) path = Ok perm_rename source × Ok perm_rename path
Needs Ok (transfer params) path = Ok (transfer_permission params.operation) params.filepath

unfoldable pub Keeps : {E : Type 0} → (World E → Type 0) → {A : Type 0} → M E A → Type 0
Keeps P m = (w : World _) → P w → P (m w).1

-- The calls of the platform that leave its files as they are, where `Same` says so.
pub record IsNeutral {E : Type 0} (sys : Platform E) (Same : E → E → Type 0) : Type 0 where
  pub unmoved : (e : E) → Same e e
  pub compose : {d e f : E} → Same d e → Same e f → Same d f
  pub path_exists : (path : Bytes) (e : E) → Same e (sys.path_exists path e).1
  pub is_directory : (path : Bytes) (e : E) → Same e (sys.is_directory path e).1
  pub get_file_size : (path : Bytes) (e : E) → Same e (sys.get_file_size path e).1
  pub get_file_mtime : (path : Bytes) (e : E) → Same e (sys.get_file_mtime path e).1
  pub send_all : (socket : Socket) (text : Bytes) (e : E) → Same e (sys.send_all socket text e).1
  pub get_socket_info : (socket : Socket) (e : E) → Same e (sys.get_socket_info socket e).1
  pub listen : (ip : Bytes) (low high : ℕ) (e : E) → Same e (sys.listen ip low high e).1
  pub connect : (ip : Bytes) (port : ℕ) (e : E) → Same e (sys.connect ip port e).1
  pub wait_readable : (socket : ℕ) (e : E) → Same e (sys.wait_readable socket e).1
  pub accept : (socket : ℕ) (e : E) → Same e (sys.accept socket e).1
  pub close_sockets : (closed : List ℕ) (e : E) → Same e (sys.close_sockets closed e)
  pub allocate : (e : E) → Same e (sys.allocate e).1
  pub has_memory : (e : E) → Same e (sys.has_memory e).1
  pub time : (e : E) → Same e (sys.time e).1

-- What a property of the world must allow, with `Ok` for the permissions that it knows of.
pub record Laws {E : Type 0} (sys : Platform E) (P : World E → Type 0)
    (Ok : Permissions → Bytes → Type 0) : Type 1 where
  pub Same : E → E → Type 0
  pub neutral : IsNeutral sys Same
  pub outside :
      (w : World E) (e : E) (o : List Bytes) (t : Table)
      → Same w.env e
      → P w
      → P (record w { env = e; output = o; locks = t })
  pub granted :
      (w : World E) (argument : Bytes) (required : Permissions) (path : Bytes)
      → P w
      → check_path_access argument required w.session ≡ true
      → resolve_path argument max_path w.session ≡ some path
      → Ok required path
  pub cut :
      (required : Permissions) (path : Bytes)
      → Ok required path
      → Ok required (strncpy max_path path)
  pub source :
      (w : World E) (path : Bytes)
      → P w
      → get_rename_from max_path w.session ≡ some path
      → Ok perm_rename path
  pub kept :
      (w : World E) (s : Session) → Undisturbed w.session s → P w → P (record w { session = s })
  pub cleared : (w : World E) → P w → P (record w { session = clear_rename_state w.session })
  pub moved :
      (w : World E) (is_directory : Bytes → Bool) (path : Bytes) (s : Session)
      → P w
      → change_directory is_directory path w.session ≡ some s
      → P (record w { session = s })
  pub changed :
      (w : World E) (action : Action) (path : Bytes)
      → Needs Ok action path
      → P w
      → P (record w {
        env = (perform sys (call_of action path) w.env).1;
        changes = record { action = action; path = path; session = w.session } ∷ w.changes;
      })

module _ {E : Type 0} (P : World E → Type 0) where
  pub pure-Keeps : {A : Type 0} (a : A) → Keeps P (pure a)
  unfolding Keeps pure
  pure-Keeps a w h = h

  pub bind-Keeps :
      {A B : Type 0} (m : M E A) (f : A → M E B)
      → Keeps P m
      → ((a : A) → Keeps P (f a))
      → Keeps P (m >>= f)
  unfolding Keeps ◌>>=◌
  bind-Keeps m f h k w v = k (m w).0 (m w).1 (h w v)

  pub if-Keeps :
      {A : Type 0} (b : Bool) (x y : M E A) → Keeps P x → Keeps P y → Keeps P (if b then x else y)
  if-Keeps true x y h k = h
  if-Keeps false x y h k = k

  pub gets-Keeps : {A : Type 0} (f : Session → A) → Keeps P (gets f)
  unfolding Keeps gets
  gets-Keeps f w h = h

module _ {E : Type 0} (sys : Platform E) (P : World E → Type 0) (Ok : Permissions → Bytes → Type 0)
    (laws : Laws sys P Ok) where
  pub ask-Keeps :
      {A : Type 0} (call : E → A × E) → ((e : E) → laws.Same e (call e).1) → Keeps P (ask call)
  unfolding Keeps ask
  ask-Keeps call same w h = laws.outside w (call w.env).1 w.output w.locks (same w.env) h

  pub exists-Keeps : (path : Bytes) → Keeps P (ask (sys.path_exists path))
  exists-Keeps path = ask-Keeps (sys.path_exists path) (laws.neutral.path_exists path)

  pub directory-Keeps : (path : Bytes) → Keeps P (ask (sys.is_directory path))
  directory-Keeps path = ask-Keeps (sys.is_directory path) (laws.neutral.is_directory path)

  pub size-Keeps : (path : Bytes) → Keeps P (ask (sys.get_file_size path))
  size-Keeps path = ask-Keeps (sys.get_file_size path) (laws.neutral.get_file_size path)

  pub time-Keeps : Keeps P (ask sys.time)
  time-Keeps = ask-Keeps sys.time laws.neutral.time

  pub modify-Keeps :
      (f : Session → Session) → ((s : Session) → Undisturbed s (f s)) → Keeps P (modify f)
  unfolding Keeps modify
  modify-Keeps f u w h = laws.kept w (f w.session) (u w.session) h

  pub clear_rename-Keeps : Keeps P (modify clear_rename_state)
  unfolding Keeps modify
  clear_rename-Keeps w h = laws.cleared w h

  pub change-Keeps :
      (action : Action) (path : Bytes) → Needs Ok action path → Keeps P (change sys action path)
  unfolding Keeps change
  change-Keeps action path n w h = laws.changed w action path n h

  pub send-Keeps : (line : Bytes) → Keeps P (send_line sys line)
  unfolding Keeps send_line
  send-Keeps line w h =
      laws.outside w (sys.send_all w.session.control_socket line w.env).1 (line ∷ w.output) w.locks
        (laws.neutral.send_all w.session.control_socket line w.env) h

  formatted-Keeps : (o : Option Bytes) → Keeps P (send_formatted sys o)
  unfolding send_formatted
  formatted-Keeps none = pure-Keeps P false
  formatted-Keeps (some line) = send-Keeps line

  pub reply-Keeps : (code : ℕ) (message : Bytes) → Keeps P (reply sys code message)
  unfolding reply
  reply-Keeps code message = formatted-Keeps (format_response max_response_line code message)

  pub multiline-Keeps : (code : ℕ) (message : Bytes) → Keeps P (reply_multiline sys code message)
  unfolding reply_multiline
  multiline-Keeps code message =
      formatted-Keeps (format_response_multiline max_response_line code message)

  pub close-Keeps : Keeps P (close_data sys)
  unfolding Keeps close_data close_data_connection
  close-Keeps w h =
      let (s, closed) = close_data_connection w.session in
      laws.outside _ (sys.close_sockets closed w.env) w.output w.locks
        (laws.neutral.close_sockets closed w.env) (laws.kept w s refl h)

  pub try-Keeps : (exclusive : Bool) (path : Bytes) → Keeps P (try_lock sys exclusive path)
  unfolding Keeps try_lock
  try-Keeps true path w h = laws.outside w _ w.output _ (laws.neutral.allocate w.env) h
  try-Keeps false path w h = laws.outside w _ w.output _ (laws.neutral.allocate w.env) h

  pub release-Keeps : (exclusive : Bool) (path : Bytes) → Keeps P (release_lock exclusive path)
  unfolding Keeps release_lock
  release-Keeps exclusive path w h = laws.outside w w.env w.output _ (laws.neutral.unmoved w.env) h

  pub auth-Keeps : (rest : M E Bool) → Keeps P rest → Keeps P (require_auth sys rest)
  unfolding require_auth
  auth-Keeps rest h = search (bind-Keeps, if-Keeps, gets-Keeps, reply-Keeps, h)

  pub no_argument-Keeps :
      (cmd : Command) (message : Bytes) (rest : M E Bool)
      → Keeps P rest
      → Keeps P (require_no_argument sys cmd message rest)
  unfolding require_no_argument
  no_argument-Keeps cmd message rest h = search (if-Keeps, reply-Keeps, h)

  pub auth_arg-Keeps :
      (cmd : Command) (rest : M E Bool) → Keeps P rest → Keeps P (require_auth_and_arg sys cmd rest)
  unfolding require_auth_and_arg
  auth_arg-Keeps cmd rest h = search (auth-Keeps, if-Keeps, reply-Keeps, h)

  pub path-Keeps :
      (argument : Bytes) (required : Permissions) (denied invalid : Bytes) (rest : Bytes → M E Bool)
      → ((path : Bytes) → Ok required path → Keeps P (rest path))
      → Keeps P (with_path sys argument required denied invalid rest)
  unfolding with_path Keeps ◌>>=◌ gets
  path-Keeps argument required denied invalid rest k w h =
      elim (Bool-cases (check_path_access argument required w.session)) [
        | inr refused ↦ rw refused (reply-Keeps _ denied w h)
        | inl allowed ↦ elim (Option-cases (resolve_path argument max_path w.session)) [
          | inl missing ↦ rw (allowed, missing) (reply-Keeps _ invalid w h)
          | inr (path, found) ↦
              rw (allowed, found)
                (k path (laws.granted w argument required path h allowed found) w h)
        ]
      ]

  pub exclusive-Keeps :
      (path : Bytes) (body : M E Bool) → Keeps P body → Keeps P (with_exclusive sys path body)
  unfolding with_exclusive
  exclusive-Keeps path body h =
      search (bind-Keeps, if-Keeps, try-Keeps, reply-Keeps, release-Keeps, pure-Keeps, h)
