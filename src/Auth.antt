-- ===== src/Auth.antt =====
-- server/src/auth.c: the user table, its passwords and permissions. Each call holds `g_auth_lock`
-- throughout, so it is a function on the module's state. Log lines are left out, and so are the reader
-- and the writer of the user file.
pub mod Password
pub mod Users
use mathlib.Core.Option
use simple_ftp.Base.{
  ℕ, zero, suc, ◌+◌, ◌-◌, ◌*◌, ◌/◌, ◌%◌, ◌^◌, Bool, true, false, not, ◌&&◌, ◌||◌, Option, none,
  some, List, [], ◌∷◌, ◌++◌, ltb, leb, ◌==◌, if◌then◌else◌, length, take,
}
use simple_ftp.CString.{Bytes, codes, str_eq, strncpy}

-- `AUTH_MAX_USERNAME`, `AUTH_MAX_HOME_DIR`, `AUTH_MAX_USERS`
abbrev pub max_username : ℕ
max_username = 256

abbrev pub max_home_dir : ℕ
max_home_dir = 1024

abbrev pub max_users : ℕ
max_users = 1024

-- `a & b` on `w` bits.
unfoldable pub bit_and : ℕ → ℕ → ℕ → ℕ
bit_and zero a b = 0
bit_and (suc w) a b = (a % 2) * (b % 2) + 2 * bit_and w (a / 2) (b / 2)

-- `auth_permission_t`, an `unsigned int`
abbrev pub Permissions : Type 0
Permissions = ℕ

abbrev pub perm_none : Permissions
perm_none = 0

abbrev pub perm_read : Permissions
perm_read = 1

abbrev pub perm_write : Permissions
perm_write = 2

abbrev pub perm_delete : Permissions
perm_delete = 4

abbrev pub perm_rename : Permissions
perm_rename = 8

abbrev pub perm_mkdir : Permissions
perm_mkdir = 16

abbrev pub perm_rmdir : Permissions
perm_rmdir = 32

abbrev pub perm_admin : Permissions
perm_admin = 64

-- `(held & asked) == asked`
unfoldable pub permits : Permissions → Permissions → Bool
unfolding bit_and
permits held asked = bit_and 32 held asked == asked

-- `auth_user_t`
pub record User : Type 0 where
  pub username : Bytes
  pub password_hash : Bytes
  pub home_dir : Bytes
  pub permissions : Permissions
  pub in_use : Bool

abbrev pub free_slot : User
free_slot = record {
  username = [];
  password_hash = [];
  home_dir = [];
  permissions = 0;
  in_use = false;
}

-- The module's variables.
pub record Auth : Type 0 where
  pub initialized : Bool
  pub anonymous_enabled : Bool
  pub users : List User
  pub virtual_anonymous : User

unfoldable pub clear_users : ℕ → List User
clear_users zero = []
clear_users (suc n) = free_slot ∷ clear_users n

-- The state before any call.
abbrev pub unset : Auth
unset = record {
  initialized = false;
  anonymous_enabled = true;
  users = clear_users max_users;
  virtual_anonymous = record {
    username = codes "anonymous";
    password_hash = [];
    home_dir = codes "/pub";
    permissions = perm_read;
    in_use = true;
  };
}

-- `auth_init`
unfoldable pub auth_init : Auth → Auth
unfolding clear_users
auth_init a =
    if a.initialized then a else record a { users = clear_users max_users; initialized = true }

-- `auth_cleanup`
unfoldable pub auth_cleanup : Auth → Auth
unfolding clear_users
auth_cleanup a =
    if a.initialized then record a { users = clear_users max_users; initialized = false } else a

-- `auth_set_anonymous_enabled`
unfoldable pub set_anonymous_enabled : Bool → Auth → Auth
set_anonymous_enabled enable a = record a { anonymous_enabled = enable }

-- `auth_set_anonymous_defaults`
unfoldable pub set_anonymous_defaults : Bytes → Permissions → Auth → Auth
set_anonymous_defaults home_dir permissions a = record a {
  virtual_anonymous = record a.virtual_anonymous {
    home_dir = strncpy max_home_dir home_dir;
    permissions = permissions;
  };
}

-- `simple_hash`, an `unsigned int`
unfoldable pub simple_hash_go : ℕ → Bytes → ℕ
simple_hash_go h [] = h
simple_hash_go h (c ∷ s) = simple_hash_go ((h * 31 + c) % 2 ^ 32) s

abbrev pub hex_char : ℕ → ℕ
hex_char d = if ltb d 10 then b'0' + d else b'a' + (d - 10)

-- `n` by `%0<width>x`, for an `n` that has no more digits than that.
unfoldable pub hex_padded : ℕ → ℕ → Bytes
hex_padded zero n = []
hex_padded (suc width) n = hex_padded width (n / 16) ++ hex_char (n % 16) ∷ []

-- `hash_password`
unfoldable pub hash_password : Bytes → Bytes
unfolding simple_hash_go hex_padded
hash_password password = hex_padded 64 (simple_hash_go 0 password)

-- `verify_password`
unfoldable pub verify_password : Bytes → Bytes → Bool
unfolding hash_password str_eq
verify_password password hash = str_eq (hash_password password) hash

-- `find_user`
unfoldable pub find_user : Bytes → List User → Option User
unfolding str_eq
find_user name [] = none
find_user name (u ∷ us) = if u.in_use && str_eq u.username name then some u else find_user name us

-- `strcmp(username, "anonymous") == 0`
abbrev pub is_anonymous : Bytes → Bool
is_anonymous name = str_eq name (codes "anonymous")

-- `auth_user_exists`
unfoldable pub user_exists : Bytes → Auth → Bool
unfolding find_user
user_exists name a =
    if a.initialized then elim (find_user name a.users) [ none ↦ false | some u ↦ true ] else false

-- `auth_authenticate`
unfoldable pub authenticate : Bytes → Bytes → Auth → Bool
unfolding find_user verify_password str_eq
authenticate name password a =
    if not a.initialized
    then false
    else if a.anonymous_enabled && is_anonymous name
    then true
    else elim (find_user name a.users) [
      | none ↦ false
      | some u ↦ verify_password password u.password_hash
    ]

-- `auth_get_user`; `none` stands for NULL.
unfoldable pub get_user : Bytes → Auth → Option User
unfolding find_user str_eq
get_user name a = if not a.initialized then none else elim (find_user name a.users) [
  | some u ↦ some u
  | none ↦ if a.anonymous_enabled && is_anonymous name then some a.virtual_anonymous else none
]

-- `auth_has_permission`
unfoldable pub has_permission : Bytes → Permissions → Auth → Bool
unfolding find_user permits str_eq
has_permission name permission a =
    if not a.initialized then false else elim (find_user name a.users) [
      | some u ↦ permits u.permissions permission
      | none ↦
          if a.anonymous_enabled && is_anonymous name
          then permits a.virtual_anonymous.permissions permission
          else false
    ]

-- The first slot that is not in use takes the entry; `none` if there is none.
unfoldable pub fill_slot : User → List User → Option (List User)
fill_slot new [] = none
fill_slot new (u ∷ us) =
    let rest = fill_slot new us in
    if u.in_use then Option.map (λ vs. u ∷ vs) rest else some (new ∷ us)

abbrev pub new_user : Bytes → Bytes → Bytes → Permissions → User
new_user name password home_dir permissions = record {
  username = strncpy max_username name;
  password_hash = hash_password password;
  home_dir = strncpy max_home_dir home_dir;
  permissions = permissions;
  in_use = true;
}

-- `auth_add_user`; `none` stands for -1, with the state unchanged.
unfoldable pub add_user : Bytes → Bytes → Bytes → Permissions → Auth → Option Auth
unfolding find_user fill_slot hash_password
add_user name password home_dir permissions a =
    if not a.initialized then none else elim (find_user name a.users) [
      | some u ↦ none
      | none ↦
          Option.map (λ us. record a { users = us })
            (fill_slot (new_user name password home_dir permissions) a.users)
    ]
