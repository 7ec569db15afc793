-- ===== src/Tests/Tables.antt =====
-- The tables of server/src/filelock.c, server/src/auth.c and server/src/command.c at concrete inputs.

use simple_ftp.Base.{
  ◌≡◌, ◌↔◌, refl, true, false, not, ◌&&◌, ◌||◌, Option, none, some, List, [], ◌∷◌, ltb,
  if◌then◌else◌, arith,
}
use simple_ftp.CString.{Bytes, codes, str_eq, toupper}
use simple_ftp.FileLock.{
  Entry, path_valid, find, try_acquire_shared, try_acquire_exclusive, release, negsuc, to_int,
  get_shared_lock_count, is_exclusive_locked,
}
use simple_ftp.FileLock.Try.{counts, has_entry}
use simple_ftp.FileLock.Abstract.{
  bars_readers, bars_writers, one_reader_more, written, released, Grants, try_acquire_shared-Grants,
  try_acquire_exclusive-Grants, has_idle, release-counts,
}
use simple_ftp.FileLock.Counts.{Distinct}
use simple_ftp.FileLock.System.{
  Request, try_shared, try_exclusive, give_back, run, start, holders, Excludes, mutual_exclusion,
}
use simple_ftp.FileLock.Waiting.{
  sleeps, acquire_shared_enter, at_address, sleeping_reader_loses_entry,
}
use simple_ftp.Auth.{
  Auth, free_slot, perm_read, simple_hash_go, hash_password, verify_password, is_anonymous,
  authenticate, add_user,
}
use simple_ftp.Auth.Password.{verify_password_iff}
use simple_ftp.Auth.Users.{add_user-authenticate}
use simple_ftp.Commands.{
  Registry, cmd_init, cmd_upper, register_handler, unregister_handler, empty_entry, handler_count,
  lookup, is_handler,
}
use simple_ftp.Commands.Table
use simple_ftp.Commands.Table.{
  handlers_for, register_handler-handlers_for, unregister_handler-handlers_for,
}
use simple_ftp.Commands.Table.Unique.{register_handler-Distinct}
use simple_ftp.Commands.Standard.{
  Handler, user, clear_all, register_standard_handlers, unset, standard,
}

abbrev path : Bytes
path = codes "/srv/a"

abbrev entry : Entry
entry = record { address = 7; path = path; readers = 0; writers = 1; waiting_writers = 0 }

try_acquire_shared_example :
    Grants
      (path_valid path
        && (has_entry none path (entry ∷ []) && not (bars_readers (counts path (entry ∷ [])))))
      one_reader_more
      path
      (entry ∷ [])
      (try_acquire_shared none path (entry ∷ []))
try_acquire_shared_example = try_acquire_shared-Grants none path (entry ∷ []) (tt, tt)

try_acquire_exclusive_example :
    Grants
      (path_valid path && (has_entry (some 7) path [] && not (bars_writers (counts path []))))
      written
      path
      []
      (try_acquire_exclusive (some 7) path [])
try_acquire_exclusive_example = try_acquire_exclusive-Grants (some 7) path [] tt

release_example :
    ((q : Bytes)
      → counts q (release true path (entry ∷ [])) ≡ (
          if path_valid path && str_eq path q
          then released true (counts q (entry ∷ []))
          else counts q (entry ∷ [])))
    × Distinct (release true path (entry ∷ []))
    × ((path_valid path && has_idle path (release true path (entry ∷ []))) ≡ false)
release_example = release-counts true path (entry ∷ []) (tt, tt)

abbrev requests : List Request
requests =
    try_exclusive (some 7) path
    ∷ try_shared none path
    ∷ give_back true path
    ∷ try_shared (some 8) path
    ∷ []

mutual_exclusion_example :
    Excludes path (run start requests).held
    × (get_shared_lock_count path (run start requests).table ≡ (
        if path_valid path
        then to_int (holders false path (run start requests).held)
        else negsuc 0))
    × (is_exclusive_locked path (run start requests).table ≡ (
        if path_valid path
        then some (ltb 0 (holders true path (run start requests).held))
        else none))
mutual_exclusion_example = mutual_exclusion requests (omega arith) path

sleeping_reader_example :
    (acquire_shared_enter none path (entry ∷ []) ≡ sleeps 7 (entry ∷ []))
    × (at_address 7 (release true path (entry ∷ [])) ≡ none)
unfolding path_valid find str_eq
sleeping_reader_example =
    sleeping_reader_loses_entry none path entry (entry ∷ []) refl (tt, tt) refl refl refl refl

abbrev empty_auth : Auth
empty_auth = record {
  initialized = true;
  anonymous_enabled = true;
  users = free_slot ∷ free_slot ∷ [];
  virtual_anonymous = record free_slot {
    username = codes "anonymous";
    home_dir = codes "/pub";
    permissions = perm_read;
  };
}

abbrev with_ann : Option Auth
with_ann = add_user (codes "ann") (codes "pw") (codes "/ann") 3 empty_auth

abbrev ann_or : Option Auth → Auth
ann_or none = empty_auth
ann_or (some a) = a

add_user-authenticate_example : authenticate (codes "ann") (codes "pw") (ann_or with_ann) ≡ (
    if str_eq (codes "ann") (codes "ann")
    then (true && is_anonymous (codes "ann"))
      || verify_password (codes "pw") (hash_password (codes "pw"))
    else authenticate (codes "ann") (codes "pw") empty_auth)
unfolding add_user
add_user-authenticate_example =
    add_user-authenticate (codes "ann") (codes "pw") (codes "/ann") 3 empty_auth (ann_or with_ann)
      (omega arith) refl (codes "ann") (codes "pw")

-- Two passwords with one 32-bit sum.
verify_password_example :
    (verify_password (codes "Aa") (hash_password (codes "BB")) ≡ true)
    ↔ (simple_hash_go 0 (codes "Aa") ≡ simple_hash_go 0 (codes "BB"))
verify_password_example = verify_password_iff (codes "Aa") (codes "BB")

all_registered : (register_standard_handlers (cmd_init unset)).0 ≡ true
unfolding register_standard_handlers cmd_init
all_registered = refl

counted : handler_count standard ≡ 31
unfolding register_standard_handlers cmd_init handler_count
counted = refl

abbrev two_slots : Registry Handler
two_slots = record { initialized = true; handlers = empty_entry ∷ empty_entry ∷ [] }

abbrev registry_or : Option (Registry Handler) → Registry Handler
registry_or none = two_slots
registry_or (some r) = r

abbrev with_user : Registry Handler
with_user = registry_or (register_handler (codes "user") user (some clear_all) two_slots)

register_handler_example : handlers_for (codes "USER") (with_user).handlers ≡ (
    if str_eq (cmd_upper (codes "user")) (codes "USER")
    then some (some user, some clear_all)
    else handlers_for (codes "USER") (two_slots).handlers)
unfolding register_handler
register_handler_example =
    register_handler-handlers_for (codes "user") user (some clear_all) two_slots {after = with_user}
      refl (codes "USER")

unregister_handler_example :
    handlers_for (codes "USER") (registry_or (unregister_handler (codes "User") with_user)).handlers
    ≡ (if str_eq (cmd_upper (codes "User")) (codes "USER")
        then none
        else handlers_for (codes "USER") (with_user).handlers)
unfolding register_handler unregister_handler Table.Distinct lookup is_handler toupper
unregister_handler_example =
    unregister_handler-handlers_for (codes "User") with_user
      {after = registry_or (unregister_handler (codes "User") with_user)}
      ((λ e. refl), ((λ e. absurd (cc e)), tt)) refl (codes "USER")

register_handler-Distinct_example : Table.Distinct (with_user).handlers
unfolding register_handler Table.Distinct lookup
register_handler-Distinct_example =
    register_handler-Distinct (codes "user") user (some clear_all) two_slots {after = with_user}
      ((λ e. refl), ((λ e. refl), tt)) refl
