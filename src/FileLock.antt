-- ===== src/FileLock.antt =====
-- server/src/filelock.c: reader and writer locks on paths, kept in one list under one mutex. Each call
-- holds the mutex throughout, so it is a function on the list; a call that may wait is modelled up to
-- its first sleep (`…_enter`). Log lines are left out.
pub mod Counts
pub mod Try
pub mod Abstract
pub mod System
pub mod Waiting
use mathlib.Core.Option
use simple_ftp.Base.{
  ℕ, zero, suc, ◌+◌, ◌-◌, ◌%◌, ◌^◌, Bool, true, false, not, ◌&&◌, ◌||◌, Option, none, some, List,
  [], ◌∷◌, ltb, leb, ◌==◌, if◌then◌else◌, length,
}
use simple_ftp.CString.{Bytes, str_eq}
use simple_ftp.Session.Path.{max_path}

-- `file_lock_entry_t`; `address` is the pointer to it, and `unsigned int` counters wrap at 2 ^ 32.
pub record Entry : Type 0 where
  pub address : ℕ
  pub path : Bytes
  pub readers : ℕ
  pub writers : ℕ
  pub waiting_writers : ℕ

-- `g_file_lock_entries`
abbrev pub Table : Type 0
Table = List Entry

-- `file_lock_path_valid`
unfoldable pub path_valid : Bytes → Bool
path_valid path = not (length path == 0) && ltb (length path) max_path

-- `file_lock_find`
unfoldable pub find : Bytes → Table → Option Entry
find path [] = none
find path (e ∷ t) = if str_eq e.path path then some e else find path t

-- A write through the pointer that `file_lock_find` returns.
unfoldable pub modify : Bytes → (Entry → Entry) → Table → Table
modify path f [] = []
modify path f (e ∷ t) = if str_eq e.path path then f e ∷ t else e ∷ modify path f t

-- `file_lock_remove_entry` on the entry that `file_lock_find` returns.
unfoldable pub remove : Bytes → Table → Table
remove path [] = []
remove path (e ∷ t) = if str_eq e.path path then t else e ∷ remove path t

-- What `calloc` returns: none for NULL, else the address of a new entry.
abbrev pub Allocation : Type 0
Allocation = Option ℕ

unfoldable pub create : Allocation → Bytes → Table → Option (Entry × Table)
create none path t = none
create (some address) path t =
    let e : Entry = record {
      address = address;
      path = path;
      readers = 0;
      writers = 0;
      waiting_writers = 0;
    } in
    some (e, e ∷ t)

-- `file_lock_get_or_create`: the entry, and the list with it.
unfoldable pub get_or_create : Allocation → Bytes → Table → Option (Entry × Table)
unfolding find create
get_or_create alloc path t = elim (find path t) [
  | some e ↦ some (e, t)
  | none ↦ create alloc path t
]

abbrev pub increment : ℕ → ℕ
increment n = (n + 1) % 2 ^ 32

abbrev pub decrement : ℕ → ℕ
decrement n = (n + 2 ^ 32 - 1) % 2 ^ 32

abbrev pub add_reader : Entry → Entry
add_reader e = record e { readers = increment e.readers }

abbrev pub set_writer : Entry → Entry
set_writer e = record e { writers = 1 }

-- `entry->writers > 0 || entry->waiting_writers > 0`
unfoldable pub blocks_readers : Entry → Bool
blocks_readers e = ltb 0 e.writers || ltb 0 e.waiting_writers

-- `entry->writers > 0 || entry->readers > 0`
unfoldable pub blocks_writers : Entry → Bool
blocks_writers e = ltb 0 e.writers || ltb 0 e.readers

-- The end of both `try` functions: the new list, and whether the lock was taken.
unfoldable pub try_with :
    (Entry → Bool) → (Entry → Entry) → Bytes → Table → Option (Entry × Table) → Bool × Table
unfolding modify
try_with blocked take path t none = (false, t)
try_with blocked take path t (some (e, u)) =
    if blocked e then (false, u) else (true, modify path take u)

-- `file_lock_try_acquire_shared`; `true` stands for 0 and `false` for -1.
unfoldable pub try_acquire_shared : Allocation → Bytes → Table → Bool × Table
unfolding path_valid get_or_create try_with blocks_readers
try_acquire_shared alloc path t =
    if path_valid path
    then try_with blocks_readers add_reader path t (get_or_create alloc path t)
    else (false, t)

-- `file_lock_try_acquire_exclusive`
unfoldable pub try_acquire_exclusive : Allocation → Bytes → Table → Bool × Table
unfolding path_valid get_or_create try_with blocks_writers
try_acquire_exclusive alloc path t =
    if path_valid path
    then try_with blocks_writers set_writer path t (get_or_create alloc path t)
    else (false, t)

-- The two branches on `exclusive` in `file_lock_release_common`.
unfoldable pub release_entry : Bool → Entry → Entry
release_entry true e = record e { writers = 0 }
release_entry false e = if e.readers == 0 then e else record e { readers = e.readers - 1 }

-- `entry->readers == 0 && entry->writers == 0 && entry->waiting_writers == 0`
unfoldable pub is_idle : Entry → Bool
is_idle e = e.readers == 0 && e.writers == 0 && e.waiting_writers == 0

unfoldable pub release_found : Bool → Bytes → Table → Option Entry → Table
unfolding modify remove release_entry is_idle
release_found exclusive path t none = t
release_found exclusive path t (some e) =
    if is_idle (release_entry exclusive e)
    then remove path t
    else modify path (release_entry exclusive) t

-- `file_lock_release_common`; the two release functions are its instances.
unfoldable pub release : Bool → Bytes → Table → Table
unfolding path_valid find release_found
release exclusive path t =
    if path_valid path then release_found exclusive path t (find path t) else t

-- `file_lock_is_exclusive_locked`; `none` stands for -1.
unfoldable pub is_exclusive_locked : Bytes → Table → Option Bool
unfolding path_valid find
is_exclusive_locked path t =
    if path_valid path
    then elim (find path t) [ none ↦ some false | some e ↦ some (ltb 0 e.writers) ]
    else none

-- The integers, for an `int`: `negsuc n` is -(n + 1).
pub data ℤ : Type 0 where
  pos negsuc : ℕ → ℤ

-- An `unsigned int` as an `int`.
unfoldable pub to_int : ℕ → ℤ
to_int n = if ltb n 0x80000000 then pos n else negsuc (0xFFFFFFFF - n)

-- `file_lock_get_shared_lock_count`
unfoldable pub get_shared_lock_count : Bytes → Table → ℤ
unfolding path_valid find to_int
get_shared_lock_count path t =
    if path_valid path
    then elim (find path t) [ none ↦ pos 0 | some e ↦ to_int e.readers ]
    else negsuc 0
