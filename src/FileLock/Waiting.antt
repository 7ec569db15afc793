-- ===== src/FileLock/Waiting.antt =====
-- The blocking calls of server/src/filelock.c, each up to its first test. A thread that waits keeps
-- the address of its entry and reads the entry again at each wake-up.

use simple_ftp.Base.{
  ℕ, ◌≡◌, refl, subst, true, false, Option, none, some, some_inj, [], ◌∷◌, ◌==◌, if◌then◌else◌, All,
  Bool-cases, inl, inr, arith,
}
use simple_ftp.CString.{Bytes, str_eq}
use simple_ftp.FileLock.{
  Entry, Table, path_valid, find, modify, remove, Allocation, get_or_create, increment, decrement,
  add_reader, blocks_readers, blocks_writers, release, release_found, release_entry, is_idle,
}

-- What a blocking call does before it first sleeps: it fails, sleeps at an address, or has the lock.
pub data Entered : Type 0 where
  failed : Table → Entered
  sleeps : ℕ → Table → Entered
  acquired : Table → Entered

abbrev pub enter_shared : Bytes → Table → Option (Entry × Table) → Entered
enter_shared path t none = failed t
enter_shared path t (some (e, u)) =
    if blocks_readers e then sleeps e.address u else acquired (modify path add_reader u)

-- `file_lock_acquire_shared` up to `pthread_cond_wait`
unfoldable pub acquire_shared_enter : Allocation → Bytes → Table → Entered
unfolding path_valid get_or_create blocks_readers modify
acquire_shared_enter alloc path t =
    if path_valid path then enter_shared path t (get_or_create alloc path t) else failed t

abbrev pub wait_to_write : Entry → Entry
wait_to_write e = record e { waiting_writers = increment e.waiting_writers }

abbrev pub start_to_write : Entry → Entry
start_to_write e = record e { waiting_writers = decrement e.waiting_writers; writers = 1 }

abbrev pub enter_exclusive : Bytes → Table → Option (Entry × Table) → Entered
enter_exclusive path t none = failed t
enter_exclusive path t (some (e, u)) =
    let w = modify path wait_to_write u in
    if blocks_writers e then sleeps e.address w else acquired (modify path start_to_write w)

-- `file_lock_acquire_exclusive` up to `pthread_cond_wait`
unfoldable pub acquire_exclusive_enter : Allocation → Bytes → Table → Entered
unfolding path_valid get_or_create blocks_writers modify
acquire_exclusive_enter alloc path t =
    if path_valid path then enter_exclusive path t (get_or_create alloc path t) else failed t

-- The entry in the list at an address; `none` once it has been freed.
unfoldable pub at_address : ℕ → Table → Option Entry
at_address a [] = none
at_address a (e ∷ t) = if e.address == a then some e else at_address a t

abbrev pub Separate : Table → Type 0
Separate [] = Unit
Separate (e ∷ t) = All (λ (f : Entry). (f.address == e.address) ≡ false) t × Separate t

absent-at_address :
    (a : ℕ) (t : Table) → All (λ (f : Entry). (f.address == a) ≡ false) t → at_address a t ≡ none
unfolding at_address
absent-at_address a [] h = refl
absent-at_address a (f ∷ t) h = rw h.0 (absent-at_address a t h.1)

found_elsewhere :
    (p : Bytes) (e f : Entry) (t : Table)
    → All (λ (g : Entry). (g.address == f.address) ≡ false) t
    → find p t ≡ some e
    → (e.address == f.address) ≡ false
unfolding find
found_elsewhere p e f [] h k = absurd (cc k)
found_elsewhere p e f (g ∷ t) h k = elim (Bool-cases (str_eq g.path p)) [
  | inl here ↦ subst (λ (x : Entry). (x.address == f.address) ≡ false) (some_inj (rw here at k)) h.0
  | inr there ↦ found_elsewhere p e f t h.1 (rw there at k)
]

at_address-remove :
    (p : Bytes) (e : Entry) (t : Table)
    → Separate t
    → find p t ≡ some e
    → at_address e.address (remove p t) ≡ none
unfolding find remove at_address
at_address-remove p e [] s k = absurd (cc k)
at_address-remove p e (f ∷ t) s k = elim (Bool-cases (str_eq f.path p)) [
  | inl here ↦ rw here (
      subst (λ (x : Entry). at_address x.address t ≡ none) (some_inj (rw here at k))
        (absent-at_address f.address t s.0))
  | inr there ↦ rw there (
      ground (
        arith,
        found_elsewhere p e f t s.0 (rw there at k),
        at_address-remove p e t s.1 (rw there at k),
      ))
]

-- Where one writer holds a path that nobody reads or waits to write, a call of
-- `file_lock_acquire_shared` sleeps at the path's entry and leaves no trace in the list, and the
-- writer's `file_lock_release_exclusive` then frees that entry while the reader still sleeps on it.
pub sleeping_reader_loses_entry :
    (alloc : Allocation) (p : Bytes) (e : Entry) (t : Table)
    → path_valid p ≡ true
    → Separate t
    → find p t ≡ some e
    → e.writers ≡ 1
    → e.readers ≡ 0
    → e.waiting_writers ≡ 0
    → (acquire_shared_enter alloc p t ≡ sleeps e.address t)
      × (at_address e.address (release true p t) ≡ none)
unfolding acquire_shared_enter release release_found release_entry is_idle
sleeping_reader_loses_entry alloc p e t valid s k w r q = (
  rw (valid, k, get_or_create) (rw (w, blocks_readers) refl),
  rw (valid, k, r, q) (at_address-remove p e t s k),
)
