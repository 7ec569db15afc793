-- ===== src/FileLock/Abstract.antt =====
-- The list of entries stands for a map from paths to counters, in which a path with no entry has
-- zeros. Each call acts on the counters of its own path alone.

use simple_ftp.Base.{
  ◌-◌, ◌≡◌, refl, sym, ap, subst, ◌∙◌, Bool, true, false, not, ◌&&◌, ◌||◌, Option, none, some, ltb,
  ◌==◌, if◌then◌else◌, Bool-cases, inl, inr, arith,
}
use simple_ftp.CString.{Bytes, str_eq}
use simple_ftp.CString.Laws.{str_eq_refl, str_eq_iff}
use simple_ftp.FileLock.{
  remove, modify, Entry, Table, path_valid, find, Allocation, get_or_create, increment, add_reader,
  set_writer, blocks_readers, blocks_writers, try_with, try_acquire_shared, try_acquire_exclusive,
  release_entry, is_idle, release_found, release,
}
use simple_ftp.FileLock.Counts.{
  Distinct, find-modify, find-remove, Distinct-modify, Distinct-remove,
}
use simple_ftp.FileLock.Try.{
  Counts, zeros, counts_of, counts, has_entry, tried-result, tried-counts, tried-Distinct,
}

-- A reader may enter: nobody writes and nobody waits to write.
abbrev pub bars_readers : Counts → Bool
bars_readers c = ltb 0 c.writers || ltb 0 c.waiting

-- A writer may enter: nobody writes and nobody reads.
abbrev pub bars_writers : Counts → Bool
bars_writers c = ltb 0 c.writers || ltb 0 c.readers

abbrev pub one_reader_more : Counts → Counts
one_reader_more c = record c { readers = increment c.readers }

abbrev pub written : Counts → Counts
written c = record c { writers = 1 }

-- `file_lock_release_shared` never goes below zero; `file_lock_release_exclusive` clears the writer
-- whoever calls it.
abbrev pub released : Bool → Counts → Counts
released true c = record c { writers = 0 }
released false c = if c.readers == 0 then c else record c { readers = c.readers - 1 }

-- What a call promises: its result, the counters of every path afterwards, and entries that stay
-- distinct.
pub record Grants (asked : Bool) (change : Counts → Counts) (p : Bytes) (t : Table)
    (after : Bool × Table) : Type 0 where
  pub result : after.0 ≡ asked
  pub others :
      (q : Bytes)
      → counts q after.1 ≡ (if asked && str_eq p q then change (counts q t) else counts q t)
  pub distinct : Distinct after.1

-- The common part at the two locks.
module _ (alloc : Allocation) (p : Bytes) (t : Table) (d : Distinct t) where
  shared_part :
      Grants
        (has_entry alloc p t && not (bars_readers (counts p t)))
        one_reader_more
        p
        t
        (try_with blocks_readers add_reader p t (get_or_create alloc p t))
  unfolding blocks_readers
  shared_part = record {
    result = result;
    others = λ q.
        tried-counts blocks_readers bars_readers add_reader one_reader_more (λ e. refl) refl
          (λ e. refl) (λ e. refl) alloc p q t
        ∙ ap (λ b. if b && str_eq p q then one_reader_more (counts q t) else counts q t) result;
    distinct =
        tried-Distinct blocks_readers bars_readers add_reader one_reader_more (λ e. refl) refl
          (λ e. refl) (λ e. refl) alloc p t d;
  }
    where
      result :
          (try_with blocks_readers add_reader p t (get_or_create alloc p t)).0
          ≡ (has_entry alloc p t && not (bars_readers (counts p t)))
      result =
          tried-result blocks_readers bars_readers add_reader one_reader_more (λ e. refl) refl
            (λ e. refl) (λ e. refl) alloc p t

  exclusive_part :
      Grants
        (has_entry alloc p t && not (bars_writers (counts p t)))
        written
        p
        t
        (try_with blocks_writers set_writer p t (get_or_create alloc p t))
  unfolding blocks_writers
  exclusive_part = record {
    result = result;
    others = λ q.
        tried-counts blocks_writers bars_writers set_writer written (λ e. refl) refl (λ e. refl)
          (λ e. refl) alloc p q t
        ∙ ap (λ b. if b && str_eq p q then written (counts q t) else counts q t) result;
    distinct =
        tried-Distinct blocks_writers bars_writers set_writer written (λ e. refl) refl (λ e. refl)
          (λ e. refl) alloc p t d;
  }
    where
      result :
          (try_with blocks_writers set_writer p t (get_or_create alloc p t)).0
          ≡ (has_entry alloc p t && not (bars_writers (counts p t)))
      result =
          tried-result blocks_writers bars_writers set_writer written (λ e. refl) refl (λ e. refl)
            (λ e. refl) alloc p t

-- `file_lock_try_acquire_shared` succeeds exactly if the path is valid, an entry is there or can be
-- made, and nobody writes or waits to write; it then adds one reader to the path and changes the
-- counters of no other path. If it fails it changes no counters at all.
pub try_acquire_shared-Grants :
    (alloc : Allocation) (p : Bytes) (t : Table)
    → Distinct t
    → Grants
        (path_valid p && (has_entry alloc p t && not (bars_readers (counts p t))))
        one_reader_more
        p
        t
        (try_acquire_shared alloc p t)
unfolding try_acquire_shared
try_acquire_shared-Grants alloc p t d = elim (Bool-cases (path_valid p)) [
  | inl valid ↦ rw valid (shared_part alloc p t d)
  | inr invalid ↦ rw invalid (record { result = refl; others = λ q. refl; distinct = d })
]

-- `file_lock_try_acquire_exclusive` succeeds exactly if the path is valid, an entry is there or can
-- be made, and nobody writes or reads; it then sets the path's writer and changes the counters of no
-- other path. If it fails it changes no counters at all. Writers that wait do not stop it.
pub try_acquire_exclusive-Grants :
    (alloc : Allocation) (p : Bytes) (t : Table)
    → Distinct t
    → Grants
        (path_valid p && (has_entry alloc p t && not (bars_writers (counts p t))))
        written
        p
        t
        (try_acquire_exclusive alloc p t)
unfolding try_acquire_exclusive
try_acquire_exclusive-Grants alloc p t d = elim (Bool-cases (path_valid p)) [
  | inl valid ↦ rw valid (exclusive_part alloc p t d)
  | inr invalid ↦ rw invalid (record { result = refl; others = λ q. refl; distinct = d })
]

release_entry-path : (x : Bool) (e : Entry) → (release_entry x e).path ≡ e.path
unfolding release_entry
release_entry-path true e = refl
release_entry-path false e = ground arith

release_entry-counts :
    (x : Bool) (e : Entry) → counts_of (some (release_entry x e)) ≡ released x (counts_of (some e))
unfolding release_entry
release_entry-counts true e = refl
release_entry-counts false e = elim (Bool-cases (e.readers == 0)) [
  | inl empty ↦ rw empty refl
  | inr held ↦ rw held refl
]

is_idle-zeros : (e : Entry) → is_idle e ≡ true → counts_of (some e) ≡ zeros
unfolding is_idle
is_idle-zeros e h = ground arith

released-zeros : (x : Bool) → released x zeros ≡ zeros
released-zeros true = refl
released-zeros false = refl

-- Whether the path has an entry whose counters are all zero.
abbrev idle_of : Option Entry → Bool
idle_of none = false
idle_of (some e) = is_idle e

abbrev pub has_idle : Bytes → Table → Bool
has_idle p t = idle_of (find p t)

no_idle_left :
    (x : Bool) (p : Bytes) (t : Table)
    → Distinct t
    → has_idle p (release_found x p t (find p t)) ≡ false
no_idle_left x p t d = of_found (find p t) refl
  where
    of_found : (o : Option Entry) → find p t ≡ o → has_idle p (release_found x p t o) ≡ false
    of_found none h = unfold release_found in ap idle_of h
    of_found (some e) h = elim (Bool-cases (is_idle (release_entry x e))) [
      | inl idle ↦
          let removed : find p (remove p t) ≡ none = rw (find-remove p p t d, str_eq_refl p) refl in
          unfold release_found in rw idle (ap idle_of removed)
      | inr kept ↦
          let modified : find p (modify p (release_entry x) t) ≡ some (release_entry x e) =
            rw (find-modify p p (release_entry x) t (release_entry-path x), str_eq_refl p, h)
              refl in
          unfold release_found in rw kept (ap idle_of modified ∙ kept)
    ]

-- A release acts on the counters of its own path alone, if that is a valid one, and leaves no entry of it
-- whose counters are all zero in the list; no path gets a second entry.
pub release-counts :
    (exclusive : Bool) (p : Bytes) (t : Table)
    → Distinct t
    → ((q : Bytes)
        → counts q (release exclusive p t)
          ≡ (if path_valid p && str_eq p q then released exclusive (counts q t) else counts q t))
      × Distinct (release exclusive p t)
      × ((path_valid p && has_idle p (release exclusive p t)) ≡ false)
unfolding release
release-counts exclusive p t d = elim (Bool-cases (path_valid p)) [
  | inl valid ↦
      let (counted, distinct) = of_found (find p t) refl in
      rw valid (counted, distinct, no_idle_left exclusive p t d)
  | inr invalid ↦ rw invalid ((λ q. refl), d, refl)
]
  where
    Promise : Table → Type 0
    Promise u =
        ((q : Bytes)
          → counts q u ≡ (if str_eq p q then released exclusive (counts q t) else counts q t))
        × Distinct u

    of_found : (o : Option Entry) → find p t ≡ o → Promise (release_found exclusive p t o)
    of_found none h = (
      (λ q. elim (Bool-cases (str_eq p q)) [
        | inl same ↦
            let gone : find q t ≡ none = subst (λ x. find x t ≡ none) ((str_eq_iff p q).0 same) h in
            unfold counts in rw (same, gone) (sym (released-zeros exclusive))
        | inr other ↦ rw other refl
      ]),
      d,
    )
    of_found (some e) h = elim (Bool-cases (is_idle (release_entry exclusive e))) [
      | inl idle ↦ rw idle (
        (λ q.
            unfold counts in
            rw (find-remove p q t d) (elim (Bool-cases (str_eq p q)) [
              | inl same ↦
                  rw (same, at_path q same h)
                    (sym (is_idle-zeros (release_entry exclusive e) idle)
                      ∙ release_entry-counts exclusive e)
              | inr other ↦ rw other refl
            ])),
        Distinct-remove p t d,
      )
      | inr kept ↦ rw kept (
        (λ q.
            unfold counts in
            rw (find-modify p q (release_entry exclusive) t (release_entry-path exclusive))
              (elim (Bool-cases (str_eq p q)) [
                | inl same ↦ rw (same, at_path q same h) (release_entry-counts exclusive e)
                | inr other ↦ rw other refl
              ])),
        Distinct-modify p (release_entry exclusive) t (release_entry-path exclusive) d,
      )
    ]
      where
        at_path : (q : Bytes) → str_eq p q ≡ true → find p t ≡ some e → find q t ≡ some e
        at_path q same k = subst (λ y. find y t ≡ some e) ((str_eq_iff p q).0 same) k
