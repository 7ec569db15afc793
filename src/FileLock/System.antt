-- ===== src/FileLock/System.antt =====
-- The threads of the server as clients of the locks: any interleaving of tries and releases, where a
-- thread gives back only what it was granted, as the handlers and the transfer thread do.
use simple_ftp.Base.{
  ℕ, ◌+◌, ◌-◌, ◌^◌, ◌≤◌, ◌<◌, ◌≡◌, refl, ap, subst, Bool, true, false, not, ◌&&◌, Option, none,
  some, List, [], ◌∷◌, ltb, if◌then◌else◌, length, All, Bool-cases, ltb→lt, ◌⊎◌, inl, inr, arith,
}
use simple_ftp.CString.{Bytes, str_eq}
use simple_ftp.CString.Laws.{str_eq_iff}
use simple_ftp.FileLock.{
  Entry, Table, path_valid, find, Allocation, try_acquire_shared, try_acquire_exclusive, release,
  pos, negsuc, to_int, get_shared_lock_count, is_exclusive_locked,
}
use simple_ftp.FileLock.Counts.{Distinct}
use simple_ftp.FileLock.Try.{counts, counts_of, has_entry}
use simple_ftp.FileLock.Abstract.{
  bars_readers, bars_writers, one_reader_more, written, released, Grants, try_acquire_shared-Grants,
  try_acquire_exclusive-Grants, release-counts,
}

-- A lock that some thread holds.
pub record Hold : Type 0 where
  pub exclusive : Bool
  pub path : Bytes

pub record System : Type 0 where
  pub table : Table
  pub held : List Hold

pub data Request : Type 0 where
  try_shared : Allocation → Bytes → Request
  try_exclusive : Allocation → Bytes → Request
  give_back : Bool → Bytes → Request

same_flag : Bool → Bool → Bool
same_flag true b = b
same_flag false b = not b

unfoldable pub is_hold : Bool → Bytes → Hold → Bool
unfolding same_flag
is_hold x p h = same_flag x h.exclusive && str_eq h.path p

-- How many threads hold the path in this mode.
pub holders : Bool → Bytes → List Hold → ℕ
unfolding is_hold
holders x p [] = 0
holders x p (h ∷ held) = (if is_hold x p h then 1 else 0) + holders x p held

drop_one : Bool → Bytes → List Hold → List Hold
unfolding is_hold
drop_one x p [] = []
drop_one x p (h ∷ held) = if is_hold x p h then held else h ∷ drop_one x p held

granted : Bool → Bytes → List Hold → Bool × Table → System
granted x p held (true, t) = record { table = t; held = record { exclusive = x; path = p } ∷ held }
granted x p held (false, t) = record { table = t; held = held }

unfoldable pub step : System → Request → System
unfolding granted holders drop_one
step s (try_shared alloc p) = granted false p s.held (try_acquire_shared alloc p s.table)
step s (try_exclusive alloc p) = granted true p s.held (try_acquire_exclusive alloc p s.table)
step s (give_back x p) =
    if ltb 0 (holders x p s.held)
    then record { table = release x p s.table; held = drop_one x p s.held }
    else s

unfoldable pub run : System → List Request → System
unfolding step
run s [] = s
run s (r ∷ rs) = run (step s r) rs

abbrev pub start : System
start = record { table = []; held = [] }

-- One writer, or readers, or nobody.
abbrev pub Excludes : Bytes → List Hold → Type 0
Excludes p held =
    (holders true p held ≤ 1) × ((holders true p held ≡ 0) ⊎ (holders false p held ≡ 0))

record Inv (n : ℕ) (s : System) : Type 0 where
  distinct : Distinct s.table
  readers : (p : Bytes) → (counts p s.table).readers ≡ holders false p s.held
  writers : (p : Bytes) → (counts p s.table).writers ≡ holders true p s.held
  waiting : (p : Bytes) → (counts p s.table).waiting ≡ 0
  few : length s.held ≤ n
  valid : All (λ (h : Hold). path_valid h.path ≡ true) s.held
  excludes : (p : Bytes) → Excludes p s.held

start-Inv : Inv 0 start
unfolding holders counts find
start-Inv = record {
  distinct = tt;
  readers = λ p. refl;
  writers = λ p. refl;
  waiting = λ p. refl;
  few = omega arith;
  valid = tt;
  excludes = λ p. (omega arith, inl refl);
}

holders-le : (x : Bool) (p : Bytes) (held : List Hold) → holders x p held ≤ length held
unfolding holders
holders-le x p [] = omega arith
holders-le x p (h ∷ held) = ground (arith, holders-le x p held)

shared-Inv :
    (n : ℕ) (alloc : Allocation) (p : Bytes) (s : System)
    → n + 1 < 2 ^ 32
    → Inv n s
    → (g : Bool × Table)
    → Grants
        (path_valid p && (has_entry alloc p s.table && not (bars_readers (counts p s.table))))
        one_reader_more
        p
        s.table
        g
    → Inv (n + 1) (granted false p s.held g)
unfolding granted holders is_hold same_flag
shared-Inv n alloc p s small v (true, t) g = record {
  distinct = g.distinct;
  readers =
      λ q. ground (arith, g.result, g.others q, v.readers q, holders-le false q s.held, v.few);
  writers = λ q. ground (arith, g.result, g.others q, v.writers q);
  waiting = λ q. ground (arith, g.result, g.others q, v.waiting q);
  few = omega (arith, v.few);
  valid = ((ground (arith, g.result)), v.valid);
  excludes = λ q. ground (arith, g.result, v.excludes q, v.writers q, v.writers p, str_eq_iff p q);
}
shared-Inv n alloc p s small v (false, t) g = record {
  distinct = g.distinct;
  readers = λ q. ground (arith, g.result, g.others q, v.readers q);
  writers = λ q. ground (arith, g.result, g.others q, v.writers q);
  waiting = λ q. ground (arith, g.result, g.others q, v.waiting q);
  few = omega (arith, v.few);
  valid = v.valid;
  excludes = v.excludes;
}

exclusive-Inv :
    (n : ℕ) (alloc : Allocation) (p : Bytes) (s : System)
    → Inv n s
    → (g : Bool × Table)
    → Grants
        (path_valid p && (has_entry alloc p s.table && not (bars_writers (counts p s.table))))
        written
        p
        s.table
        g
    → Inv (n + 1) (granted true p s.held g)
unfolding granted holders is_hold same_flag
exclusive-Inv n alloc p s v (true, t) g = record {
  distinct = g.distinct;
  readers = λ q. ground (arith, g.result, g.others q, v.readers q);
  writers = λ q. ground (arith, g.result, g.others q, v.writers q, v.writers p, str_eq_iff p q);
  waiting = λ q. ground (arith, g.result, g.others q, v.waiting q);
  few = omega (arith, v.few);
  valid = ((ground (arith, g.result)), v.valid);
  excludes = λ q. ground (
    arith,
    g.result,
    v.excludes q,
    v.writers q,
    v.writers p,
    v.readers q,
    v.readers p,
    str_eq_iff p q,
  );
}
exclusive-Inv n alloc p s v (false, t) g = record {
  distinct = g.distinct;
  readers = λ q. ground (arith, g.result, g.others q, v.readers q);
  writers = λ q. ground (arith, g.result, g.others q, v.writers q);
  waiting = λ q. ground (arith, g.result, g.others q, v.waiting q);
  few = omega (arith, v.few);
  valid = v.valid;
  excludes = v.excludes;
}

holders-drop_one :
    (x y : Bool) (p q : Bytes) (held : List Hold)
    → 0 < holders x p held
    → holders y q (drop_one x p held)
      ≡ (if same_flag x y && str_eq p q then holders y q held - 1 else holders y q held)
unfolding holders drop_one is_hold same_flag
holders-drop_one x y p q [] h = absurd (omega (arith, h))
holders-drop_one x y p q (k ∷ held) h =
    ground (
      arith,
      str_eq_iff k.path p,
      str_eq_iff p q,
      str_eq_iff k.path q,
      holders-drop_one x y p q held,
    )

drop_one-All :
    (P : Hold → Type 0) (x : Bool) (p : Bytes) (held : List Hold)
    → All P held
    → All P (drop_one x p held)
unfolding drop_one
drop_one-All P x p [] h = tt
drop_one-All P x p (k ∷ held) h = elim (Bool-cases (is_hold x p k)) [
  | inl here ↦ rw here h.1
  | inr there ↦ rw there (h.0, drop_one-All P x p held h.1)
]

drop_one-le : (x : Bool) (p : Bytes) (held : List Hold) → length (drop_one x p held) ≤ length held
unfolding drop_one
drop_one-le x p [] = omega arith
drop_one-le x p (k ∷ held) = ground (arith, drop_one-le x p held)

-- Whatever is held has a valid path.
held_valid :
    (x : Bool) (p : Bytes) (held : List Hold)
    → All (λ (h : Hold). path_valid h.path ≡ true) held
    → 0 < holders x p held
    → path_valid p ≡ true
unfolding holders is_hold
held_valid x p [] v h = absurd (omega (arith, h))
held_valid x p (k ∷ held) v h = elim (Bool-cases (str_eq k.path p)) [
  | inl same ↦ subst (λ q. path_valid q ≡ true) ((str_eq_iff k.path p).0 same) v.0
  | inr other ↦ held_valid x p held v.1 (ground (arith, h, other))
]

give_back-Inv :
    (n : ℕ) (x : Bool) (p : Bytes) (s : System)
    → Inv n s
    → 0 < holders x p s.held
    → Inv n (record { table = release x p s.table; held = drop_one x p s.held })
unfolding same_flag
give_back-Inv n x p s v h = record {
  distinct = (release-counts x p s.table v.distinct).1;
  readers = λ q.
      readers_after x q ((release-counts x p s.table v.distinct).0 q)
        (holders-drop_one x false p q s.held h);
  writers = λ q.
      writers_after x q ((release-counts x p s.table v.distinct).0 q)
        (holders-drop_one x true p q s.held h);
  waiting = λ q. waiting_after x q ((release-counts x p s.table v.distinct).0 q);
  few = omega (arith, v.few, drop_one-le x p s.held);
  valid = drop_one-All (λ k. path_valid k.path ≡ true) x p s.held v.valid;
  excludes = λ q. ground (
    arith,
    v.excludes q,
    holders-drop_one x true p q s.held h,
    holders-drop_one x false p q s.held h,
  );
}
  where
    ok : path_valid p ≡ true
    ok = held_valid x p s.held v.valid h

    After : Bool → Bytes → Type 0
    After y q =
        counts q (release y p s.table)
        ≡ (if path_valid p && str_eq p q then released y (counts q s.table) else counts q s.table)

    Dropped : Bool → Bool → Bytes → Type 0
    Dropped x y q =
        holders y q (drop_one x p s.held)
        ≡ (if same_flag x y && str_eq p q then holders y q s.held - 1 else holders y q s.held)

    readers_after :
        (y : Bool) (q : Bytes)
        → After y q
        → Dropped y false q
        → (counts q (release y p s.table)).readers ≡ holders false q (drop_one y p s.held)
    readers_after true q a d = ground (arith, a, d, v.readers q)
    readers_after false q a d = ground (arith, a, d, v.readers q, ok)

    writers_after :
        (y : Bool) (q : Bytes)
        → After y q
        → Dropped y true q
        → (counts q (release y p s.table)).writers ≡ holders true q (drop_one y p s.held)
    writers_after true q a d = ground (arith, a, d, v.writers q, ok, v.excludes q)
    writers_after false q a d = ground (arith, a, d, v.writers q)

    waiting_after :
        (y : Bool) (q : Bytes) → After y q → (counts q (release y p s.table)).waiting ≡ 0
    waiting_after true q a = ground (arith, a, v.waiting q)
    waiting_after false q a = ground (arith, a, v.waiting q)

more_room : (n : ℕ) (s : System) → Inv n s → Inv (n + 1) s
more_room n s v = record {
  distinct = v.distinct;
  readers = v.readers;
  writers = v.writers;
  waiting = v.waiting;
  few = omega (arith, v.few);
  valid = v.valid;
  excludes = v.excludes;
}

step-Inv : (n : ℕ) (s : System) (r : Request) → n + 1 < 2 ^ 32 → Inv n s → Inv (n + 1) (step s r)
unfolding step
step-Inv n s (try_shared alloc p) small v =
    shared-Inv n alloc p s small v (try_acquire_shared alloc p s.table)
      (try_acquire_shared-Grants alloc p s.table v.distinct)
step-Inv n s (try_exclusive alloc p) small v =
    exclusive-Inv n alloc p s v (try_acquire_exclusive alloc p s.table)
      (try_acquire_exclusive-Grants alloc p s.table v.distinct)
step-Inv n s (give_back x p) small v = elim (Bool-cases (ltb 0 (holders x p s.held))) [
  | inl some_held ↦ rw some_held (
      more_room n (record { table = release x p s.table; held = drop_one x p s.held })
        (give_back-Inv n x p s v (ltb→lt 0 (holders x p s.held) some_held)))
  | inr none_held ↦ rw none_held (more_room n s v)
]

run-Inv :
    (n : ℕ) (s : System) (rs : List Request)
    → n + length rs < 2 ^ 32
    → Inv n s
    → Inv (n + length rs) (run s rs)
unfolding run
run-Inv n s [] small v = subst (λ m. Inv m s) (omega arith) v
run-Inv n s (r ∷ rs) small v =
    subst (λ m. Inv m (run (step s r) rs)) (omega arith)
      (run-Inv (n + 1) (step s r) rs (omega (arith, small))
        (step-Inv n s r (omega (arith, small)) v))

-- After any sequence of fewer than 2 ^ 32 tries and releases that starts with an empty list, each path
-- is held by at most one writer, and never by a writer and a reader at once; and for each valid path
-- `file_lock_get_shared_lock_count` gives the number of its readers as an `int`, which is the number
-- itself below 2 ^ 31 and a negative one from there on, and
-- `file_lock_is_exclusive_locked` whether it has a writer. A thread releases only what it holds.
pub mutual_exclusion :
    (rs : List Request)
    → length rs < 2 ^ 32
    → (p : Bytes)
    → Excludes p (run start rs).held
      × (get_shared_lock_count p (run start rs).table
          ≡ (if path_valid p then to_int (holders false p (run start rs).held) else negsuc 0))
      × (is_exclusive_locked p (run start rs).table
          ≡ (if path_valid p then some (ltb 0 (holders true p (run start rs).held)) else none))
unfolding to_int get_shared_lock_count is_exclusive_locked counts
mutual_exclusion rs small p = (
  v.excludes p,
  ap (λ o. if path_valid p then o else negsuc 0)
      (of_readers (find p (run start rs).table) (v.readers p)),
  ap (λ o. if path_valid p then o else none)
      (of_writers (find p (run start rs).table) (v.writers p)),
)
  where
    v : Inv (length rs) (run start rs)
    v =
        subst (λ m. Inv m (run start rs)) (omega arith)
          (run-Inv 0 start rs (omega (arith, small)) start-Inv)

    of_readers :
        (o : Option Entry)
        → (counts_of o).readers ≡ holders false p (run start rs).held
        → elim o [ none ↦ pos 0 | some e ↦ to_int e.readers ]
          ≡ to_int (holders false p (run start rs).held)
    of_readers none h = ap to_int h
    of_readers (some e) h = ap to_int h

    of_writers :
        (o : Option Entry)
        → (counts_of o).writers ≡ holders true p (run start rs).held
        → elim o [ none ↦ some false | some e ↦ some (ltb 0 e.writers) ]
          ≡ some (ltb 0 (holders true p (run start rs).held))
    of_writers none h = ap (λ n. some (ltb 0 n)) h
    of_writers (some e) h = ap (λ n. some (ltb 0 n)) h
