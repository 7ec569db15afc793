-- ===== src/Session/Data/Sockets.antt =====
-- One session's control thread and transfer thread at work on the data sockets: the control thread
-- calls `session_set_port`, `session_set_pasv` and `session_close_data_connection` at any time, also
-- while the transfer thread waits in `session_open_data_connection`.

use simple_ftp.Base.{
  ℕ, ◌+◌, ◌-◌, ◌≡◌, refl, sym, ap, ◌∙◌, ◌⊎◌, Bool, true, false, not, ◌||◌, Option, none, some, List,
  [], ◌∷◌, ◌++◌, ltb, ◌==◌, if◌then◌else◌, Bool-cases, inl, inr, arith,
}
use simple_ftp.CString.{Bytes}
use simple_ftp.Session.State.{Session, Socket, DataMode, no_mode, active, passive}
use simple_ftp.Session.Data.{
  opened, held, close_data_connection, set_port, set_pasv, Opening, returns, waits, open_mode,
  open_begin, Accept, accepted, would_block, refused, Round, ends, retries, is_listener,
  accept_answer, accept_once,
}

-- The session, what the transfer thread waits for with the rounds that it has left, and the sockets
-- that the network has given out and taken back.
pub record Work : Type 0 where
  pub session : Session
  pub waiting : Option (ℕ × ℕ)
  pub given : List ℕ
  pub closed : List ℕ

pub data Move : Type 0 where
  port : Bytes → ℕ → Move
  pasv : Option (ℕ × ℕ) → Move
  close quit time_out : Move
  open_data : Socket → Move
  accept : Accept → Move

abbrev given_by : Option (ℕ × ℕ) → List ℕ
given_by none = []
given_by (some (socket, p)) = socket ∷ []

abbrev after_close : Work → Session × List ℕ → Work
after_close w (s, c) = record w { session = s; closed = c ++ w.closed }

abbrev after_open : Work → Opening → Work
after_open w (returns ok s taken) = record w { session = s; given = taken ++ w.given }
after_open w (waits listener) = record w { waiting = some (listener, 3) }

abbrev after_round : Work → ℕ → ℕ → Round → Work
after_round w listener left (ends ok s taken c) = record {
  session = s;
  waiting = none;
  given = taken ++ w.given;
  closed = c ++ w.closed;
}
after_round w listener left (retries s) = record w {
  session = s;
  waiting = some (listener, left - 1);
}

-- The transfer thread begins only when it does not wait, and accepts only when it does.
unfoldable pub move : Work → Move → Work
unfolding close_data_connection set_port set_pasv open_begin accept_once
move w (port ip p) = after_close w (set_port ip p w.session)
move w (pasv listener) =
    let (ok, s, c) = set_pasv listener w.session in
    record w { session = s; given = given_by listener ++ w.given; closed = c ++ w.closed }
move w close = after_close w (close_data_connection w.session)
move w quit = record w { session = record w.session { should_quit = true } }
move w time_out = record w { waiting = none }
move w (open_data connected) = elim w.waiting [
  | some x ↦ w
  | none ↦ after_open w (open_begin connected w.session)
]
move w (accept answer) = elim w.waiting [
  | none ↦ w
  | some (listener, left) ↦ after_round w listener left (accept_once listener left answer w.session)
]

unfoldable pub moves : Work → List Move → Work
unfolding move
moves w [] = w
moves w (m ∷ ms) = moves (move w m) ms

unfoldable pub count : ℕ → List ℕ → ℕ
count k [] = 0
count k (x ∷ xs) = (if x == k then 1 else 0) + count k xs

count-append : (k : ℕ) (xs ys : List ℕ) → count k (xs ++ ys) ≡ count k xs + count k ys
unfolding count
count-append k [] ys = omega arith
count-append k (x ∷ xs) ys = omega (arith, count-append k xs ys)

abbrev held_count : ℕ → Session → ℕ
held_count k s = count k (opened s.data_socket) + count k (opened s.data_listen_socket)

record Inv (w : Work) : Type 0 where
  balanced : (k : ℕ) → count k w.given ≡ held_count k w.session + count k w.closed
  free : (w.waiting ≡ none) ⊎ (w.session.data_socket ≡ none)

closed_held :
    (k : ℕ) (s : Session) (rest : List ℕ) → count k (held s ++ rest) ≡ held_count k s + count k rest
closed_held k s rest = omega (
  arith,
  count-append k (held s) rest,
  count-append k (opened s.data_socket) (opened s.data_listen_socket),
)

module _ (w : Work) (v : Inv w) where
  close-Inv :
      (s : Session)
      → s.data_socket ≡ none
      → s.data_listen_socket ≡ none
      → Inv (after_close w (s, held w.session))
  unfolding count
  close-Inv s d l = record {
    balanced = λ k. omega (
      arith,
      v.balanced k,
      closed_held k w.session w.closed,
      ap (λ x. count k (opened x)) d,
      ap (λ x. count k (opened x)) l,
    );
    free = inr d;
  }

  pasv-Inv : (listener : Option (ℕ × ℕ)) → Inv (move w (pasv listener))
  unfolding move set_pasv count
  pasv-Inv none = record {
    balanced = λ k. omega (arith, v.balanced k, closed_held k w.session w.closed);
    free = inr refl;
  }
  pasv-Inv (some (socket, p)) = record {
    balanced = λ k. omega (arith, v.balanced k, closed_held k w.session w.closed);
    free = inr refl;
  }

  open_mode-Inv :
      (m : DataMode) (connected : Socket)
      → w.waiting ≡ none
      → w.session.data_socket ≡ none
      → Inv (after_open w (open_mode m connected w.session))
  unfolding open_mode count
  open_mode-Inv active none idle empty = record {
    balanced = λ k. omega (arith, v.balanced k, ap (λ x. count k (opened x)) empty);
    free = inl idle;
  }
  open_mode-Inv active (some socket) idle empty = record {
    balanced = λ k. omega (arith, v.balanced k, ap (λ x. count k (opened x)) empty);
    free = inl idle;
  }
  open_mode-Inv passive connected idle empty = of_listener w.session.data_listen_socket
    where
      of_listener :
          (o : Socket)
          → Inv (
              after_open w
                (elim o [ none ↦ returns false w.session [] | some listener ↦ waits listener ]))
      of_listener none = record { balanced = v.balanced; free = v.free }
      of_listener (some listener) = record { balanced = v.balanced; free = inr empty }
  open_mode-Inv no_mode connected idle empty = record { balanced = v.balanced; free = v.free }

  open-Inv :
      (connected : Socket) → w.waiting ≡ none → Inv (after_open w (open_begin connected w.session))
  unfolding open_begin
  open-Inv connected idle = of_data w.session.data_socket refl
    where
      of_data :
          (o : Socket)
          → w.session.data_socket ≡ o
          → Inv (
              after_open w (elim o [
                | some socket ↦ returns true w.session []
                | none ↦ open_mode w.session.data_mode connected w.session
              ]))
      of_data (some socket) e = record { balanced = v.balanced; free = inl idle }
      of_data none e = open_mode-Inv w.session.data_mode connected idle e

  answer-Inv :
      (listener left : ℕ) (answer : Accept)
      → w.session.data_socket ≡ none
      → Inv (after_round w listener left (accept_answer listener left answer w.session))
  unfolding accept_answer count
  answer-Inv listener left (accepted socket) empty = record {
    balanced = λ k. omega (
      arith,
      v.balanced k,
      ap (λ x. count k (opened x)) empty,
      count-append k (opened w.session.data_listen_socket) w.closed,
    );
    free = inl refl;
  }
  answer-Inv listener left would_block empty = elim (Bool-cases (ltb 1 left)) [
    | inl more ↦ rw more (record {
      balanced = λ k. omega (arith, v.balanced k, ap (λ x. count k (opened x)) empty);
      free = inr refl;
    })
    | inr last ↦ rw last (record {
      balanced = λ k. omega (arith, v.balanced k, ap (λ x. count k (opened x)) empty);
      free = inl refl;
    })
  ]
  answer-Inv listener left refused empty = record {
    balanced = λ k. omega (arith, v.balanced k, ap (λ x. count k (opened x)) empty);
    free = inl refl;
  }

  accept-Inv :
      (listener left : ℕ) (answer : Accept)
      → w.session.data_socket ≡ none
      → Inv (after_round w listener left (accept_once listener left answer w.session))
  unfolding accept_once
  accept-Inv listener left answer empty =
      of_test (not (is_listener listener w.session.data_listen_socket) || w.session.should_quit)
    where
      of_test :
          (b : Bool)
          → Inv (
              after_round w listener left (
                if b
                then ends false w.session [] []
                else accept_answer listener left answer w.session))
      of_test true = record { balanced = v.balanced; free = inl refl }
      of_test false = answer-Inv listener left answer empty

move-Inv : (w : Work) (m : Move) → Inv w → Inv (move w m)
unfolding move close_data_connection set_port
move-Inv w (port ip p) v = close-Inv w v (set_port ip p w.session).0 refl refl
move-Inv w (pasv listener) v = pasv-Inv w v listener
move-Inv w close v = close-Inv w v (close_data_connection w.session).0 refl refl
move-Inv w quit v = record { balanced = v.balanced; free = v.free }
move-Inv w time_out v = record { balanced = v.balanced; free = inl refl }
move-Inv w (open_data connected) v = of_waiting w.waiting refl
  where
    of_waiting :
        (o : Option (ℕ × ℕ))
        → w.waiting ≡ o
        → Inv (elim o [ some x ↦ w | none ↦ after_open w (open_begin connected w.session) ])
    of_waiting none e = open-Inv w v connected e
    of_waiting (some x) e = v
move-Inv w (accept answer) v = of_waiting w.waiting refl
  where
    empty : {x : ℕ × ℕ} → w.waiting ≡ some x → w.session.data_socket ≡ none
    empty e = elim v.free [ inl idle ↦ absurd (cc (e, idle)) | inr d ↦ d ]

    of_waiting :
        (o : Option (ℕ × ℕ))
        → w.waiting ≡ o
        → Inv (elim o [
          | none ↦ w
          | some (listener, left) ↦
              after_round w listener left (accept_once listener left answer w.session)
        ])
    of_waiting none e = v
    of_waiting (some (listener, left)) e = accept-Inv w v listener left answer (empty e)

moves-Inv : (w : Work) (ms : List Move) → Inv w → Inv (moves w ms)
unfolding moves
moves-Inv w [] v = v
moves-Inv w (m ∷ ms) v = moves-Inv (move w m) ms (move-Inv w m v)

abbrev pub begin : Session → Work
begin s = record { session = s; waiting = none; given = []; closed = [] }

-- Of the sockets that the network has given for data connections, in any interleaving of the control
-- thread with one transfer thread, on a session that begins without data sockets, each has been closed
-- exactly as often as it was given once `session_close_data_connection` is called: none is lost, and
-- none is closed twice.
pub sockets_closed :
    (s : Session) (ms : List Move) (k : ℕ)
    → s.data_socket ≡ none
    → s.data_listen_socket ≡ none
    → count k
        ((close_data_connection (moves (begin s) ms).session).1 ++ (moves (begin s) ms).closed)
      ≡ count k (moves (begin s) ms).given
unfolding close_data_connection count
sockets_closed s ms k d l =
    closed_held k (moves (begin s) ms).session (moves (begin s) ms).closed
    ∙ sym (
        (moves-Inv (begin s) ms (record {
          balanced =
              λ k. omega (arith, ap (λ x. count k (opened x)) d, ap (λ x. count k (opened x)) l);
          free = inl refl;
        })).balanced
          k)
