-- ===== src/Handlers/Keeps/Transfers.antt =====
-- The handlers that start a transfer thread keep what the laws allow.
use simple_ftp.Base.{
  subst, [], ℕ, zero, suc, ◌≡◌, refl, sym, ap, ◌∙◌, Bool, true, false, Option, none, some, ltb,
  if◌then◌else◌, Bool-cases, inl, inr,
}
use simple_ftp.CString.{Bytes}
use simple_ftp.Protocol.Types.{Command}
use simple_ftp.Auth.{Permissions, perm_read, perm_write}
use simple_ftp.Session.State.{
  Session, Socket, DataMode, no_mode, active, passive, Operation, recv_file, send_file, send_list,
  send_nlst, TransferParams, is_idle, start_transfer_thread, clear_restart_offset,
}
use simple_ftp.Session.Data.{
  Opening, returns, waits, open_mode, open_begin, Accept, accepted, would_block, refused, Round,
  ends, retries, accept_answer,
}
use simple_ftp.Handlers.{
  change, Platform, World, M, pure, ◌>>=◌, gets, modify, ask, transfer, overwrite,
}
use simple_ftp.Handlers.Transfers.{
  create_thread, Attempt, is_listening, put_session, after_accept, accept_rounds, wait_and_accept,
  connect_if_active, opened_or_wait, open_data_connection, start_thread, break_with, begin_transfer,
  clean_up, with_lock, opening, retr_sized, retr_locked, retr_at, require_mode, handle_retr,
  receive_at, stor_sized, cannot_replace, stor_locked, stor_at, handle_stor, appe_sized,
  appe_locked, appe_at, handle_appe, listing_at, handle_listing, handle_list, handle_nlst,
}
use simple_ftp.Handlers.Files.{refuse}
use simple_ftp.Handlers.Keeps.{
  standing, Undisturbed, transfer_permission, Keeps, Laws, pure-Keeps, bind-Keeps, if-Keeps,
  gets-Keeps, ask-Keeps, exists-Keeps, directory-Keeps, size-Keeps, modify-Keeps, change-Keeps,
  reply-Keeps, close-Keeps, try-Keeps, release-Keeps, auth-Keeps, auth_arg-Keeps, path-Keeps,
}

-- What a round of the accept loop leaves.
abbrev round_session : Round → Session
round_session (ends ok s given closed) = s
round_session (retries s) = s

accept_answer-Undisturbed :
    (listener left : ℕ) (answer : Accept) (s : Session)
    → Undisturbed s (round_session (accept_answer listener left answer s))
unfolding accept_answer
accept_answer-Undisturbed listener left (accepted socket) s = refl
accept_answer-Undisturbed listener left would_block s = elim (Bool-cases (ltb 1 left)) [
  | inl more ↦ rw more refl
  | inr last ↦ rw last refl
]
accept_answer-Undisturbed listener left refused s = refl

abbrev opening_session : Session → Opening → Session
opening_session s (returns ok after given) = after
opening_session s (waits listener) = s

open_begin-Undisturbed :
    (connected : Socket) (s : Session) → Undisturbed s (opening_session s (open_begin connected s))
unfolding open_begin open_mode
open_begin-Undisturbed connected s = of_socket s.data_socket
  where
    of_listener :
        (o : Socket)
        → Undisturbed s (
            opening_session s
              (elim o [ none ↦ returns false s [] | some listener ↦ waits listener ]))
    of_listener none = refl
    of_listener (some listener) = refl

    of_mode : (m : DataMode) (c : Socket) → Undisturbed s (opening_session s (open_mode m c s))
    of_mode active none = refl
    of_mode active (some socket) = refl
    of_mode passive c = of_listener s.data_listen_socket
    of_mode no_mode c = refl

    of_socket :
        (o : Socket)
        → Undisturbed s (
            opening_session s (elim o [
              | some socket ↦ returns true s []
              | none ↦ open_mode s.data_mode connected s
            ]))
    of_socket (some socket) = refl
    of_socket none = of_mode s.data_mode connected

start_transfer_thread-Undisturbed :
    (has_memory created : Bool) (params : TransferParams) (s : Session)
    → Undisturbed s (start_transfer_thread has_memory created params s).1
unfolding start_transfer_thread
start_transfer_thread-Undisturbed false created params s =
    elim (Bool-cases (is_idle s.transfer_thread_state)) [
      | inl free ↦ rw free refl
      | inr busy ↦ rw busy refl
    ]
start_transfer_thread-Undisturbed true true params s =
    elim (Bool-cases (is_idle s.transfer_thread_state)) [
      | inl free ↦ rw free refl
      | inr busy ↦ rw busy refl
    ]
start_transfer_thread-Undisturbed true false params s =
    elim (Bool-cases (is_idle s.transfer_thread_state)) [
      | inl free ↦ rw free refl
      | inr busy ↦ rw busy refl
    ]

module _ {E : Type 0} (sys : Platform E) (P : World E → Type 0) (Ok : Permissions → Bytes → Type 0)
    (laws : Laws sys P Ok) where
  after-Keeps :
      (listener : ℕ) (again : M E Bool) (after : E) (r : Round) (w : World E)
      → Keeps P again
      → P w
      → laws.Same w.env after
      → Undisturbed w.session (round_session r)
      → P (after_accept sys listener again after r w).1
  unfolding after_accept Keeps
  after-Keeps listener again after (ends ok s given closed) w k h m u =
      laws.outside _ _ w.output w.locks (laws.neutral.compose m (laws.neutral.close_sockets _ _))
        (laws.kept w s u h)
  after-Keeps listener again after (retries s) w k h m u =
      let next =
        laws.outside (record w { session = s }) after w.output w.locks m (laws.kept w s u h) in
      elim (Bool-cases (is_listening listener s)) [
        | inl listening ↦ rw listening (k _ next)
        | inr closed ↦ rw closed next
      ]

  rounds-Keeps : (left listener : ℕ) → Keeps P (accept_rounds sys left listener)
  unfolding accept_rounds Keeps
  rounds-Keeps zero listener = pure-Keeps P false
  rounds-Keeps (suc left) listener = λ w h.
      let answer = (sys.accept listener w.env).0 in
      after-Keeps listener (accept_rounds sys left listener) (sys.accept listener w.env).1
        (accept_answer listener (suc left) answer w.session) w (rounds-Keeps left listener) h
        (laws.neutral.accept listener w.env)
        (accept_answer-Undisturbed listener (suc left) answer w.session)

  wait-Keeps : (listener : ℕ) → Keeps P (wait_and_accept sys listener)
  unfolding wait_and_accept
  wait-Keeps listener =
      let waited =
        ask-Keeps sys P Ok laws (sys.wait_readable listener)
          (laws.neutral.wait_readable listener) in
      search (bind-Keeps, if-Keeps, gets-Keeps, pure-Keeps, waited, rounds-Keeps)

  connect-Keeps :
      (m : DataMode) (data_socket : Socket) (s : Session)
      → Keeps P (connect_if_active sys m data_socket s)
  unfolding connect_if_active
  connect-Keeps active none s =
      ask-Keeps sys P Ok laws _ (laws.neutral.connect s.active_ip s.active_port)
  connect-Keeps active (some k) s = pure-Keeps P none
  connect-Keeps passive k s = pure-Keeps P none
  connect-Keeps no_mode k s = pure-Keeps P none

  connect_if_active-session :
      (m : DataMode) (k : Socket) (s : Session) (w : World E)
      → (connect_if_active sys m k s w).1.session ≡ w.session
  unfolding connect_if_active ask pure
  connect_if_active-session active none s w = refl
  connect_if_active-session active (some k) s w = refl
  connect_if_active-session passive k s w = refl
  connect_if_active-session no_mode k s w = refl

  open-Keeps : Keeps P (open_data_connection sys)
  unfolding open_data_connection Keeps ◌>>=◌ gets opened_or_wait put_session pure
  open-Keeps w h =
      let (connected, next) =
        connect_if_active sys w.session.data_mode w.session.data_socket w.session w in
      of_opening next
        (connect_if_active-session w.session.data_mode w.session.data_socket w.session w)
        (connect-Keeps w.session.data_mode w.session.data_socket w.session w h)
        (open_begin connected w.session) (open_begin-Undisturbed connected w.session)
    where
      of_opening :
          (x : World E)
          → x.session ≡ w.session
          → P x
          → (o : Opening) → Undisturbed w.session (opening_session w.session o)
          → P (opened_or_wait sys o x).1
      of_opening x same h (returns ok s given) u = laws.kept x s (u ∙ sym (ap standing same)) h
      of_opening x same h (waits listener) u = wait-Keeps listener x h

  create-Keeps :
      (o : Option TransferParams) (params : TransferParams)
      → o ≡ some params
      → Ok (transfer_permission params.operation) params.filepath
      → Keeps P (create_thread sys o)
  unfolding create_thread
  create-Keeps o params e ok =
      subst (λ x. Keeps P (create_thread sys x)) (sym e)
        (change-Keeps sys P Ok laws (transfer params) params.filepath ok)

  stored-params :
      (params : TransferParams) (s : Session)
      → is_idle s.transfer_thread_state ≡ true
      → (start_transfer_thread true true params s).1.transfer_params ≡ some params
  unfolding start_transfer_thread
  stored-params params s idle = rw idle refl

  create_thread-session :
      (o : Option TransferParams) (w : World E) → (create_thread sys o w).1.session ≡ w.session
  unfolding create_thread change pure
  create_thread-session none w = refl
  create_thread-session (some params) w = refl

  put-Keeps :
      (has_memory created : Bool) (params : TransferParams) (s : Session) (w : World E)
      → w.session ≡ s
      → P w
      → P (put_session sys (start_transfer_thread has_memory created params s).1 w).1
  unfolding put_session
  put-Keeps has_memory created params s w same h =
      laws.kept w _
        (start_transfer_thread-Undisturbed has_memory created params s ∙ sym (ap standing same)) h

  start-Keeps :
      (params : TransferParams)
      → Ok (transfer_permission params.operation) params.filepath
      → Keeps P (start_thread sys params)
  unfolding start_thread Keeps ◌>>=◌ gets ask pure
  start-Keeps params ok w h = of_idle (is_idle w.session.transfer_thread_state) refl
    where
      rest : Bool → World E → Bool × World E
      rest has_memory = do
        let outcome = λ (created : Bool). start_transfer_thread has_memory created params w.session
        created ←
            (if has_memory then create_thread sys (outcome true).1.transfer_params else pure false)
        put ← put_session sys (outcome created).1
        pure (outcome created).0

      of_memory :
          is_idle w.session.transfer_thread_state ≡ true
          → (b : Bool) (x : World E) → x.session ≡ w.session
          → P x
          → P (rest b x).1
      of_memory idle false x same k = put-Keeps false false params w.session x same k
      of_memory idle true x same k =
          let o = (start_transfer_thread true true params w.session).1.transfer_params in
          put-Keeps true (create_thread sys o x).0 params w.session (create_thread sys o x).1
            (create_thread-session o x ∙ same)
            (create-Keeps o params (stored-params params w.session idle) ok x k)

      of_idle :
          (b : Bool)
          → is_idle w.session.transfer_thread_state ≡ b
          → P (((if b then ask sys.has_memory else pure false) >>= rest) w).1
      of_idle false busy = put-Keeps false false params w.session w refl h
      of_idle true idle =
          of_memory idle (sys.has_memory w.env).0 _ refl
            (laws.outside w _ w.output w.locks (laws.neutral.has_memory w.env) h)

  break-Keeps :
      (locked is_open : Bool) (answer : M E Bool)
      → Keeps P answer
      → Keeps P (break_with sys locked is_open answer)
  unfolding break_with
  break-Keeps locked is_open answer h = search (bind-Keeps, pure-Keeps, h)

  cleared-Keeps :
      (clears : Bool) → Keeps P (modify (λ s. if clears then clear_restart_offset s else s))
  unfolding clear_restart_offset
  cleared-Keeps true = modify-Keeps sys P Ok laws _ (λ s. refl)
  cleared-Keeps false = modify-Keeps sys P Ok laws _ (λ s. refl)

  begin-Keeps :
      (locked clears : Bool) (operation : Operation) (path : Bytes) (offset : ℕ) (message : Bytes)
      → Ok (transfer_permission operation) path
      → Keeps P (begin_transfer sys locked clears operation path offset message)
  unfolding begin_transfer
  begin-Keeps locked clears operation path offset message ok =
      let cut = laws.cut (transfer_permission operation) path ok in
      search
        (
          bind-Keeps,
          if-Keeps,
          gets-Keeps,
          pure-Keeps,
          reply-Keeps sys P Ok laws,
          open-Keeps,
          cleared-Keeps,
          start-Keeps,
          break-Keeps,
          cut,
        )
        depth 14

  clean-Keeps :
      (exclusive : Bool) (path : Bytes) (a : Attempt) → Keeps P (clean_up sys exclusive path a)
  unfolding clean_up
  clean-Keeps exclusive path a =
      search
        (bind-Keeps, if-Keeps, pure-Keeps, close-Keeps sys P Ok laws, release-Keeps sys P Ok laws)

  lock-Keeps :
      (exclusive : Bool) (path : Bytes) (body : M E Attempt)
      → Keeps P body
      → Keeps P (with_lock sys exclusive path body)
  unfolding with_lock
  lock-Keeps exclusive path body h = search (
    bind-Keeps,
    if-Keeps,
    try-Keeps sys P Ok laws,
    break-Keeps,
    reply-Keeps sys P Ok laws,
    clean-Keeps,
    h,
  )

  opening-Keeps : (argument rest : Bytes) → Keeps P (opening sys argument rest)
  unfolding opening
  opening-Keeps argument rest = search (bind-Keeps, gets-Keeps, pure-Keeps)

  refuse-Keeps :
      (locked : Bool) (message : Bytes) → Keeps P (break_with sys locked false (refuse sys message))
  refuse-Keeps locked message = break-Keeps locked false _ (reply-Keeps sys P Ok laws _ message)

  retr_sized-Keeps :
      (argument path : Bytes) (offset : ℕ) (o : Option ℕ)
      → Ok perm_read path
      → Keeps P (retr_sized sys argument path offset o)
  unfolding retr_sized
  retr_sized-Keeps argument path offset none ok = refuse-Keeps true _
  retr_sized-Keeps argument path offset (some size) ok =
      let begun = λ (m : Bytes). begin-Keeps true true send_file path offset m ok in
      search (bind-Keeps, if-Keeps, refuse-Keeps, opening-Keeps, begun)

  retr_locked-Keeps :
      (argument path : Bytes) (offset : ℕ)
      → Ok perm_read path
      → Keeps P (retr_locked sys argument path offset)
  unfolding retr_locked
  retr_locked-Keeps argument path offset ok =
      search
        (
          bind-Keeps,
          if-Keeps,
          exists-Keeps sys P Ok laws,
          directory-Keeps sys P Ok laws,
          size-Keeps sys P Ok laws,
          refuse-Keeps,
          retr_sized-Keeps,
          ok,
        )
        depth 9

  retr_at-Keeps : (argument path : Bytes) → Ok perm_read path → Keeps P (retr_at sys argument path)
  unfolding retr_at
  retr_at-Keeps argument path ok =
      search
        (
          bind-Keeps,
          if-Keeps,
          gets-Keeps,
          exists-Keeps sys P Ok laws,
          directory-Keeps sys P Ok laws,
          size-Keeps sys P Ok laws,
          reply-Keeps sys P Ok laws,
          lock-Keeps,
          retr_locked-Keeps,
          ok,
        )
        depth 9

  mode_set-Keeps : (rest : M E Bool) → Keeps P rest → Keeps P (require_mode sys rest)
  unfolding require_mode
  mode_set-Keeps rest h = search (bind-Keeps, if-Keeps, gets-Keeps, reply-Keeps sys P Ok laws, h)

  pub retr-Keeps : (cmd : Command) → Keeps P (handle_retr sys cmd)
  unfolding handle_retr
  retr-Keeps cmd =
      search (auth_arg-Keeps sys P Ok laws, mode_set-Keeps, path-Keeps sys P Ok laws, retr_at-Keeps)

  receive-Keeps :
      (clears : Bool) (argument path : Bytes) (offset : ℕ)
      → Ok perm_write path
      → Keeps P (receive_at sys clears argument path offset)
  unfolding receive_at
  receive-Keeps clears argument path offset ok =
      let begun = λ (m : Bytes). begin-Keeps true clears recv_file path offset m ok in
      search (bind-Keeps, opening-Keeps, begun)

  stor_sized-Keeps :
      (argument path : Bytes) (offset : ℕ) (o : Option ℕ)
      → Ok perm_write path
      → Keeps P (stor_sized sys argument path offset o)
  unfolding stor_sized
  stor_sized-Keeps argument path offset none ok = refuse-Keeps true _
  stor_sized-Keeps argument path offset (some size) ok =
      search (if-Keeps, refuse-Keeps, receive-Keeps, ok)

  replace-Keeps : (path : Bytes) → Ok perm_write path → Keeps P (cannot_replace sys path)
  unfolding cannot_replace
  replace-Keeps path ok =
      let replaced = change-Keeps sys P Ok laws overwrite path ok in
      search (
        bind-Keeps,
        if-Keeps,
        pure-Keeps,
        exists-Keeps sys P Ok laws,
        directory-Keeps sys P Ok laws,
        size-Keeps sys P Ok laws,
        replaced,
      )

  stor_locked-Keeps :
      (argument path : Bytes) (offset : ℕ)
      → Ok perm_write path
      → Keeps P (stor_locked sys argument path offset)
  unfolding stor_locked
  stor_locked-Keeps argument path offset ok =
      search
        (
          bind-Keeps,
          if-Keeps,
          exists-Keeps sys P Ok laws,
          directory-Keeps sys P Ok laws,
          size-Keeps sys P Ok laws,
          refuse-Keeps,
          stor_sized-Keeps,
          replace-Keeps,
          receive-Keeps,
          ok,
        )
        depth 9

  stor_at-Keeps : (argument path : Bytes) → Ok perm_write path → Keeps P (stor_at sys argument path)
  unfolding stor_at
  stor_at-Keeps argument path ok =
      search
        (
          bind-Keeps,
          if-Keeps,
          gets-Keeps,
          exists-Keeps sys P Ok laws,
          directory-Keeps sys P Ok laws,
          size-Keeps sys P Ok laws,
          reply-Keeps sys P Ok laws,
          lock-Keeps,
          stor_locked-Keeps,
          ok,
        )
        depth 9

  pub stor-Keeps : (cmd : Command) → Keeps P (handle_stor sys cmd)
  unfolding handle_stor
  stor-Keeps cmd =
      search (auth_arg-Keeps sys P Ok laws, mode_set-Keeps, path-Keeps sys P Ok laws, stor_at-Keeps)

  appe_sized-Keeps :
      (argument path : Bytes) (o : Option ℕ)
      → Ok perm_write path
      → Keeps P (appe_sized sys argument path o)
  unfolding appe_sized
  appe_sized-Keeps argument path none ok = refuse-Keeps true _
  appe_sized-Keeps argument path (some offset) ok = receive-Keeps false argument path offset ok

  appe_locked-Keeps :
      (argument path : Bytes) → Ok perm_write path → Keeps P (appe_locked sys argument path)
  unfolding appe_locked
  appe_locked-Keeps argument path ok = search (
    bind-Keeps,
    if-Keeps,
    pure-Keeps,
    exists-Keeps sys P Ok laws,
    directory-Keeps sys P Ok laws,
    size-Keeps sys P Ok laws,
    appe_sized-Keeps,
    ok,
  )

  appe_at-Keeps : (argument path : Bytes) → Ok perm_write path → Keeps P (appe_at sys argument path)
  unfolding appe_at
  appe_at-Keeps argument path ok =
      search
        (
          bind-Keeps,
          if-Keeps,
          exists-Keeps sys P Ok laws,
          directory-Keeps sys P Ok laws,
          size-Keeps sys P Ok laws,
          reply-Keeps sys P Ok laws,
          lock-Keeps,
          appe_locked-Keeps,
          ok,
        )
        depth 9

  pub appe-Keeps : (cmd : Command) → Keeps P (handle_appe sys cmd)
  unfolding handle_appe
  appe-Keeps cmd =
      search (auth_arg-Keeps sys P Ok laws, mode_set-Keeps, path-Keeps sys P Ok laws, appe_at-Keeps)

  listing_at-Keeps :
      (operation : Operation) (message path : Bytes)
      → Ok (transfer_permission operation) path
      → Keeps P (listing_at sys operation message path)
  unfolding listing_at
  listing_at-Keeps operation message path ok =
      search
        (
          bind-Keeps,
          if-Keeps,
          exists-Keeps sys P Ok laws,
          directory-Keeps sys P Ok laws,
          size-Keeps sys P Ok laws,
          reply-Keeps sys P Ok laws,
          begin-Keeps,
          clean-Keeps,
          ok,
        )
        depth 9

  pub list-Keeps : (cmd : Command) → Keeps P (handle_list sys cmd)
  unfolding handle_list handle_listing
  list-Keeps cmd = auth-Keeps sys P Ok laws _ (
      mode_set-Keeps _
        (path-Keeps sys P Ok laws _ _ _ _ _ (λ path ok. listing_at-Keeps send_list _ path ok)))

  pub nlst-Keeps : (cmd : Command) → Keeps P (handle_nlst sys cmd)
  unfolding handle_nlst handle_listing
  nlst-Keeps cmd = auth-Keeps sys P Ok laws _ (
      mode_set-Keeps _
        (path-Keeps sys P Ok laws _ _ _ _ _ (λ path ok. listing_at-Keeps send_nlst _ path ok)))
