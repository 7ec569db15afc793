-- ===== src/Transfer/Finish.antt =====
-- The end of the transfer thread, server/src/transfer.c.

use simple_ftp.Base.{
  ℕ, ◌≡◌, refl, ap, ◌∙◌, Bool, true, false, none, if◌then◌else◌, Bool-cases, Option-cases, inl, inr,
}
use simple_ftp.CString.{Bytes, codes}
use simple_ftp.Protocol.Codes.{resp_closing_data, resp_conn_closed}
use simple_ftp.Protocol.Types.{max_response_line}
use simple_ftp.Protocol.Response.{format_response}
use simple_ftp.FileLock.{Table, release}
use simple_ftp.Session.State.{
  Session, TransferStatus, transfer_ok, io_error, conn_error, internal_error, transfer_aborted,
  Operation, send_file, recv_file, send_list, send_nlst, TransferParams, idle, no_mode,
  set_transfer_thread_state, put_transfer_in_progress, put_transfer_should_abort,
}
use simple_ftp.Session.Data.{close_data_connection}
use simple_ftp.Handlers.{
  Platform, World, M, pure, ◌>>=◌, gets, modify, send_line, send_formatted, reply, close_data,
  release_lock,
}
use simple_ftp.Transfer.{send_result, release_by, finish_transfer}

abbrev pub released_by : Operation → Bytes → Table → Table
released_by recv_file path t = release true path t
released_by send_file path t = release false path t
released_by send_list path t = t
released_by send_nlst path t = t

-- The locks after a transfer: its own lock is given back.
abbrev pub given_back : TransferParams → Table → Table
given_back params t =
    if params.lock_acquired then released_by params.operation params.filepath t else t

abbrev pub is_aborted : TransferStatus → Bool
is_aborted transfer_aborted = true
is_aborted transfer_ok = false
is_aborted io_error = false
is_aborted conn_error = false
is_aborted internal_error = false

module _ {E : Type 0} (sys : Platform E) where
  -- A reply leaves everything but the platform and the output alone.
  record Silent (flag : Bool) (w after : World E) : Type 0 where
    session : after.session ≡ record w.session { transfer_should_abort = flag }
    locks : after.locks ≡ w.locks

  reply-Silent :
      (code : ℕ) (message : Bytes) (w : World E)
      → Silent w.session.transfer_should_abort w (reply sys code message w).1
  unfolding reply send_formatted send_line pure
  reply-Silent code message w =
      elim (Option-cases (format_response max_response_line code message)) [
        | inl failed ↦ rw failed (record { session = refl; locks = refl })
        | inr (line, formatted) ↦ rw formatted (record { session = refl; locks = refl })
      ]

  send_result-Silent :
      (result : TransferStatus) (w : World E)
      → Silent
          (if is_aborted result then false else w.session.transfer_should_abort)
          w
          (send_result sys result w).1
  unfolding send_result ◌>>=◌ gets modify pure put_transfer_should_abort
  send_result-Silent transfer_ok w = reply-Silent _ _ w
  send_result-Silent transfer_aborted w =
      let sent = reply-Silent resp_closing_data (codes "ABOR command successful") w in
      record {
        session = ap (λ (s : Session). record s { transfer_should_abort = false }) sent.session;
        locks = sent.locks;
      }
  send_result-Silent io_error w = reply-Silent _ _ w
  send_result-Silent internal_error w = reply-Silent _ _ w
  send_result-Silent conn_error w = of_quits w.session.should_quit
    where
      of_quits :
          (b : Bool)
          → let m : M E Bool =
              (if b
                then pure true
                else reply sys resp_conn_closed
                    (codes "Data connection closed; transfer aborted")) in
            Silent w.session.transfer_should_abort w (m w).1
      of_quits true = record { session = refl; locks = refl }
      of_quits false = reply-Silent _ _ w

  release_by-locks :
      (operation : Operation) (path : Bytes) (w : World E)
      → ((release_by sys operation path w).1.locks ≡ released_by operation path w.locks)
        × ((release_by sys operation path w).1.session ≡ w.session)
  unfolding release_by release_lock pure
  release_by-locks recv_file path w = (refl, refl)
  release_by-locks send_file path w = (refl, refl)
  release_by-locks send_list path w = (refl, refl)
  release_by-locks send_nlst path w = (refl, refl)

  release_if-locks :
      (params : TransferParams) (w : World E)
      → let m : M E Bool =
          (if params.lock_acquired
            then release_by sys params.operation params.filepath
            else pure true) in
        ((m w).1.locks ≡ given_back params w.locks) × ((m w).1.session ≡ w.session)
  unfolding pure
  release_if-locks params w = elim (Bool-cases params.lock_acquired) [
    | inl held ↦ rw held (release_by-locks params.operation params.filepath w)
    | inr free ↦ rw free (refl, refl)
  ]

-- However a transfer ends, the end of its thread leaves the session without data sockets and without a
-- data mode, with no transfer in progress and the thread idle, stores the result, and gives back the
-- lock that the transfer holds and no other; of the abort flag it clears only that of a transfer that
-- was aborted.
pub finish_transfer-frees :
    {E : Type 0} (sys : Platform E) (params : TransferParams) (result : TransferStatus)
    (w : World E)
    → let after = (finish_transfer sys params result w).1 in
      (after.locks ≡ given_back params w.locks)
      × (after.session ≡ record w.session {
        data_socket = none;
        data_listen_socket = none;
        data_mode = no_mode;
        transfer_should_abort =
            if is_aborted result then false else w.session.transfer_should_abort;
        transfer_result = result;
        transfer_in_progress = false;
        transfer_params = none;
        transfer_thread_state = idle;
      })
unfolding finish_transfer close_data close_data_connection ◌>>=◌ modify put_transfer_in_progress
    set_transfer_thread_state
finish_transfer-frees sys params result w =
    let closed = (close_data sys w).1 in
    let sent = send_result-Silent sys result closed in
    let replied = (send_result sys result closed).1 in
    let stored : World _ = record replied {
      session = record replied.session { transfer_result = result; transfer_in_progress = false };
    } in
    let (locks, session) = release_if-locks sys params stored in
    (
      locks ∙ ap (given_back params) sent.locks,
      ap (λ (s : Session). record s { transfer_params = none; transfer_thread_state = idle })
          (session
            ∙ ap
                (λ (s : Session). record s {
                  transfer_result = result;
                  transfer_in_progress = false;
                })
                sent.session),
    )
