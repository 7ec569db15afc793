-- ===== src/Transfer/Keeps.antt =====
-- The moves of a transfer thread keep what the laws allow.
use simple_ftp.Base.{ℕ, refl, Bool, true, false, none}
use simple_ftp.CString.{Bytes}
use simple_ftp.Auth.{Permissions}
use simple_ftp.Session.State.{
  Session, TransferStatus, transfer_ok, io_error, conn_error, internal_error, transfer_aborted,
  idle, running, Operation, send_file, recv_file, send_list, send_nlst, TransferParams,
  set_transfer_thread_state, put_transfer_in_progress, put_transfer_should_abort,
}
use simple_ftp.Handlers.{Platform, World, modify}
use simple_ftp.Handlers.Keeps.{
  Undisturbed, Keeps, Laws, pure-Keeps, bind-Keeps, if-Keeps, gets-Keeps, modify-Keeps, reply-Keeps,
  close-Keeps, release-Keeps,
}
use simple_ftp.Transfer.{
  send_result, release_by, finish_transfer, begin_thread, count_download, count_upload,
  count_transfer, ThreadMove, begins, ends, thread_move,
}

download-Undisturbed :
    (status : TransferStatus) (n : ℕ) (s : Session) → Undisturbed s (count_download status n s)
unfolding count_download
download-Undisturbed transfer_ok n s = refl
download-Undisturbed _ n s = refl

upload-Undisturbed :
    (status : TransferStatus) (n : ℕ) (s : Session) → Undisturbed s (count_upload status n s)
unfolding count_upload
upload-Undisturbed transfer_ok n s = refl
upload-Undisturbed _ n s = refl

count_transfer-Undisturbed :
    (o : Operation) (status : TransferStatus) (n : ℕ) (s : Session)
    → Undisturbed s (count_transfer o status n s)
unfolding count_transfer
count_transfer-Undisturbed recv_file status n s = upload-Undisturbed status n s
count_transfer-Undisturbed send_file status n s = download-Undisturbed status n s
count_transfer-Undisturbed send_list status n s = refl
count_transfer-Undisturbed send_nlst status n s = refl

module _ {E : Type 0} (sys : Platform E) (P : World E → Type 0) (Ok : Permissions → Bytes → Type 0)
    (laws : Laws sys P Ok) where
  abort-Keeps : (b : Bool) → Keeps P (modify (put_transfer_should_abort b))
  unfolding put_transfer_should_abort
  abort-Keeps b = modify-Keeps sys P Ok laws _ (λ s. refl)

  result-Keeps : (status : TransferStatus) → Keeps P (send_result sys status)
  unfolding send_result
  result-Keeps transfer_ok = reply-Keeps sys P Ok laws _ _
  result-Keeps transfer_aborted = search (bind-Keeps, reply-Keeps sys P Ok laws, abort-Keeps)
  result-Keeps conn_error =
      search (bind-Keeps, if-Keeps, gets-Keeps, pure-Keeps, reply-Keeps sys P Ok laws)
  result-Keeps io_error = reply-Keeps sys P Ok laws _ _
  result-Keeps internal_error = reply-Keeps sys P Ok laws _ _

  release_by-Keeps : (o : Operation) (path : Bytes) → Keeps P (release_by sys o path)
  unfolding release_by
  release_by-Keeps recv_file path = release-Keeps sys P Ok laws _ _
  release_by-Keeps send_file path = release-Keeps sys P Ok laws _ _
  release_by-Keeps send_list path = pure-Keeps P true
  release_by-Keeps send_nlst path = pure-Keeps P true

  finish-Keeps :
      (params : TransferParams) (result : TransferStatus)
      → Keeps P (finish_transfer sys params result)
  unfolding finish_transfer put_transfer_in_progress set_transfer_thread_state
  finish-Keeps params result =
      let stored =
        modify-Keeps sys P Ok laws (λ s. record s { transfer_result = result }) (λ s. refl) in
      let cleared = modify-Keeps sys P Ok laws (put_transfer_in_progress false) (λ s. refl) in
      let freed =
        modify-Keeps sys P Ok laws (λ s. record s { transfer_params = none }) (λ s. refl) in
      let idled = modify-Keeps sys P Ok laws (set_transfer_thread_state idle) (λ s. refl) in
      search
        (
          bind-Keeps,
          if-Keeps,
          pure-Keeps,
          close-Keeps sys P Ok laws,
          result-Keeps,
          release_by-Keeps,
          stored,
          cleared,
          freed,
          idled,
        )
        depth 14

  begin_thread-Keeps : Keeps P (begin_thread sys)
  unfolding begin_thread put_transfer_in_progress set_transfer_thread_state
  begin_thread-Keeps =
      let started = modify-Keeps sys P Ok laws (set_transfer_thread_state running) (λ s. refl) in
      let marked = modify-Keeps sys P Ok laws (put_transfer_in_progress true) (λ s. refl) in
      search (bind-Keeps, started, marked)

  pub thread_move-Keeps : (m : ThreadMove) → Keeps P (thread_move sys m)
  unfolding thread_move
  thread_move-Keeps begins = begin_thread-Keeps
  thread_move-Keeps (ends params result n) =
      let counted =
        modify-Keeps sys P Ok laws (count_transfer params.operation result n)
          (count_transfer-Undisturbed params.operation result n) in
      search (bind-Keeps, counted, finish-Keeps)
