-- ===== src/Transfer.antt =====
-- server/src/transfer.c: sending and receiving a file, and the end of the transfer thread. The calls of
-- server/src/filesys.c and server/src/network.c are a `Channel`, whose state `E` each of them may change.
-- The sending loops run on fuel; `remaining` is enough, since each round reads a byte at least. The
-- receiving loops end when the client or the network ends them, and run on the rounds they are given.
pub mod Sending
pub mod Sent
pub mod Reliable
pub mod Finish
pub mod Keeps
use simple_ftp.Base.{
  ℕ, zero, suc, ◌+◌, ◌-◌, ◌*◌, Bool, true, false, not, Option, none, some, List, [], ◌∷◌, ◌++◌, ltb,
  ◌==◌, if◌then◌else◌, length,
}
use simple_ftp.CString.{Bytes, codes}
use simple_ftp.Utils.{lf_to_crlf, crlf_to_lf}
use simple_ftp.Protocol.Types.{TransferType, ascii, binary, ebcdic}
use simple_ftp.Protocol.Codes.{resp_closing_data, resp_conn_closed, resp_local_error}
use simple_ftp.Session.State.{
  Session, TransferStatus, transfer_ok, io_error, conn_error, internal_error, transfer_aborted,
  Operation, send_file, recv_file, send_list, send_nlst, TransferParams, idle, running,
  set_transfer_thread_state, put_transfer_in_progress, put_transfer_should_abort,
}
use simple_ftp.Handlers.{
  Platform, World, M, pure, ◌>>=◌, ◌>>◌, gets, modify, reply, close_data, release_lock,
}

-- `TRANSFER_BUFFER_SIZE`
abbrev pub transfer_buffer_size : ℕ
transfer_buffer_size = 65536

-- `session_should_abort_transfer`, `fs_read_file_chunk` and `net_receive` (`none` for a negative
-- result), `net_send_all` (true for 0), and whether `fs_write_file_chunk` writes all of the bytes at the
-- offset.
pub record Channel (E : Type 0) : Type 0 where
  pub should_abort : E → Bool × E
  pub read_chunk : ℕ → ℕ → E → Option Bytes × E
  pub send_all : Bytes → E → Bool × E
  pub receive : ℕ → E → Option Bytes × E
  pub write_chunk : Bytes → ℕ → E → Bool × E

-- The status of a loop, the bytes that it has passed on, and how many it counts.
pub record Outcome (E : Type 0) : Type 0 where
  pub status : TransferStatus
  pub bytes : Bytes
  pub count : ℕ
  pub env : E

-- `to_read`
abbrev pub to_read : ℕ → ℕ
to_read remaining = if ltb transfer_buffer_size remaining then transfer_buffer_size else remaining

-- What is done to a chunk on its way out and in.
unfoldable pub encode : TransferType → Bytes → Option Bytes
encode ascii chunk = lf_to_crlf chunk (transfer_buffer_size * 2)
encode binary chunk = some chunk
encode ebcdic chunk = some chunk

unfoldable pub decode : TransferType → Bytes → Option Bytes
decode ascii chunk = crlf_to_lf chunk transfer_buffer_size
decode binary chunk = some chunk
decode ebcdic chunk = some chunk

module _ {E : Type 0} (ch : Channel E) where
  abbrev pub stopped : TransferStatus → Bytes → E → Option (Outcome E)
  stopped status bytes e =
      some (record { status = status; bytes = bytes; count = length bytes; env = e })

  -- What a failure of the data connection means.
  abbrev pub broken : TransferStatus → Bytes → E → Option (Outcome E)
  broken otherwise bytes e =
      let (abort, after) = ch.should_abort e in
      stopped (if abort then transfer_aborted else otherwise) bytes after

  -- The rest of a round, for a chunk that was read; `next` goes on with what remains, the offset and
  -- the bytes sent.
  unfoldable pub send_chunk :
      (ℕ → ℕ → Bytes → E → Option (Outcome E))
      → TransferType
      → ℕ
      → ℕ
      → Bytes
      → Bytes
      → E
      → Option (Outcome E)
  send_chunk next type remaining offset sent chunk e = elim (encode type chunk) [
    | none ↦ stopped internal_error sent e
    | some text ↦
        let (ok, after) = ch.send_all text e in
        if not ok
        then broken conn_error sent after
        else next (remaining - length chunk) (offset + length chunk) (sent ++ text) after
  ]

  -- One round of `while (remaining > 0)`.
  unfoldable pub send_round :
      (ℕ → ℕ → Bytes → E → Option (Outcome E))
      → TransferType
      → ℕ
      → ℕ
      → Bytes
      → E
      → Option (Outcome E)
  send_round next type remaining offset sent e =
      let (abort, e1) = ch.should_abort e in
      if abort
      then stopped transfer_aborted sent e1
      else (let (chunk, e2) = ch.read_chunk offset (to_read remaining) e1 in
          elim chunk [
            | none ↦ stopped io_error sent e2
            | some [] ↦ stopped io_error sent e2
            | some (c ∷ s) ↦ send_chunk next type remaining offset sent (c ∷ s) e2
          ])

  -- The loop of `transfer_send_file` and `transfer_send_file_ascii`; `none` means that the fuel is used up.
  unfoldable pub send_loop : ℕ → TransferType → ℕ → ℕ → Bytes → E → Option (Outcome E)
  send_loop fuel type zero offset sent e = stopped transfer_ok sent e
  send_loop zero type (suc remaining) offset sent e = none
  send_loop (suc fuel) type (suc remaining) offset sent e =
      send_round (send_loop fuel type) type (suc remaining) offset sent e

  -- `transfer_send_file` and `transfer_send_file_ascii` up to the statistics, for a data socket that is
  -- open; `size` is what `fs_get_file_size` answers and `has_memory` what `malloc` does.
  unfoldable pub transfer_send_file : TransferType → Option ℕ → Bool → ℕ → E → Option (Outcome E)
  transfer_send_file type none has_memory offset e = stopped io_error [] e
  transfer_send_file type (some size) has_memory offset e =
      if ltb size offset
      then stopped io_error [] e
      else if not has_memory
      then stopped internal_error [] e
      else send_loop (size - offset) type (size - offset) offset [] e

  -- The rest of a round of `while (1)`, for bytes that were received; `next` goes on with the bytes
  -- written and the number received.
  unfoldable pub receive_chunk :
      (Bytes → ℕ → E → Option (Outcome E))
      → TransferType
      → ℕ
      → Bytes
      → ℕ
      → Bytes
      → E
      → Option (Outcome E)
  receive_chunk next type offset written received chunk e = elim (decode type chunk) [
    | none ↦ some (record { status = internal_error; bytes = written; count = received; env = e })
    | some text ↦
        let (ok, after) = ch.write_chunk text (offset + length written) e in
        if not ok
        then some (record { status = io_error; bytes = written; count = received; env = after })
        else next (written ++ text) (received + length chunk) after
  ]

  -- The end of the loop when the client has closed the connection or it has failed.
  abbrev pub closed_with : TransferStatus → Bytes → ℕ → E → Option (Outcome E)
  closed_with otherwise written received e =
      let (abort, after) = ch.should_abort e in
      some (record {
        status = if abort then transfer_aborted else otherwise;
        bytes = written;
        count = received;
        env = after;
      })

  unfoldable pub receive_round :
      (Bytes → ℕ → E → Option (Outcome E)) → TransferType → ℕ → Bytes → ℕ → E → Option (Outcome E)
  receive_round next type offset written received e =
      let (abort, e1) = ch.should_abort e in
      if abort
      then some (record { status = transfer_aborted; bytes = written; count = received; env = e1 })
      else (let (chunk, e2) = ch.receive transfer_buffer_size e1 in
          elim chunk [
            | none ↦ closed_with conn_error written received e2
            | some [] ↦ closed_with transfer_ok written received e2
            | some (c ∷ s) ↦ receive_chunk next type offset written received (c ∷ s) e2
          ])

  -- The loop of `transfer_receive_file` and `transfer_receive_file_ascii` for a number of rounds.
  unfoldable pub receive_loop : ℕ → TransferType → ℕ → Bytes → ℕ → E → Option (Outcome E)
  receive_loop zero type offset written received e = none
  receive_loop (suc rounds) type offset written received e =
      receive_round (receive_loop rounds type offset) type offset written received e

-- The statistics at the end of the two sending functions and of the two receiving ones.
unfoldable pub count_download : TransferStatus → ℕ → Session → Session
count_download transfer_ok n s = record s {
  bytes_downloaded = s.bytes_downloaded + n;
  files_downloaded = s.files_downloaded + 1;
}
count_download status n s = s

unfoldable pub count_upload : TransferStatus → ℕ → Session → Session
count_upload transfer_ok n s = record s {
  bytes_uploaded = s.bytes_uploaded + n;
  files_uploaded = s.files_uploaded + 1;
}
count_upload status n s = s

module _ {E : Type 0} (sys : Platform E) where
  -- The reply to the end of a transfer.
  unfoldable pub send_result : TransferStatus → M E Bool
  send_result transfer_ok = reply sys resp_closing_data (codes "Transfer complete")
  send_result transfer_aborted = do
    sent ← reply sys resp_closing_data (codes "ABOR command successful")
    modify (put_transfer_should_abort false)
  send_result conn_error = do
    quits ← gets (λ s. s.should_quit)
    if quits
        then pure true
        else reply sys resp_conn_closed (codes "Data connection closed; transfer aborted")
  send_result io_error = reply sys resp_local_error (codes "Failed to read/write file")
  send_result internal_error =
      reply sys resp_local_error (codes "Internal server error during transfer")

  unfoldable pub release_by : Operation → Bytes → M E Bool
  release_by recv_file path = release_lock true path
  release_by send_file path = release_lock false path
  release_by send_list path = pure true
  release_by send_nlst path = pure true

  -- `transfer_thread_func` from the result on. The states ABORTED and COMPLETING give way to IDLE at once.
  unfoldable pub finish_transfer : TransferParams → TransferStatus → M E Bool
  finish_transfer params result = do
    closed ← close_data sys
    sent ← send_result result
    stored ← modify (λ s. record s { transfer_result = result })
    cleared ← modify (put_transfer_in_progress false)
    released ←
        if params.lock_acquired then release_by params.operation params.filepath else pure true
    freed ← modify (λ s. record s { transfer_params = none })
    modify (set_transfer_thread_state idle)

  -- `transfer_thread_func` up to the transfer.
  unfoldable pub begin_thread : M E Bool
  begin_thread = do
    running_now ← modify (set_transfer_thread_state running)
    modify (put_transfer_in_progress true)

-- The statistics that a transfer adds to.
unfoldable pub count_transfer : Operation → TransferStatus → ℕ → Session → Session
count_transfer recv_file status n s = count_upload status n s
count_transfer send_file status n s = count_download status n s
count_transfer send_list status n s = s
count_transfer send_nlst status n s = s

-- What a transfer thread does to its session: it begins, and it ends with a status and a number of bytes.
pub data ThreadMove : Type 0 where
  begins : ThreadMove
  ends : TransferParams → TransferStatus → ℕ → ThreadMove

-- `transfer_thread_func`, whose transfer itself is between the two moves.
unfoldable pub thread_move : {E : Type 0} → Platform E → ThreadMove → M E Bool
thread_move sys begins = begin_thread sys
thread_move sys (ends params result n) = do
  counted ← modify (count_transfer params.operation result n)
  finish_transfer sys params result
