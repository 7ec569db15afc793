-- ===== src/Network.antt =====
-- server/src/network.c: the two loops over the calls of the operating system, `net_receive_line` and
-- `net_send_all`. The calls themselves are a `Socket`, whose state `E` each of them may change.
pub mod Lines
pub mod SendAll
use simple_ftp.Base.{
  ℕ, zero, suc, ◌+◌, ◌-◌, Bool, true, false, not, ◌&&◌, Option, none, some, [], ◌∷◌, ◌++◌, reverse,
  ltb, ◌==◌, if◌then◌else◌, length, drop,
}
use simple_ftp.CString.{Bytes}

-- The result of a call of the operating system: more than 0, 0, or less.
pub data Answer (A : Type 0) : Type 0 where
  gives : A → Answer A
  nothing failed : Answer A

-- `net_wait_readable`, `net_receive` of one byte, and `net_send`, which gives how many bytes it took.
pub record Wire (E : Type 0) : Type 0 where
  pub wait_readable : E → Answer (Unit {0}) × E
  pub receive : E → Answer ℕ × E
  pub send : Bytes → E → Answer ℕ × E

-- `buffer[pos - 2] == '\r' && buffer[pos - 1] == '\n'`; the buffer is kept with its last byte first.
unfoldable pub ends_line : Bytes → Bool
ends_line [] = false
ends_line (c ∷ []) = false
ends_line (d ∷ c ∷ s) = c == b'\r' && d == b'\n'

module _ {E : Type 0} (wire : Wire E) where
  -- The rest of a round for a byte that was received; `next` goes on with the buffer.
  unfoldable pub store_byte : (Bytes → E → Answer Bytes × E) → Bytes → E → Answer Bytes × E
  store_byte next buffer e = if ends_line buffer then (gives (reverse buffer), e) else next buffer e

  -- One round of `while (pos < buffer_size - 1)`, for a timeout that is not negative.
  unfoldable pub line_round : (Bytes → E → Answer Bytes × E) → Bytes → E → Answer Bytes × E
  line_round next buffer e =
      let (ready, e1) = wire.wait_readable e in
      elim ready [
        | nothing ↦ (nothing, e1)
        | failed ↦ (failed, e1)
        | gives u ↦
            let (byte, e2) = wire.receive e1 in
            elim byte [
              | nothing ↦ (nothing, e2)
              | failed ↦ (failed, e2)
              | gives c ↦ store_byte next (c ∷ buffer) e2
            ]
      ]

  -- The loop; `room` is `buffer_size - 1 - pos`.
  unfoldable pub receive_go : ℕ → Bytes → E → Answer Bytes × E
  receive_go zero buffer e = (failed, e)
  receive_go (suc room) buffer e = line_round (receive_go room) buffer e

  -- `net_receive_line`: the line with its CR LF.
  unfoldable pub receive_line : ℕ → E → Answer Bytes × E
  receive_line buffer_size e =
      if ltb buffer_size 3 then (failed, e) else receive_go (buffer_size - 1) [] e

  -- One round of `while (total_sent < length)`, for what is left of the data.
  unfoldable pub send_some : (Bytes → E → Option Bool × E) → Bytes → E → Option Bool × E
  send_some next rest e =
      let (sent, after) = wire.send rest e in
      elim sent [
        | nothing ↦ (some false, after)
        | failed ↦ (some false, after)
        | gives n ↦ next (drop n rest) after
      ]

  -- The loop on fuel, which `none` says is used up.
  unfoldable pub send_go : ℕ → Bytes → E → Option Bool × E
  send_go fuel [] e = (some true, e)
  send_go zero (c ∷ s) e = (none, e)
  send_go (suc fuel) (c ∷ s) e = send_some (send_go fuel) (c ∷ s) e

  -- `net_send_all`; `true` stands for 0. Each round takes a byte at least.
  unfoldable pub net_send_all : Bytes → E → Option Bool × E
  net_send_all data_bytes e = send_go (length data_bytes) data_bytes e
