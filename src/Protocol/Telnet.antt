-- ===== src/Protocol/Telnet.antt =====
-- server/src/protocol.c, the first half of `proto_parse_command`: Telnet bytes are taken out.
pub mod Laws
use mathlib.Core.Option
use simple_ftp.Base.{
  ℕ, zero, suc, ◌+◌, Bool, true, false, not, ◌&&◌, Option, none, some, List, [], ◌∷◌, ltb, leb,
  ◌==◌, if◌then◌else◌, length,
}
use simple_ftp.CString.{Bytes}

-- What one round of the loop does: the byte that it writes, and how much it adds to `i` beside `i++`.
pub record Round : Type 0 where
  pub writes : Option ℕ
  pub skips : ℕ

abbrev write : ℕ → ℕ → Round
write c k = record { writes = some c; skips = k }

abbrev skip : ℕ → Round
skip k = record { writes = none; skips = k }

-- The branches under `i + 1 < line_len`, at the byte `next`; `more` says `i + 2 < line_len`.
unfoldable pub after_iac : ℕ → Bool → Round
after_iac next more =
    if next == 0xFF
    then write 0xFF 1
    else if leb 0xF0 next
    then skip 1
    else if leb 0xFB next && leb next 0xFE
    then (if more then skip 2 else skip 1)
    else skip 2

abbrev is_nil : Bytes → Bool
is_nil [] = true
is_nil (c ∷ s) = false

-- One round at the byte `c`, with `s` behind it.
unfoldable pub telnet_round : ℕ → Bytes → Round
unfolding after_iac
telnet_round c [] = if c == 0xFF then skip 0 else if c == 0xF4 then skip 0 else write c 0
telnet_round c (next ∷ s) =
    if c == 0xFF then after_iac next (not (is_nil s)) else if c == 0xF4 then skip 0 else write c 0

-- The loop: `k` bytes are still skipped, and `room` is what `filtered_buffer` has left.
unfoldable pub filter_go : ℕ → ℕ → Bytes → Bytes
unfolding telnet_round
filter_go k room [] = []
filter_go (suc k) room (c ∷ s) = filter_go k room s
filter_go zero zero (c ∷ s) = []
filter_go zero (suc room) (c ∷ s) = elim ((telnet_round c s).writes) [
  | none ↦ filter_go (telnet_round c s).skips (suc room) s
  | some b ↦ b ∷ filter_go (telnet_round c s).skips room s
]

-- `sizeof(buffer)` of `proto_parse_command`
abbrev pub buffer_size : ℕ
buffer_size = 530

-- The whole loop over a line shorter than the buffer.
unfoldable pub filter_telnet : Bytes → Bytes
unfolding filter_go
filter_telnet line = filter_go 0 529 line
