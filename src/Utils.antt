-- ===== src/Utils.antt =====
-- server/src/utils.c: text helpers. A buffer is the list of its bytes, and a size is a number;
-- `none` stands for the return value -1, and the length of `some out` for the returned count.
pub mod Trim
pub mod Lines
pub mod Hex
use simple_ftp.Base.{
  ℕ, zero, suc, ◌+◌, ◌-◌, ◌/◌, ◌%◌, ◌^◌, Bool, true, false, ◌&&◌, Option, none, some, List, [], ◌∷◌,
  ◌++◌, map, ltb, leb, ◌==◌, if◌then◌else◌, length,
}
use mathlib.Core.List.{reverse}
use mathlib.Core.Option
use simple_ftp.CString.{Bytes, isspace, toupper}
use simple_ftp.CString.Scan.{skip_space}

-- `to_uppercase`
abbrev pub to_uppercase : Bytes → Bytes
to_uppercase = map toupper

-- The loop that moves `end` back, over the bytes in reverse: it stops at `start`.
unfoldable pub back_up : Bytes → Bytes
back_up [] = []
back_up (c ∷ []) = c ∷ []
back_up (c ∷ d ∷ s) = if isspace c then back_up (d ∷ s) else c ∷ d ∷ s

-- `trim_whitespace`
unfoldable pub trim_whitespace : Bytes → Bytes
trim_whitespace s = reverse (back_up (reverse (skip_space s)))

-- One byte more in an output buffer with `room` bytes left, or `none` where the buffer is full.
unfoldable pub put : ℕ → (ℕ → Option Bytes) → ℕ → Option Bytes
put c rest zero = none
put c rest (suc room) = Option.map (◌∷◌ c) (rest room)

-- The loop of `crlf_to_lf` from one position on; `room` is `output_size - write_idx`.
unfoldable pub crlf_to_lf_go : Bytes → ℕ → Option Bytes
unfolding put
crlf_to_lf_go [] room = some []
crlf_to_lf_go (c ∷ []) room = put c (λ r. some []) room
crlf_to_lf_go (c ∷ d ∷ s) room =
    let pair = put b'\n' (crlf_to_lf_go s) room in
    let single = put c (crlf_to_lf_go (d ∷ s)) room in
    if c == b'\r' && d == b'\n' then pair else single

-- `crlf_to_lf`
unfoldable pub crlf_to_lf : Bytes → ℕ → Option Bytes
unfolding crlf_to_lf_go
crlf_to_lf input output_size = if output_size == 0 then none else crlf_to_lf_go input output_size

-- The loop of `lf_to_crlf`: a line feed needs two bytes of room at once.
unfoldable pub lf_to_crlf_go : Bytes → ℕ → Option Bytes
unfolding put
lf_to_crlf_go [] room = some []
lf_to_crlf_go (c ∷ s) room =
    let pair = if ltb room 2 then none else put b'\r' (put b'\n' (lf_to_crlf_go s)) room in
    let single = put c (lf_to_crlf_go s) room in if c == b'\n' then pair else single

-- `lf_to_crlf`
unfoldable pub lf_to_crlf : Bytes → ℕ → Option Bytes
unfolding lf_to_crlf_go
lf_to_crlf input output_size = if output_size == 0 then none else lf_to_crlf_go input output_size

-- `%02X`, one digit
unfoldable pub hex_digit : ℕ → ℕ
hex_digit n = if ltb n 10 then b'0' + n else b'A' + (n - 10)

-- What `snprintf(…, "%02X ", c)` writes.
unfoldable pub hex_byte : ℕ → Bytes
unfolding hex_digit
hex_byte c = hex_digit (c / 16) ∷ hex_digit (c % 16) ∷ b' ' ∷ []

-- The loop of `string_to_hex`. `buffer_size - 3` is a `size_t` and wraps below three.
unfoldable pub string_to_hex_go : Bytes → ℕ → Bytes → Option Bytes
unfolding hex_byte
string_to_hex_go [] buffer_size out = some out
string_to_hex_go (c ∷ s) buffer_size out =
    let more = string_to_hex_go s buffer_size (out ++ hex_byte c) in
    if ltb (length out) ((buffer_size + 2 ^ 64 - 3) % 2 ^ 64)
    then (if leb (buffer_size - length out) 3 then none else more)
    else some out

-- The last byte goes if it is a space; `string_to_hex` sees the bytes in order.
unfoldable pub drop_last_space : Bytes → Bytes
drop_last_space [] = []
drop_last_space (c ∷ []) = if c == b' ' then [] else c ∷ []
drop_last_space (c ∷ d ∷ s) = c ∷ drop_last_space (d ∷ s)

-- `string_to_hex`; the result is the string left in the output buffer.
unfoldable pub string_to_hex : Bytes → ℕ → Option Bytes
unfolding string_to_hex_go drop_last_space
string_to_hex input buffer_size =
    if buffer_size == 0
    then none
    else Option.map drop_last_space (string_to_hex_go input buffer_size [])
