-- ===== src/Server/Received.antt =====
-- A command on its way from the connection to `client_thread`: net_receive_line, then proto_parse_command.

use simple_ftp.Base.{ℕ, ◌+◌, ◌<◌, ◌≡◌, ◌≢◌, refl, true, some, [], ◌∷◌, ◌++◌, length, All, arith}
use simple_ftp.CString.{Bytes}
use simple_ftp.Utils.{to_uppercase}
use simple_ftp.Protocol.Telnet.Laws.{All-escape, escape}
use simple_ftp.Protocol.Command.{parse_command}
use simple_ftp.Protocol.Command.RoundTrip.{IsLine, command_line, no_line_end, parse_command-line}
use simple_ftp.Network.{Wire, gives, receive_line}
use simple_ftp.Network.Lines.{Streams, no_crlf, crlf, receive_line-Streams}

no_crlf-All : (s : Bytes) → All (λ c. c ≢ b'\n') s → no_crlf s ≡ true
unfolding no_crlf
no_crlf-All [] h = refl
no_crlf-All (c ∷ []) h = refl
no_crlf-All (c ∷ d ∷ s) h = ground (arith, h.1.0, no_crlf-All (d ∷ s) h.1)

-- `char command_buffer[1024]`
abbrev pub command_size : ℕ
command_size = 1024

-- On a connection that stays up and delivers in time, the line of a name and an argument, escaped for
-- Telnet and ended by CR LF, is received whole, whatever comes behind it, and is parsed as that name
-- in upper case with that argument; what comes behind it is left for the next command. The line fits
-- into the buffer; the name has one to seven bytes, none of them white space, zero or 0xF4, and the
-- argument one to 511 bytes, none of them zero, LF or 0xF4, and no white space at its ends.
pub receive_line-parse_command :
    {E : Type 0} (wire : Wire E) (coming : E → Bytes) (name arg rest : Bytes) (e : E)
    → Streams wire coming
    → IsLine name arg
    → length (escape (command_line name arg)) + 2 < 530
    → coming e ≡ escape (command_line name arg) ++ (crlf ++ rest)
    → (line : Bytes) × ((receive_line wire command_size e).0 ≡ gives line)
      × (parse_command line
          ≡ some (record { command = to_uppercase name; argument = arg; has_argument = true }))
      × (coming (receive_line wire command_size e).1 ≡ rest)
receive_line-parse_command wire coming name arg rest e streams l fits h =
    let sent = escape (command_line name arg) in
    let clean =
      no_crlf-All sent
        (All-escape (λ c. c ≢ b'\n') (λ k. cc) (command_line name arg) (no_line_end name arg l)) in
    let (line, left) =
      receive_line-Streams wire coming command_size sent rest e streams clean (omega arith) h in
    (sent ++ crlf, line, parse_command-line name arg l fits, left)
