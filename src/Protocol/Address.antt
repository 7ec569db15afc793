-- ===== src/Protocol/Address.antt =====
-- server/src/protocol.c: PORT arguments, PASV replies, and addresses in text.
pub mod Laws
use simple_ftp.Base.{
  ℕ, ◌+◌, ◌*◌, ◌/◌, ◌%◌, ◌^◌, Bool, true, false, ◌||◌, Option, none, some, List, [], ◌∷◌, ◌++◌, ltb,
  leb, ◌==◌, if◌then◌else◌, length,
}
use simple_ftp.CString.{Bytes, codes, decimal}
use simple_ftp.CString.Scan.{scan_unsigned, scan_char, ◌>>=◌}
use simple_ftp.Protocol.Types.{PortParams}

-- `sscanf(argument, "%u,%u,%u,%u,%u,%u", …) == 6`; the rest of the text is not looked at.
unfoldable pub scan_six : Bytes → Option PortParams
scan_six s0 = do
  (a, s1) ← scan_unsigned s0
  s2 ← scan_char b',' s1
  (b, s3) ← scan_unsigned s2
  s4 ← scan_char b',' s3
  (c, s5) ← scan_unsigned s4
  s6 ← scan_char b',' s5
  (d, s7) ← scan_unsigned s6
  s8 ← scan_char b',' s7
  (e, s9) ← scan_unsigned s8
  s10 ← scan_char b',' s9
  (f, s11) ← scan_unsigned s10
  some (record { h1 = a; h2 = b; h3 = c; h4 = d; p1 = e; p2 = f })

-- The test of the six values; the casts to `uint8_t` behind it change nothing.
unfoldable pub check_six : PortParams → Option PortParams
check_six p =
    if ltb 255 p.h1 || ltb 255 p.h2 || ltb 255 p.h3 || ltb 255 p.h4 || ltb 255 p.p1 || ltb 255 p.p2
    then none
    else some p

-- `proto_parse_port`
unfoldable pub parse_port : Bytes → Option PortParams
unfolding scan_six check_six
parse_port argument = do p ← scan_six argument; check_six p

-- `"%u.%u.%u.%u"`
unfoldable pub dotted : ℕ → ℕ → ℕ → ℕ → Bytes
dotted a b c d = decimal a ++ (b'.' ∷ (decimal b ++ (b'.' ∷ (decimal c ++ (b'.' ∷ decimal d)))))

-- `proto_port_to_address`: the address in text and the port number.
unfoldable pub port_to_address : PortParams → ℕ → Option (Bytes × ℕ)
unfolding dotted
port_to_address p buffer_size =
    if ltb buffer_size 16
    then none
    else if leb buffer_size (length (dotted p.h1 p.h2 p.h3 p.h4))
    then none
    else some (dotted p.h1 p.h2 p.h3 p.h4, (p.p1 * 256 + p.p2) % 2 ^ 16)

-- `sscanf(ip_address, "%u.%u.%u.%u", …) == 4`
unfoldable pub scan_four : Bytes → Option (ℕ × ℕ × ℕ × ℕ)
scan_four s0 = do
  (a, s1) ← scan_unsigned s0
  s2 ← scan_char b'.' s1
  (b, s3) ← scan_unsigned s2
  s4 ← scan_char b'.' s3
  (c, s5) ← scan_unsigned s4
  s6 ← scan_char b'.' s5
  (d, s7) ← scan_unsigned s6
  some (a, b, c, d)

-- `proto_address_to_pasv`
unfoldable pub address_to_pasv : Bytes → ℕ → Option PortParams
unfolding scan_four
address_to_pasv ip_address port = do
  (a, b, c, d) ← scan_four ip_address
  if ltb 255 a || ltb 255 b || ltb 255 c || ltb 255 d
      then none
      else some (record {
        h1 = a;
        h2 = b;
        h3 = c;
        h4 = d;
        p1 = (port / 256) % 256;
        p2 = (port % 256) % 256;
      })

-- `"%u,%u,%u,%u,%u,%u"` in front of a text
unfoldable pub comma_fields : PortParams → Bytes → Bytes
comma_fields p rest =
    decimal p.h1
    ++ (b','
        ∷ (decimal p.h2
            ++ (b','
                ∷ (decimal p.h3
                    ++ (b','
                        ∷ (decimal p.h4
                            ++ (b',' ∷ (decimal p.p1 ++ (b',' ∷ (decimal p.p2 ++ rest))))))))))

abbrev pub pasv_head : Bytes
pasv_head = codes "227 Entering Passive Mode ("

abbrev pub pasv_tail : Bytes
pasv_tail = codes ")\r\n"

-- `proto_format_pasv_response`
unfoldable pub format_pasv_response : ℕ → PortParams → Option Bytes
unfolding comma_fields
format_pasv_response buffer_size p =
    let line = pasv_head ++ comma_fields p pasv_tail in
    if buffer_size == 0 then none else if leb buffer_size (length line) then none else some line
