-- ===== src/Protocol/Address/Laws.antt =====
-- Addresses survive being printed and read: PORT arguments, PASV replies, dotted addresses.
use simple_ftp.Base.{
  ℕ, ◌+◌, ◌*◌, ◌%◌, ◌^◌, ◌≤◌, ◌<◌, ◌≡◌, refl, false, Option, none, some, [], ◌∷◌, ◌++◌, length,
  length-append, append-nil, arith,
}
use simple_ftp.CString.{Bytes, isdigit, decimal}
use simple_ftp.CString.Scan.{scan_unsigned, scan_char, ◌>>=◌}
use simple_ftp.CString.Decimal.{EndsNumber, scan_unsigned-decimal, decimal-byte-length}
use simple_ftp.Protocol.Types.{PortParams}
use simple_ftp.Protocol.Address.{
  scan_six, check_six, parse_port, dotted, port_to_address, scan_four, address_to_pasv,
  comma_fields, pasv_head, pasv_tail, format_pasv_response,
}

-- Six bytes, as the `uint8_t` fields hold them.
pub record IsPortParams (p : PortParams) : Type 0 where
  pub h1_byte : p.h1 < 256
  pub h2_byte : p.h2 < 256
  pub h3_byte : p.h3 < 256
  pub h4_byte : p.h4 < 256
  pub p1_byte : p.p1 < 256
  pub p2_byte : p.p2 < 256

check_six-IsPortParams : (p : PortParams) {q : PortParams} → check_six p ≡ some q → IsPortParams q
unfolding check_six
check_six-IsPortParams p h = ground arith

check_six-eq_some : (p : PortParams) → IsPortParams p → check_six p ≡ some p
unfolding check_six
check_six-eq_some p v = ground arith

-- Whatever text `proto_parse_port` accepts, all six values are bytes.
pub parse_port-IsPortParams :
    (argument : Bytes) {p : PortParams} → parse_port argument ≡ some p → IsPortParams p
unfolding parse_port
parse_port-IsPortParams argument {p} h = of_scan (scan_six argument) h
  where
    of_scan : (o : Option PortParams) → (o >>= check_six) ≡ some p → IsPortParams p
    of_scan none k = absurd (cc)
    of_scan (some q) k = check_six-IsPortParams q k

scan_byte :
    (n c : ℕ) (rest : Bytes)
    → n < 256
    → isdigit c ≡ false
    → scan_unsigned (decimal n ++ (c ∷ rest)) ≡ some (n, c ∷ rest)
scan_byte n c rest h k = scan_unsigned-decimal n (c ∷ rest) (omega arith) k

scan_six-comma_fields :
    (p : PortParams) (rest : Bytes)
    → IsPortParams p
    → EndsNumber rest
    → scan_six (comma_fields p rest) ≡ some p
unfolding scan_six comma_fields isdigit scan_char
scan_six-comma_fields p rest v k =
    rw
      (
        scan_byte p.h1 b',' _ v.h1_byte refl,
        scan_byte p.h2 b',' _ v.h2_byte refl,
        scan_byte p.h3 b',' _ v.h3_byte refl,
        scan_byte p.h4 b',' _ v.h4_byte refl,
        scan_byte p.p1 b',' _ v.p1_byte refl,
        scan_unsigned-decimal p.p2 rest (omega (arith, v.p2_byte)) k,
      )
      refl

-- Six bytes printed with commas are read back by `proto_parse_port`, whatever follows them that
-- does not begin with a digit.
pub parse_port-comma_fields :
    (p : PortParams) (rest : Bytes)
    → IsPortParams p
    → EndsNumber rest
    → parse_port (comma_fields p rest) ≡ some p
unfolding parse_port
parse_port-comma_fields p rest v k = rw (scan_six-comma_fields p rest v k) (check_six-eq_some p v)

field-length-le :
    (n k c : ℕ) (s : Bytes) → n < 256 → length s ≤ k → length (decimal n ++ (c ∷ s)) ≤ k + 4
field-length-le n k c s h l =
    omega (arith, length-append (decimal n) (c ∷ s), decimal-byte-length n h)

dotted-length-le : (p : PortParams) → IsPortParams p → length (dotted p.h1 p.h2 p.h3 p.h4) ≤ 15
unfolding dotted
dotted-length-le p v = field-length-le p.h1 11 b'.' _ v.h1_byte (
    field-length-le p.h2 7 b'.' _ v.h2_byte
      (field-length-le p.h3 3 b'.' _ v.h3_byte (decimal-byte-length p.h4 v.h4_byte)))

comma_fields-length-le :
    (p : PortParams) (rest : Bytes)
    → IsPortParams p
    → length rest ≤ 3
    → length (comma_fields p rest) ≤ 26
unfolding comma_fields
comma_fields-length-le p rest v h = field-length-le p.h1 22 b',' _ v.h1_byte (
    field-length-le p.h2 18 b',' _ v.h2_byte (
      field-length-le p.h3 14 b',' _ v.h3_byte (
        field-length-le p.h4 10 b',' _ v.h4_byte (
          field-length-le p.p1 6 b',' _ v.p1_byte (
            omega
              (arith, length-append (decimal p.p2) rest, decimal-byte-length p.p2 v.p2_byte))))))

scan_four-dotted :
    (p : PortParams)
    → IsPortParams p
    → scan_four (dotted p.h1 p.h2 p.h3 p.h4) ≡ some (p.h1, p.h2, p.h3, p.h4)
unfolding scan_four dotted isdigit scan_char
scan_four-dotted p v =
    rw
      (
        scan_byte p.h1 b'.' _ v.h1_byte refl,
        scan_byte p.h2 b'.' _ v.h2_byte refl,
        scan_byte p.h3 b'.' _ v.h3_byte refl,
        ← append-nil (decimal p.h4),
        scan_unsigned-decimal p.h4 [] (omega (arith, v.h4_byte)) tt,
      )
      refl

-- The address and the port of a PORT command lead back to the same six bytes, and the port is a
-- 16-bit number. The buffer of 16 bytes that the code asks for is always enough.
pub address_to_pasv-port_to_address :
    (p : PortParams) (size : ℕ)
    → IsPortParams p
    → 16 ≤ size
    → (ip : Bytes) × (port : ℕ) × (port_to_address p size ≡ some (ip, port))
      × (port < 2 ^ 16)
      × (address_to_pasv ip port ≡ some p)
unfolding port_to_address address_to_pasv
address_to_pasv-port_to_address p size v h = (
  dotted p.h1 p.h2 p.h3 p.h4,
  (p.p1 * 256 + p.p2) % 2 ^ 16,
  ground (arith, dotted-length-le p v),
  omega arith,
  rw (scan_four-dotted p v) (ground arith),
)

-- The reply to PASV always fits into the 256 bytes that the handler gives, and a client that reads
-- the numbers behind the parenthesis, as `proto_parse_port` reads them, gets the same six bytes.
pub format_pasv_response_lem :
    (p : PortParams)
    → IsPortParams p
    → (format_pasv_response 256 p ≡ some (pasv_head ++ comma_fields p pasv_tail))
      × (parse_port (comma_fields p pasv_tail) ≡ some p)
unfolding format_pasv_response isdigit
format_pasv_response_lem p v = (
  ground (arith, comma_fields-length-le p pasv_tail v (omega arith)),
  parse_port-comma_fields p pasv_tail v refl,
)
