-- ===== src/Tests/Texts.antt =====
-- Texts of server/src/utils.c and server/src/protocol.c at concrete inputs.

use simple_ftp.Base.{ℕ, ◌^◌, ◌<◌, ◌≡◌, refl, true, false, some, [], ◌∷◌, ◌++◌, arith}
use simple_ftp.CString.{Bytes, c_string, codes, isspace, toupper}
use simple_ftp.CString.Scan.{skip_space}
use simple_ftp.Utils.{to_uppercase, trim_whitespace, crlf_to_lf, lf_to_crlf, back_up}
use simple_ftp.Utils.Lines.{crlf_to_lf-lf_to_crlf}
use simple_ftp.Protocol.Types.{PortParams}
use simple_ftp.Protocol.Telnet.{filter_telnet, filter_go}
use simple_ftp.Protocol.Telnet.Laws.{escape, filter_telnet-escape, negotiation_keeps_option}
use simple_ftp.Protocol.Command.{parse_command}
use simple_ftp.Protocol.Command.Bounds.{IsParsed, parse_command-IsParsed}
use simple_ftp.Protocol.Command.RoundTrip.{IsLine, crlf, command_line, parse_command-line}
use simple_ftp.Protocol.Address.{parse_port, port_to_address, address_to_pasv, comma_fields}
use simple_ftp.Protocol.Address.Laws.{
  IsPortParams, parse_port-comma_fields, address_to_pasv-port_to_address,
}

pub retr-IsLine : IsLine (codes "retr") (codes "a b")
unfolding isspace
retr-IsLine = record {
  name_bytes = (
    (refl, (omega arith)),
    ((refl, (omega arith)), ((refl, (omega arith)), ((refl, (omega arith)), tt))),
  );
  name_ne_nil = λ e. cc;
  name_fits = omega arith;
  arg_bytes = (
    ((omega arith), (omega arith)),
    (((omega arith), (omega arith)), (((omega arith), (omega arith)), tt)),
  );
  arg_ne_nil = λ e. cc;
  arg_trimmed = (refl, refl);
  arg_fits = omega arith;
  name_no_nul = ((omega arith), ((omega arith), ((omega arith), ((omega arith), tt))));
  arg_no_nul = ((omega arith), ((omega arith), ((omega arith), tt)));
}

parse_command-line_example :
    parse_command (escape (command_line (codes "retr") (codes "a b")) ++ crlf)
    ≡ some (record {
      command = to_uppercase (codes "retr");
      argument = codes "a b";
      has_argument = true;
    })
parse_command-line_example =
    parse_command-line (codes "retr") (codes "a b") retr-IsLine (omega arith)

parse_command-IsParsed_example :
    IsParsed (record { command = codes "NOOP"; argument = []; has_argument = false })
unfolding parse_command c_string trim_whitespace back_up skip_space filter_telnet toupper
parse_command-IsParsed_example = parse_command-IsParsed (codes " noop\r\n") refl

filter_telnet-escape_example : filter_telnet (c_string (escape (97 ∷ 255 ∷ []))) ≡ 97 ∷ 255 ∷ []
filter_telnet-escape_example =
    filter_telnet-escape (97 ∷ 255 ∷ []) ((omega arith), ((omega arith), tt))
      ((omega arith), ((omega arith), tt)) (omega arith)

negotiation_keeps_option_example :
    filter_go 0 6 (0xFF ∷ 0xFD ∷ 6 ∷ codes "NOOP") ≡ 6 ∷ filter_go 0 5 (codes "NOOP")
negotiation_keeps_option_example =
    negotiation_keeps_option 0xFD 6 (codes "NOOP") 5 (omega arith) (omega arith) (omega arith)
      (omega arith)

lines_example : crlf_to_lf (codes "a\r\nb\r\n") 4 ≡ some (codes "a\nb\n")
unfolding lf_to_crlf
lines_example =
    crlf_to_lf-lf_to_crlf (codes "a\nb\n") (codes "a\r\nb\r\n") 8 4 refl (omega arith) (omega arith)

abbrev address : PortParams
address = record { h1 = 127; h2 = 0; h3 = 0; h4 = 1; p1 = 4; p2 = 1 }

address-IsPortParams : IsPortParams address
address-IsPortParams = record {
  h1_byte = omega arith;
  h2_byte = omega arith;
  h3_byte = omega arith;
  h4_byte = omega arith;
  p1_byte = omega arith;
  p2_byte = omega arith;
}

address_round_example :
    (ip : Bytes) × (port : ℕ) × (port_to_address address 64 ≡ some (ip, port))
    × (port < 2 ^ 16)
    × (address_to_pasv ip port ≡ some address)
address_round_example =
    address_to_pasv-port_to_address address 64 address-IsPortParams (omega arith)

parse_port-comma_fields_example : parse_port (comma_fields address []) ≡ some address
parse_port-comma_fields_example = parse_port-comma_fields address [] address-IsPortParams tt
