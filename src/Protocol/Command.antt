-- ===== src/Protocol/Command.antt =====
-- server/src/protocol.c, `proto_parse_command`.
pub mod Bounds
pub mod RoundTrip
use simple_ftp.Base.{
  ℕ, Bool, true, false, ◌||◌, not, Option, none, some, List, [], ◌∷◌, ltb, leb, ◌==◌, if◌then◌else◌,
  length,
}
use simple_ftp.CString.{Bytes, c_string, strncpy}
use simple_ftp.Utils.{to_uppercase, trim_whitespace}
use simple_ftp.Protocol.Types.{Command, max_cmd_name, max_cmd_arg}
use simple_ftp.Protocol.Telnet.{buffer_size, filter_telnet}

-- The text in front of the first CR LF: `strstr(buffer, "\r\n")`, and a zero written there.
unfoldable pub cut_crlf : Bytes → Bytes
cut_crlf [] = []
cut_crlf (c ∷ []) = c ∷ []
cut_crlf (c ∷ d ∷ s) =
    let more = c ∷ cut_crlf (d ∷ s) in
    if c == b'\r' then (if d == b'\n' then [] else more) else more

-- `strchr(buffer, ' ')`: the text before the first space, and after it if there is one.
unfoldable pub split_space : Bytes → Bytes × Option Bytes
split_space [] = ([], none)
split_space (c ∷ s) =
    let (name, arg) = split_space s in if c == b' ' then ([], some s) else (c ∷ name, arg)

-- The two branches on `space`.
unfoldable pub fill_command : Bytes × Option Bytes → Command
fill_command (name, none) = record {
  command = to_uppercase (strncpy max_cmd_name name);
  argument = [];
  has_argument = false;
}
fill_command (name, some rest) =
    let arg = strncpy max_cmd_arg (trim_whitespace rest) in
    record {
      command = to_uppercase (strncpy max_cmd_name name);
      argument = arg;
      has_argument = not (length arg == 0);
    }

-- What is done to the filtered line.
unfoldable pub parse_filtered : Bytes → Option Command
unfolding cut_crlf split_space fill_command
parse_filtered filtered =
    let buffer = trim_whitespace (cut_crlf filtered) in
    if length buffer == 0 then none else some (fill_command (split_space buffer))

-- `proto_parse_command`; `none` stands for -1.
unfoldable pub parse_command : Bytes → Option Command
unfolding parse_filtered c_string
parse_command line =
    let text = c_string line in
    if leb buffer_size (length text) then none else parse_filtered (filter_telnet text)
