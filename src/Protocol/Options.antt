-- ===== src/Protocol/Options.antt =====
-- server/src/protocol.c: the arguments of TYPE, MODE and STRU.
use simple_ftp.Base.{
  ℕ, zero, suc, ◌≡◌, refl, ap, ◌||◌, Option, none, some, [], ◌∷◌, take, if◌then◌else◌,
}
use simple_ftp.CString.{Bytes, codes, str_eq, strncpy}
use simple_ftp.CString.Laws.{toupper_idem}
use simple_ftp.Utils.{to_uppercase, trim_whitespace}
use simple_ftp.Protocol.Types.{
  TransferType, ascii, binary, ebcdic, TransferMode, stream, block, compressed, DataStructure,
  file_structure, record_structure, page_structure,
}

-- `arg_upper`: fifteen bytes at most, in upper case, trimmed.
unfoldable pub option_text : Bytes → Bytes
option_text argument = trim_whitespace (to_uppercase (strncpy 16 argument))

type_of : Bytes → Option TransferType
unfolding str_eq
type_of arg =
    if str_eq arg (codes "A") || str_eq arg (codes "A N")
    then some ascii
    else if str_eq arg (codes "I")
    then some binary
    else if str_eq arg (codes "E") || str_eq arg (codes "E N")
    then some ebcdic
    else none

-- `proto_parse_type`
unfoldable pub parse_type : Bytes → Option TransferType
unfolding option_text type_of
parse_type argument = type_of (option_text argument)

mode_of : Bytes → Option TransferMode
unfolding str_eq
mode_of arg =
    if str_eq arg (codes "S")
    then some stream
    else if str_eq arg (codes "B")
    then some block
    else if str_eq arg (codes "C")
    then some compressed
    else none

-- `proto_parse_mode`
unfoldable pub parse_mode : Bytes → Option TransferMode
unfolding option_text mode_of
parse_mode argument = mode_of (option_text argument)

stru_of : Bytes → Option DataStructure
unfolding str_eq
stru_of arg =
    if str_eq arg (codes "F")
    then some file_structure
    else if str_eq arg (codes "R")
    then some record_structure
    else if str_eq arg (codes "P")
    then some page_structure
    else none

-- `proto_parse_stru`
unfoldable pub parse_stru : Bytes → Option DataStructure
unfolding option_text stru_of
parse_stru argument = stru_of (option_text argument)

take-to_uppercase :
    (n : ℕ) (s : Bytes) → to_uppercase (take n (to_uppercase s)) ≡ to_uppercase (take n s)
take-to_uppercase zero s = refl
take-to_uppercase (suc n) [] = refl
take-to_uppercase (suc n) (c ∷ s) = cc (toupper_idem c, take-to_uppercase n s)

option_text-to_uppercase : (s : Bytes) → option_text (to_uppercase s) ≡ option_text s
unfolding option_text
option_text-to_uppercase s = ap trim_whitespace (take-to_uppercase 15 s)

-- The three parsers read an argument in any case alike.
pub options_ignore_case :
    (s : Bytes)
    → (parse_type (to_uppercase s) ≡ parse_type s)
      × (parse_mode (to_uppercase s) ≡ parse_mode s)
      × (parse_stru (to_uppercase s) ≡ parse_stru s)
unfolding parse_type parse_mode parse_stru
options_ignore_case s =
    let e = option_text-to_uppercase s in (ap type_of e, ap mode_of e, ap stru_of e)
