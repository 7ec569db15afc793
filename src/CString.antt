-- ===== src/CString.antt =====
-- C strings as lists of bytes without the terminating zero, and the calls of <string.h>, <ctype.h>
-- and <stdio.h> that the server makes on them, in the "C" locale.
pub mod Scan
pub mod Laws
pub mod Decimal
pub mod Tokens
use Prim.Native.Char.{code}
use simple_ftp.Base.{
  ℕ, zero, suc, ◌+◌, ◌-◌, ◌/◌, ◌%◌, ◌<◌, String, Bool, true, false, not, ◌&&◌, ◌||◌, List, [], ◌∷◌,
  ◌++◌, ltb, leb, ◌==◌, if◌then◌else◌, take, ◌≢◌,
}

abbrev pub Bytes : Type 0
Bytes = List ℕ

-- The bytes of a literal in the source.
abbrev pub codes : String → Bytes
codes String.[] = []
codes (String.◌∷◌ c s) = code c ∷ codes s

abbrev pub IsByte : ℕ → Type 0
IsByte c = c < 256

-- What a `char` array holds up to its terminator.
abbrev pub IsChar : ℕ → Type 0
IsChar c = (c ≢ 0) × (c < 256)

-- `strcmp(a, b) == 0`
unfoldable pub str_eq : Bytes → Bytes → Bool
str_eq [] [] = true
str_eq (x ∷ xs) (y ∷ ys) = x == y && str_eq xs ys
str_eq _ _ = false

-- `strncmp(s, p, strlen(p)) == 0`
unfoldable pub starts_with : Bytes → Bytes → Bool
starts_with [] s = true
starts_with (x ∷ p) [] = false
starts_with (x ∷ p) (y ∷ s) = x == y && starts_with p s

-- `strstr(s, p) != NULL`, for a non-empty `p`
unfoldable pub contains : Bytes → Bytes → Bool
unfolding starts_with
contains p [] = false
contains p (x ∷ s) = starts_with p (x ∷ s) || contains p s

-- The string in a `char[size]` after `strncpy(dst, src, size - 1)` and a zero written at `size - 1`.
abbrev pub strncpy : ℕ → Bytes → Bytes
strncpy size s = take (size - 1) s

-- `isspace`
unfoldable pub isspace : ℕ → Bool
isspace c = c == 32 || (leb 9 c && leb c 13)

-- `isdigit`
unfoldable pub isdigit : ℕ → Bool
isdigit c = leb b'0' c && leb c b'9'

-- `toupper`
unfoldable pub toupper : ℕ → ℕ
toupper c = if leb b'a' c && leb c b'z' then c - 32 else c

-- The decimal digits of `n` by `%u`; the fuel `n` covers the at most `n` divisions by ten.
unfoldable pub decimal_go : ℕ → ℕ → Bytes
decimal_go zero n = (b'0' + n % 10) ∷ []
decimal_go (suc fuel) n =
    let more = decimal_go fuel (n / 10) in
    if ltb n 10 then (b'0' + n) ∷ [] else more ++ (b'0' + n % 10) ∷ []

unfoldable pub decimal : ℕ → Bytes
unfolding decimal_go
decimal n = decimal_go n n

-- The C string in a buffer with these bytes: what stands in front of the first zero.
unfoldable pub c_string : Bytes → Bytes
c_string [] = []
c_string (c ∷ s) = let rest = c_string s in if c == 0 then [] else c ∷ rest
