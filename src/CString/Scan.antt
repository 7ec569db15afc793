-- ===== src/CString/Scan.antt =====
-- `sscanf` with `%u` and literal characters, as glibc does it on a 64-bit machine.
use simple_ftp.Base.{
  ℕ, ◌+◌, ◌-◌, ◌*◌, ◌%◌, ◌^◌, Bool, true, false, Option, none, some, [], ◌∷◌, ltb, ◌==◌,
  if◌then◌else◌,
}
use simple_ftp.CString.{Bytes, isspace, isdigit}

infixl 5 ◌>>=◌
abbrev pub ◌>>=◌ {ℓ κ} : {A : Type ℓ} {B : Type κ} → Option A → (A → Option B) → Option B
none >>= f = none
some a >>= f = f a

unfoldable pub skip_space : Bytes → Bytes
unfolding isspace
skip_space [] = []
skip_space (c ∷ s) = if isspace c then skip_space s else c ∷ s

-- The digits read so far make `n`; `seen` says that there was one.
unfoldable pub read_digits : Bool → ℕ → Bytes → Option (ℕ × Bytes)
unfolding isdigit
read_digits seen n [] = if seen then some (n, []) else none
read_digits seen n (c ∷ s) =
    let more = read_digits true (n * 10 + (c - b'0')) s in
    if isdigit c then more else if seen then some (n, c ∷ s) else none

-- `strtoul` saturates at 2 ^ 64 - 1, and a minus sign negates; `%u` keeps the low 32 bits.
unfoldable pub to_unsigned : Bool → ℕ → ℕ
to_unsigned minus n =
    if ltb n (2 ^ 64) then (if minus then (2 ^ 64 - n) % 2 ^ 32 else n % 2 ^ 32) else 2 ^ 32 - 1

unfoldable pub unsigned_of : Bool → Option (ℕ × Bytes) → Option (ℕ × Bytes)
unfolding to_unsigned
unsigned_of minus none = none
unsigned_of minus (some (n, s)) = some (to_unsigned minus n, s)

unfoldable pub signed_digits : Bytes → Option (ℕ × Bytes)
unfolding read_digits unsigned_of
signed_digits [] = none
signed_digits (c ∷ s) =
    if c == b'-'
    then unsigned_of true (read_digits false 0 s)
    else if c == b'+'
    then unsigned_of false (read_digits false 0 s)
    else unsigned_of false (read_digits false 0 (c ∷ s))

-- `%u`
unfoldable pub scan_unsigned : Bytes → Option (ℕ × Bytes)
unfolding skip_space signed_digits
scan_unsigned s = signed_digits (skip_space s)

-- a literal character of the format
unfoldable pub scan_char : ℕ → Bytes → Option Bytes
scan_char c [] = none
scan_char c (d ∷ s) = if d == c then some s else none
