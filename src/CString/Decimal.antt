-- ===== src/CString/Decimal.antt =====
-- Decimal printing by `%u`, and reading it back by `%u`.
use simple_ftp.Base.{
  ℕ, zero, suc, ◌+◌, ◌*◌, ◌/◌, ◌%◌, ◌^◌, ◌≤◌, ◌<◌, ◌≡◌, refl, sym, ap, ◌∙◌, Bool, true, false, some,
  [], ◌∷◌, ◌++◌, append_assoc, ltb, length, length-append, Bool-cases, ltb→lt, inl, inr, arith,
}
use simple_ftp.CString.{Bytes, isspace, isdigit, decimal_go, decimal}
use simple_ftp.CString.Scan.{read_digits, unsigned_of, scan_unsigned}

decimal_go_fuel : (f g n : ℕ) → n ≤ f → n ≤ g → decimal_go f n ≡ decimal_go g n
unfolding decimal_go
decimal_go_fuel zero zero n h k = refl
decimal_go_fuel zero (suc g) n h k = ground arith
decimal_go_fuel (suc f) zero n h k = ground arith
decimal_go_fuel (suc f) (suc g) n h k = ground (arith, decimal_go_fuel f g (n / 10))

pub decimal_digit : (n : ℕ) → n < 10 → decimal n ≡ (b'0' + n) ∷ []
unfolding decimal
decimal_digit zero h = refl
decimal_digit (suc n) h = ground arith

pub decimal_step : (n : ℕ) → 10 ≤ n → decimal n ≡ decimal (n / 10) ++ (b'0' + n % 10) ∷ []
unfolding decimal
decimal_step zero h = absurd (omega arith)
decimal_step (suc n) h = ground (arith, decimal_go_fuel n (suc n / 10) (suc n / 10))

-- A digit first, whatever the number.
abbrev pub BeginsWithDigit : Bytes → Type 0
BeginsWithDigit s = (d : ℕ) × (t : Bytes) × (s ≡ d ∷ t) × (isdigit d ≡ true)

decimal_go-begins : (f n : ℕ) → BeginsWithDigit (decimal_go f n)
unfolding decimal_go isdigit
decimal_go-begins zero n = (b'0' + n % 10, [], refl, ground arith)
decimal_go-begins (suc f) n = elim (Bool-cases (ltb n 10)) [
  | inl small ↦ (b'0' + n, [], rw small, ground arith)
  | inr large ↦
      let (d, t, e, h) = decimal_go-begins f (n / 10) in
      (d, t ++ (b'0' + n % 10) ∷ [], rw large (ap (λ x. x ++ (b'0' + n % 10) ∷ []) e), h)
]

-- What is not part of a number: nothing, or a byte that is no digit.
abbrev pub EndsNumber : Bytes → Type 0
EndsNumber [] = Unit
EndsNumber (c ∷ s) = isdigit c ≡ false

read_digits_end :
    (n : ℕ) (rest : Bytes) → EndsNumber rest → read_digits true n rest ≡ some (n, rest)
unfolding read_digits
read_digits_end n [] h = refl
read_digits_end n (c ∷ s) h = rw h

read_digits_next :
    (seen : Bool) (n d : ℕ) (rest : Bytes)
    → d < 10
    → read_digits seen n ((b'0' + d) ∷ rest) ≡ read_digits true (n * 10 + d) rest
unfolding read_digits
read_digits_next seen n d rest h = ground arith

read_digits-decimal_go :
    (f n : ℕ) (seen : Bool) (rest : Bytes)
    → n ≤ f
    → read_digits seen 0 (decimal_go f n ++ rest) ≡ read_digits true n rest
unfolding decimal_go
read_digits-decimal_go zero n seen rest h =
    read_digits_next seen 0 (n % 10) rest (omega arith)
    ∙ ap (λ x. read_digits true x rest) (omega arith)
read_digits-decimal_go (suc f) n seen rest h = elim (Bool-cases (ltb n 10)) [
  | inl small ↦ rw small (
      read_digits_next seen 0 n rest (ground arith)
      ∙ ap (λ x. read_digits true x rest) (omega arith))
  | inr large ↦
      rw (large, append_assoc)
        (read_digits-decimal_go f (n / 10) seen ((b'0' + n % 10) ∷ rest) (ground arith)
          ∙ read_digits_next true (n / 10) (n % 10) rest (omega arith)
          ∙ ap (λ x. read_digits true x rest) (omega arith))
]

scan_unsigned_digits :
    (d : ℕ) (t : Bytes)
    → isdigit d ≡ true
    → scan_unsigned (d ∷ t) ≡ unsigned_of false (read_digits false 0 (d ∷ t))
unfolding scan_unsigned isspace isdigit
scan_unsigned_digits d t h = ground arith

-- A number below 2 ^ 32 in decimal is read back, and what follows it is left.
pub scan_unsigned-decimal :
    (n : ℕ) (rest : Bytes)
    → n < 2 ^ 32
    → EndsNumber rest
    → scan_unsigned (decimal n ++ rest) ≡ some (n, rest)
unfolding decimal unsigned_of
scan_unsigned-decimal n rest h k =
    let (d, t, e, digit) = decimal_go-begins n n in
    ap (λ x. scan_unsigned (x ++ rest)) e
    ∙ scan_unsigned_digits d (t ++ rest) digit
    ∙ ap (λ x. unsigned_of false (read_digits false 0 (x ++ rest))) (sym e)
    ∙ ap (unsigned_of false)
        (read_digits-decimal_go n n false rest (omega arith) ∙ read_digits_end n rest k)
    ∙ ground arith

-- How long the decimal form of a byte is at most.
pub decimal-byte-length : (n : ℕ) → n < 256 → length (decimal n) ≤ 3
decimal-byte-length n h = elim (Bool-cases (ltb n 10)) [
  | inl one ↦ omega (arith, ap length (decimal_digit n (ltb→lt _ _ one)))
  | inr more ↦ elim (Bool-cases (ltb n 100)) [
    | inl two ↦ omega (
      arith,
      ap length (decimal_step n (ground arith)),
      ap length (decimal_digit (n / 10) (ground arith)),
      length-append (decimal (n / 10)) ((b'0' + n % 10) ∷ []),
    )
    | inr three ↦ omega (
      arith,
      ap length (decimal_step n (ground arith)),
      ap length (decimal_step (n / 10) (ground arith)),
      ap length (decimal_digit (n / 10 / 10) (ground arith)),
      length-append (decimal (n / 10)) ((b'0' + n % 10) ∷ []),
      length-append (decimal (n / 10 / 10)) ((b'0' + n / 10 % 10) ∷ []),
    )
  ]
]

-- Three digits for a number of three digits.
pub decimal_three :
    (n : ℕ)
    → 100 ≤ n
    → n < 1000
    → decimal n ≡ (b'0' + n / 100) ∷ (b'0' + n / 10 % 10) ∷ (b'0' + n % 10) ∷ []
decimal_three n h k =
    decimal_step n (omega arith)
    ∙ ap (λ x. x ++ (b'0' + n % 10) ∷ [])
        (decimal_step (n / 10) (omega arith)
          ∙ ap (λ x. x ++ (b'0' + n / 10 % 10) ∷ []) (decimal_digit (n / 10 / 10) (omega arith)))
    ∙ ap (λ x. (b'0' + x) ∷ (b'0' + n / 10 % 10) ∷ (b'0' + n % 10) ∷ []) (omega arith)
