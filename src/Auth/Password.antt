-- ===== src/Auth/Password.antt =====
-- Passwords in server/src/auth.c.
use simple_ftp.Base.{
  ℕ, zero, suc, ◌+◌, ◌*◌, ◌/◌, ◌%◌, ◌^◌, ◌<◌, ◌≡◌, refl, ap, ◌∙◌, ◌↔◌, true, [], ◌∷◌, ◌++◌, length,
  length-append, arith,
}
use simple_ftp.CString.{Bytes}
use simple_ftp.CString.Laws.{str_eq_iff}
use simple_ftp.Auth.{simple_hash_go, hex_char, hex_padded, hash_password, verify_password}

length-hex_padded : (w n : ℕ) → length (hex_padded w n) ≡ w
unfolding hex_padded
length-hex_padded zero n = refl
length-hex_padded (suc w) n =
    length-append (hex_padded w (n / 16)) (hex_char (n % 16) ∷ [])
    ∙ omega (arith, length-hex_padded w (n / 16))

hex_char_inj : (a b : ℕ) → a < 16 → b < 16 → hex_char a ≡ hex_char b → a ≡ b
hex_char_inj a b h k e = ground arith

last_inj : (xs ys : Bytes) (x y : ℕ) → (xs ++ x ∷ []) ≡ (ys ++ y ∷ []) → (xs ≡ ys) × (x ≡ y)
last_inj [] [] x y e = (refl, ap head_or e)
  where
    head_or : Bytes → ℕ
    head_or [] = 0
    head_or (z ∷ zs) = z
last_inj [] (b ∷ ys) x y e = absurd (omega (arith, ap length e, length-append ys (y ∷ [])))
last_inj (a ∷ xs) [] x y e = absurd (omega (arith, ap length e, length-append xs (x ∷ [])))
last_inj (a ∷ xs) (b ∷ ys) x y e =
    let (s, l) = last_inj xs ys x y (ap tail_or e) in
    (ap (λ z. z ∷ xs) (ap head_or e) ∙ ap (λ zs. b ∷ zs) s, l)
  where
    head_or : Bytes → ℕ
    head_or [] = 0
    head_or (z ∷ zs) = z

    tail_or : Bytes → Bytes
    tail_or [] = []
    tail_or (z ∷ zs) = zs

-- A number of at most `w` hexadecimal digits can be read back.
hex_padded_inj : (w m n : ℕ) → m < 16 ^ w → n < 16 ^ w → hex_padded w m ≡ hex_padded w n → m ≡ n
unfolding hex_padded
hex_padded_inj zero m n h k e = omega (arith, h, k)
hex_padded_inj (suc w) m n h k e =
    let (s, l) =
      last_inj (hex_padded w (m / 16)) (hex_padded w (n / 16)) (hex_char (m % 16))
        (hex_char (n % 16)) e in
    let low : m % 16 ≡ n % 16 = hex_char_inj (m % 16) (n % 16) (omega arith) (omega arith) l in
    let high : m / 16 ≡ n / 16 =
      hex_padded_inj w (m / 16) (n / 16) (shrink w m h) (shrink w n k) s in
    omega (arith, low, high)
  where
    shrink : (w m : ℕ) → m < 16 ^ (suc w) → m / 16 < 16 ^ w
    shrink w m h = omega (arith, h)

simple_hash_go-lt : (h : ℕ) (s : Bytes) → h < 2 ^ 32 → simple_hash_go h s < 2 ^ 32
unfolding simple_hash_go
simple_hash_go-lt h [] k = k
simple_hash_go-lt h (c ∷ s) k = simple_hash_go-lt ((h * 31 + c) % 2 ^ 32) s (omega arith)

-- A password is accepted against the stored form of another exactly if the two have one 32-bit sum:
-- the 64 digits that are stored carry no more than that.
pub verify_password_iff :
    (p q : Bytes)
    → (verify_password p (hash_password q) ≡ true) ↔ (simple_hash_go 0 p ≡ simple_hash_go 0 q)
unfolding verify_password hash_password
verify_password_iff p q = (
  λ h.
      hex_padded_inj 64 (simple_hash_go 0 p) (simple_hash_go 0 q) (small p) (small q)
        ((str_eq_iff (hash_password p) (hash_password q)).0 h),
  λ e. (str_eq_iff (hash_password p) (hash_password q)).1 (ap (hex_padded 64) e),
)
  where
    small : (s : Bytes) → simple_hash_go 0 s < 16 ^ 64
    small s = omega (arith, simple_hash_go-lt 0 s (omega arith))
