-- ===== src/Utils/Hex.antt =====
-- The hexadecimal form of a string: what is written, and what happens where the buffer is small.

use simple_ftp.Base.{
  ℕ, suc, ◌+◌, ◌*◌, ◌^◌, ◌≤◌, ◌<◌, ◌≡◌, refl, ap, ◌∙◌, some, [], ◌∷◌, ◌++◌, ltb, length, take,
  length-append, append_assoc, append-nil, ltb→lt, Bool-cases, inl, inr, arith,
}
use simple_ftp.CString.{Bytes}
use simple_ftp.Utils.{hex_byte, string_to_hex_go, drop_last_space, string_to_hex}

-- Every byte as two digits and a space.
abbrev pub hex_all : Bytes → Bytes
hex_all [] = []
hex_all (c ∷ s) = hex_byte c ++ hex_all s

hex_byte-length : (c : ℕ) → length (hex_byte c) ≡ 3
unfolding hex_byte
hex_byte-length c = refl

module _ (size : ℕ) (large : 3 ≤ size) (small : size < 2 ^ 64) where
  go_stop :
      (c : ℕ) (s out : Bytes) → size ≤ length out + 3 → string_to_hex_go (c ∷ s) size out ≡ some out
  unfolding string_to_hex_go
  go_stop c s out h = ground arith

  go_more :
      (c : ℕ) (s out : Bytes)
      → length out + 3 < size
      → string_to_hex_go (c ∷ s) size out ≡ string_to_hex_go s size (out ++ hex_byte c)
  unfolding string_to_hex_go
  go_more c s out h = ground arith

  -- The loop writes the digits of some prefix of the text, and the bytes written leave one free.
  go_prefix :
      (s out : Bytes)
      → length out < size
      → (k : ℕ) × (k ≤ length s)
        × (string_to_hex_go s size out ≡ some (out ++ hex_all (take k s)))
        × (length (out ++ hex_all (take k s)) < size)
  go_prefix [] out h =
      (0, omega arith, rw append-nil (unfold string_to_hex_go in refl), rw append-nil h)
  go_prefix (c ∷ s) out h = elim (Bool-cases (ltb (length out + 3) size)) [
    | inl more ↦
        let (k, le, e, lt) =
          go_prefix s (out ++ hex_byte c)
            (omega (arith, length-append out (hex_byte c), hex_byte-length c, ltb→lt _ _ more)) in
        let re : (out ++ hex_byte c) ++ hex_all (take k s)
            ≡ out ++ (hex_byte c ++ hex_all (take k s)) =
          append_assoc out (hex_byte c) (hex_all (take k s)) in
        (suc k, omega arith, go_more c s out (ltb→lt _ _ more) ∙ e ∙ ap some re, rw re at lt)
    | inr stop ↦
        (0, omega arith, go_stop c s out (ground arith) ∙ ap some (rw append-nil), rw append-nil h)
  ]

  go_full :
      (s out : Bytes)
      → length out + 3 * length s < size
      → string_to_hex_go s size out ≡ some (out ++ hex_all s)
  go_full [] out h = rw append-nil (unfold string_to_hex_go in refl)
  go_full (c ∷ s) out h =
      go_more c s out (omega arith)
      ∙ go_full s (out ++ hex_byte c)
          (omega (arith, length-append out (hex_byte c), hex_byte-length c))
      ∙ ap some (append_assoc out (hex_byte c) (hex_all s))

  -- With three bytes for each byte of the text and one more, all digits are written.
  pub string_to_hex_full :
      (s : Bytes) → 3 * length s < size → string_to_hex s size ≡ some (drop_last_space (hex_all s))
  unfolding string_to_hex
  string_to_hex_full s h = ground (arith, go_full s [] (omega arith))

  -- With a smaller buffer of at least three bytes the call still succeeds, on a prefix of the text.
  pub string_to_hex_never_fails :
      (s : Bytes)
      → (k : ℕ) × (k ≤ length s)
        × (string_to_hex s size ≡ some (drop_last_space (hex_all (take k s))))
        × (length (hex_all (take k s)) < size)
  unfolding string_to_hex
  string_to_hex_never_fails s =
      let (k, le, e, lt) = go_prefix s [] (omega arith) in (k, le, ground arith, lt)
