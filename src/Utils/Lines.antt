-- ===== src/Utils/Lines.antt =====
-- Line endings: the two conversions against their plain descriptions, their sizes, the round trip.
use mathlib.Core.Option
use simple_ftp.Base.{
  ℕ, zero, suc, ◌+◌, ◌≤◌, ◌<◌, ◌≡◌, refl, sym, ap, ◌∙◌, ◌&&◌, Option, none, some, [], ◌∷◌, leb,
  ◌==◌, if◌then◌else◌, length, Bool-cases, ==_iff, inl, inr, arith,
}
use simple_ftp.CString.{Bytes}
use simple_ftp.Utils.{crlf_to_lf_go, crlf_to_lf, lf_to_crlf_go, lf_to_crlf}

-- Every line feed with a carriage return in front of it.
abbrev pub with_crlf : Bytes → Bytes
with_crlf [] = []
with_crlf (c ∷ s) = if c == b'\n' then b'\r' ∷ b'\n' ∷ with_crlf s else c ∷ with_crlf s

-- `some t` if it fits into `room` bytes
abbrev pub fitting : Bytes → ℕ → Option Bytes
fitting t room = if leb (length t) room then some t else none

lf_to_crlf_go_fits : (s : Bytes) (room : ℕ) → lf_to_crlf_go s room ≡ fitting (with_crlf s) room
unfolding lf_to_crlf_go
lf_to_crlf_go_fits [] room = ground arith
lf_to_crlf_go_fits (c ∷ s) zero = ground arith
lf_to_crlf_go_fits (c ∷ s) (suc zero) = ground (arith, lf_to_crlf_go_fits s zero)
lf_to_crlf_go_fits (c ∷ s) (suc (suc room)) =
    ground (arith, lf_to_crlf_go_fits s room, lf_to_crlf_go_fits s (suc room))

-- `lf_to_crlf` gives the input with every line feed expanded, if that fits into the buffer and the
-- buffer has a size at all, and fails otherwise.
pub lf_to_crlf_lem :
    (s : Bytes) (size : ℕ)
    → lf_to_crlf s size ≡ (if size == 0 then none else fitting (with_crlf s) size)
unfolding lf_to_crlf
lf_to_crlf_lem s size = rw (lf_to_crlf_go_fits s size)

-- Expanded text never begins with a line feed, so a byte in front of it stands alone.
crlf_to_lf_go_single :
    (c : ℕ) (s : Bytes) (room : ℕ)
    → crlf_to_lf_go (c ∷ with_crlf s) (suc room)
      ≡ Option.map (◌∷◌ c) (crlf_to_lf_go (with_crlf s) room)
unfolding crlf_to_lf_go
crlf_to_lf_go_single c [] room = refl
crlf_to_lf_go_single c (d ∷ s) room = elim (Bool-cases (d == b'\n')) [
  | inl line ↦ rw line (ground arith)
  | inr other ↦ rw other (ground arith)
]

crlf_to_lf_go_pair :
    (t : Bytes) (room : ℕ)
    → crlf_to_lf_go (b'\r' ∷ b'\n' ∷ t) (suc room) ≡ Option.map (◌∷◌ b'\n') (crlf_to_lf_go t room)
unfolding crlf_to_lf_go
crlf_to_lf_go_pair t room = refl

crlf_to_lf_go_back :
    (s : Bytes) (room : ℕ) → length s ≤ room → crlf_to_lf_go (with_crlf s) room ≡ some s
crlf_to_lf_go_back [] room h = unfold crlf_to_lf_go in refl
crlf_to_lf_go_back (c ∷ s) zero h = absurd (omega arith)
crlf_to_lf_go_back (c ∷ s) (suc room) h = elim (Bool-cases (c == b'\n')) [
  | inl line ↦ rw line (
      crlf_to_lf_go_pair (with_crlf s) room
      ∙ ap (Option.map (◌∷◌ b'\n')) (crlf_to_lf_go_back s room (omega arith))
      ∙ ap (λ x. some (x ∷ s)) (sym ((==_iff c b'\n').0 line)))
  | inr other ↦ rw other (
      crlf_to_lf_go_single c s room
      ∙ ap (Option.map (◌∷◌ c)) (crlf_to_lf_go_back s room (omega arith)))
]

-- What `lf_to_crlf` writes, `crlf_to_lf` reads back unchanged into a buffer that holds the original.
-- This is so for every text: carriage returns of the original, also in front of a line feed, stay.
pub crlf_to_lf-lf_to_crlf :
    (s t : Bytes) (out_size in_size : ℕ)
    → lf_to_crlf s out_size ≡ some t
    → 0 < in_size
    → length s ≤ in_size
    → crlf_to_lf t in_size ≡ some s
unfolding crlf_to_lf
crlf_to_lf-lf_to_crlf s t out_size in_size e pos fits =
    ground (arith, lf_to_crlf_lem s out_size, crlf_to_lf_go_back s in_size fits)

-- `crlf_to_lf` needs no more room than its input has bytes, and its output is no longer than that.
crlf_to_lf_go_total :
    (s : Bytes) (room : ℕ)
    → length s ≤ room
    → (t : Bytes) × (crlf_to_lf_go s room ≡ some t) × (length t ≤ length s)
unfolding crlf_to_lf_go
crlf_to_lf_go_total [] room h = ([], refl, omega arith)
crlf_to_lf_go_total (c ∷ s) zero h = absurd (omega arith)
crlf_to_lf_go_total (c ∷ []) (suc room) h = (c ∷ [], refl, omega arith)
crlf_to_lf_go_total (c ∷ d ∷ s) (suc room) h =
    let (t, e, l) = crlf_to_lf_go_total s room (omega arith) in
    let (u, f, m) = crlf_to_lf_go_total (d ∷ s) room (omega arith) in
    elim (Bool-cases (c == b'\r' && d == b'\n')) [
      | inl pair ↦ (b'\n' ∷ t, rw (pair, e), omega arith)
      | inr single ↦ (c ∷ u, rw (single, f), omega arith)
    ]

-- `crlf_to_lf` never fails on a buffer of at least the input's size (and of a size at all), and then
-- writes no more bytes than it reads.
pub crlf_to_lf_total :
    (s : Bytes) (size : ℕ)
    → 0 < size
    → length s ≤ size
    → (t : Bytes) × (crlf_to_lf s size ≡ some t) × (length t ≤ length s)
unfolding crlf_to_lf
crlf_to_lf_total s size pos h = let (t, e, l) = crlf_to_lf_go_total s size h in (t, ground arith, l)

with_crlf-length-le : (s : Bytes) → length (with_crlf s) ≤ length s + length s
with_crlf-length-le [] = omega arith
with_crlf-length-le (c ∷ s) = ground (arith, with_crlf-length-le s)

-- A buffer of twice the input's size is always enough for `lf_to_crlf`.
pub lf_to_crlf_total :
    (s : Bytes) (size : ℕ)
    → 0 < size
    → length s + length s ≤ size
    → lf_to_crlf s size ≡ some (with_crlf s)
lf_to_crlf_total s size pos h = ground (arith, lf_to_crlf_lem s size, with_crlf-length-le s)
