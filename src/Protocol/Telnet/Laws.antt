-- ===== src/Protocol/Telnet/Laws.antt =====
-- What the Telnet filter keeps and what it drops.
use simple_ftp.Base.{
  ℕ, zero, suc, ◌≤◌, ◌<◌, ◌≡◌, refl, ap, ◌∙◌, ◌≢◌, some, [], ◌∷◌, ◌==◌, ==_iff, if◌then◌else◌,
  length, All, Bool-cases, Option-cases, inl, inr, arith,
}
use simple_ftp.CString.Laws.{c_string-eq_self}
use simple_ftp.CString.{Bytes, c_string}
use simple_ftp.Protocol.Telnet.{telnet_round, filter_go, filter_telnet, buffer_size}

-- Telnet's escaping of data: the byte 0xFF is sent twice.
abbrev pub escape : Bytes → Bytes
escape [] = []
escape (c ∷ s) = if c == 0xFF then 0xFF ∷ 0xFF ∷ escape s else c ∷ escape s

filter_go-escaped :
    (s : Bytes) (room : ℕ) → filter_go 0 (suc room) (0xFF ∷ 0xFF ∷ s) ≡ 0xFF ∷ filter_go 0 room s
unfolding filter_go
filter_go-escaped s room = refl

filter_go-plain :
    (c : ℕ) (s : Bytes) (room : ℕ)
    → c ≢ 0xFF
    → c ≢ 0xF4
    → filter_go 0 (suc room) (c ∷ s) ≡ c ∷ filter_go 0 room s
unfolding filter_go
filter_go-plain c [] room h k = ground arith
filter_go-plain c (d ∷ s) room h k = ground arith

pub filter_go-escape :
    (s : Bytes) (room : ℕ)
    → All (λ c. c ≢ 0xF4) s
    → length s ≤ room
    → filter_go 0 room (escape s) ≡ s
filter_go-escape [] room a h = unfold filter_go in refl
filter_go-escape (c ∷ s) zero a h = absurd (omega arith)
filter_go-escape (c ∷ s) (suc room) a h = elim (Bool-cases (c == 0xFF)) [
  | inl iac ↦ rw iac (
      filter_go-escaped (escape s) room
      ∙ ap (◌∷◌ 0xFF) (filter_go-escape s room a.1 (omega arith))
      ∙ ground (arith, (==_iff c 0xFF).0 iac))
  | inr plain ↦ rw plain (
      filter_go-plain c (escape s) room (ground arith) a.0
      ∙ ap (◌∷◌ c) (filter_go-escape s room a.1 (omega arith)))
]

length-le-escape : (s : Bytes) → length s ≤ length (escape s)
length-le-escape [] = omega arith
length-le-escape (c ∷ s) = ground (arith, length-le-escape s)

pub All-escape : (P : ℕ → Type 0) → P 0xFF → (s : Bytes) → All P s → All P (escape s)
All-escape P p [] h = tt
All-escape P p (c ∷ s) h = elim (Bool-cases (c == 0xFF)) [
  | inl iac ↦ rw iac (p, (p, All-escape P p s h.1))
  | inr plain ↦ rw plain (h.0, All-escape P p s h.1)
]

-- A text without the bytes 0 and 0xF4 that was escaped for Telnet comes out unchanged, if the escaped
-- text, as a C string, is shorter than the buffer.
pub filter_telnet-escape :
    (s : Bytes)
    → All (λ c. c ≢ 0xF4) s
    → All (λ c. c ≢ 0) s
    → length (escape s) < buffer_size
    → filter_telnet (c_string (escape s)) ≡ s
unfolding filter_telnet
filter_telnet-escape s a z h =
    ap (filter_go 0 529) (c_string-eq_self (escape s) (All-escape (λ c. c ≢ 0) (λ e. cc) s z))
    ∙ filter_go-escape s 529 a (omega (arith, length-le-escape s))

telnet_round-keeps : (c : ℕ) (s : Bytes) {b : ℕ} → (telnet_round c s).writes ≡ some b → b ≢ 0xF4
unfolding telnet_round
telnet_round-keeps c [] h = ground arith
telnet_round-keeps c (d ∷ s) h = ground arith

-- The filtered text fits into the room, is no longer than the text, and holds no byte 0xF4.
pub filter_go_lem :
    (s : Bytes) (k room : ℕ)
    → (length (filter_go k room s) ≤ room)
      × (length (filter_go k room s) ≤ length s)
      × All (λ c. c ≢ 0xF4) (filter_go k room s)
unfolding filter_go
filter_go_lem [] k room = (omega arith, omega arith, tt)
filter_go_lem (c ∷ s) (suc k) room = let (a, b, d) = filter_go_lem s k room in (a, omega arith, d)
filter_go_lem (c ∷ s) zero zero = (omega arith, omega arith, tt)
filter_go_lem (c ∷ s) zero (suc room) = elim (Option-cases ((telnet_round c s).writes)) [
  | inl e ↦
      let (a, b, d) = filter_go_lem s (telnet_round c s).skips (suc room) in
      rw (e, filter_go) (a, omega arith, d)
  | inr (x, e) ↦
      let (a, b, d) = filter_go_lem s (telnet_round c s).skips room in
      rw (e, filter_go) (omega arith, omega arith, (telnet_round-keeps c s e, d))
]

-- The bound on `write_pos` never cuts anything: every room that the text fits into gives one result.
pub filter_go_room :
    (s : Bytes) (k r q : ℕ) → length s ≤ r → length s ≤ q → filter_go k r s ≡ filter_go k q s
unfolding filter_go
filter_go_room [] k r q h l = refl
filter_go_room (c ∷ s) (suc k) r q h l = filter_go_room s k r q (omega arith) (omega arith)
filter_go_room (c ∷ s) zero zero q h l = absurd (omega arith)
filter_go_room (c ∷ s) zero (suc r) zero h l = absurd (omega arith)
filter_go_room (c ∷ s) zero (suc r) (suc q) h l = elim (Option-cases ((telnet_round c s).writes)) [
  | inl e ↦
      rw (e, filter_go)
        (filter_go_room s (telnet_round c s).skips (suc r) (suc q) (omega arith) (omega arith))
  | inr (x, e) ↦
      rw (e, filter_go)
        (ap (◌∷◌ x) (filter_go_room s (telnet_round c s).skips r q (omega arith) (omega arith)))
]

-- A negotiation (IAC, WILL to DONT, option) loses its first two bytes only: the option byte, unless
-- it is itself special, stays in the text. The branch for three bytes is behind `next >= 0xF0`.
pub negotiation_keeps_option :
    (verb option : ℕ) (s : Bytes) (room : ℕ)
    → 0xFB ≤ verb
    → verb ≤ 0xFE
    → option ≢ 0xFF
    → option ≢ 0xF4
    → filter_go 0 (suc room) (0xFF ∷ verb ∷ option ∷ s) ≡ option ∷ filter_go 0 room s
unfolding filter_go
negotiation_keeps_option verb option s room h l a b =
    two_bytes (option ∷ s) room ∙ filter_go-plain option s room a b
  where
    two_bytes : (t : Bytes) (r : ℕ) → filter_go 0 (suc r) (0xFF ∷ verb ∷ t) ≡ filter_go 0 (suc r) t
    two_bytes t r = ground arith

-- An unknown sequence (IAC and a byte below 0xF0) loses one byte more than the two of the sequence.
pub unknown_loses_byte :
    (next lost : ℕ) (s : Bytes) (room : ℕ)
    → next < 0xF0
    → filter_go 0 (suc room) (0xFF ∷ next ∷ lost ∷ s) ≡ filter_go 0 (suc room) s
unfolding filter_go
unknown_loses_byte next lost s room h = ground arith
