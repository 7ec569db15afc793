-- ===== src/Network/Lines.antt =====
-- `net_receive_line` on the stream of bytes that the client sends.

use simple_ftp.Base.{
  ℕ, zero, suc, ◌+◌, ◌-◌, ◌≤◌, ◌<◌, ◌≡◌, refl, sym, ap, subst, ◌∙◌, Bool, true, false, not, ◌&&◌,
  [], ◌∷◌, ◌++◌, reverse, reverse_cons-append, append-nil, ltb, ◌==◌, length, &&-true, arith,
}
use simple_ftp.CString.{Bytes}
use simple_ftp.Network.{
  Answer, gives, Wire, ends_line, store_byte, line_round, receive_go, receive_line,
}

-- There is no CR LF within a text.
unfoldable pub no_crlf : Bytes → Bool
no_crlf [] = true
no_crlf (c ∷ []) = true
no_crlf (c ∷ d ∷ s) = not (c == b'\r' && d == b'\n') && no_crlf (d ∷ s)

-- What is to come on a connection that stays up: the bytes come one by one, and in time.
pub record Streams {E : Type 0} (wire : Wire E) (coming : E → Bytes) : Type 0 where
  pub ready : (e : E) → (wire.wait_readable e).0 ≡ gives tt
  pub still : (e : E) → coming (wire.wait_readable e).1 ≡ coming e
  pub first :
      (e : E) (c : ℕ) (s : Bytes)
      → coming e ≡ c ∷ s
      → ((wire.receive e).0 ≡ gives c) × (coming (wire.receive e).1 ≡ s)

-- The two bytes that end a line.
abbrev pub crlf : Bytes
crlf = b'\r' ∷ b'\n' ∷ []

-- The byte that was read last, in front of what is to come.
abbrev behind : Bytes → Bytes → Bytes
behind [] s = s
behind (c ∷ buffer) s = c ∷ s

next-clean :
    (buffer : Bytes) (c : ℕ) (s : Bytes)
    → no_crlf (behind buffer (c ∷ s)) ≡ true
    → (ends_line (c ∷ buffer) ≡ false) × (no_crlf (c ∷ s) ≡ true)
unfolding no_crlf ends_line
next-clean [] c s h = (refl, h)
next-clean (b ∷ buffer) c s h =
    let (apart, rest) = &&-true (not (b == b'\r' && c == b'\n')) (no_crlf (c ∷ s)) h in
    (ground (arith, apart), rest)

return_goes_on : (buffer : Bytes) → ends_line (b'\r' ∷ buffer) ≡ false
unfolding ends_line
return_goes_on [] = refl
return_goes_on (b ∷ buffer) = ground arith

clean_end : (buffer : Bytes) → no_crlf (behind buffer []) ≡ true
unfolding no_crlf
clean_end [] = refl
clean_end (b ∷ buffer) = refl

module _ {E : Type 0} (wire : Wire E) (coming : E → Bytes) (streams : Streams wire coming) where
  abbrev Reads : Answer Bytes × E → Bytes → Bytes → Type 0
  Reads result line rest = (result.0 ≡ gives line) × (coming result.1 ≡ rest)

  round-Reads :
      (next : Bytes → E → Answer Bytes × E) (buffer : Bytes) (e : E) (c : ℕ) (s line rest : Bytes)
      → coming e ≡ c ∷ s
      → ((x : E) → coming x ≡ s → Reads (store_byte wire next (c ∷ buffer) x) line rest)
      → Reads (line_round wire next buffer e) line rest
  unfolding line_round
  round-Reads next buffer e c s line rest h k =
      let e1 = (wire.wait_readable e).1 in
      let (byte, after) = streams.first e1 c s (streams.still e ∙ h) in
      rw (line_round, streams.ready e, byte) (k (wire.receive e1).1 after)

  goes_on-Reads :
      (room : ℕ) (buffer : Bytes) (e : E) (c : ℕ) (s line rest : Bytes)
      → coming e ≡ c ∷ s
      → ends_line (c ∷ buffer) ≡ false
      → ((x : E) → coming x ≡ s → Reads (receive_go wire room (c ∷ buffer) x) line rest)
      → Reads (receive_go wire (suc room) buffer e) line rest
  unfolding receive_go store_byte
  goes_on-Reads room buffer e c s line rest h open_line k =
      round-Reads (receive_go wire room) buffer e c s line rest h (λ x l. rw open_line (k x l))

  end-Reads :
      (room : ℕ) (buffer : Bytes) (e : E) (rest : Bytes)
      → coming e ≡ b'\n' ∷ rest
      → Reads (receive_go wire (suc room) (b'\r' ∷ buffer) e) (reverse buffer ++ crlf) rest
  unfolding receive_go store_byte ends_line
  end-Reads room buffer e rest h =
      round-Reads (receive_go wire room) (b'\r' ∷ buffer) e b'\n' rest (reverse buffer ++ crlf) rest
        h (λ x l. (ap gives turned, l))
    where
      turned : reverse (b'\n' ∷ b'\r' ∷ buffer) ≡ reverse buffer ++ crlf
      turned =
          sym (append-nil (reverse (b'\n' ∷ b'\r' ∷ buffer)))
          ∙ reverse_cons-append b'\n' (b'\r' ∷ buffer) []
          ∙ reverse_cons-append b'\r' buffer (b'\n' ∷ [])

  go-Reads :
      (room : ℕ) (s buffer rest : Bytes) (e : E)
      → no_crlf (behind buffer s) ≡ true
      → length s + 2 ≤ room
      → coming e ≡ s ++ (crlf ++ rest)
      → Reads (receive_go wire room buffer e) (reverse buffer ++ (s ++ crlf)) rest
  go-Reads zero s buffer rest e clean fits h = absurd (omega arith)
  go-Reads (suc zero) s buffer rest e clean fits h = absurd (omega arith)
  go-Reads (suc (suc room)) [] buffer rest e clean fits h =
      goes_on-Reads (suc room) buffer e b'\r' (b'\n' ∷ rest) (reverse buffer ++ crlf) rest h
        (return_goes_on buffer) (λ x l. end-Reads room buffer x rest l)
  go-Reads (suc (suc room)) (c ∷ s) buffer rest e clean fits h =
      let (open_line, later) = next-clean buffer c s clean in
      goes_on-Reads (suc room) buffer e c (s ++ (crlf ++ rest))
        (reverse buffer ++ (c ∷ (s ++ crlf))) rest h open_line
        (λ x l.
          subst (λ line. Reads (receive_go wire (suc room) (c ∷ buffer) x) line rest)
            (reverse_cons-append c buffer (s ++ crlf))
            (go-Reads (suc room) s (c ∷ buffer) rest x later (omega arith) l))

-- On a connection that stays up and delivers in time, if a text without CR LF in it, then CR LF, then
-- anything comes, `net_receive_line` returns the text with its CR LF and leaves the rest for the next
-- call, provided that the line and its terminator fit into the buffer.
pub receive_line-Streams :
    {E : Type 0} (wire : Wire E) (coming : E → Bytes) (size : ℕ) (s rest : Bytes) (e : E)
    → Streams wire coming
    → no_crlf s ≡ true
    → length s + 2 < size
    → coming e ≡ s ++ (crlf ++ rest)
    → ((receive_line wire size e).0 ≡ gives (s ++ crlf))
      × (coming (receive_line wire size e).1 ≡ rest)
unfolding receive_line
receive_line-Streams wire coming size s rest e streams clean fits h =
    let room : ltb size 3 ≡ false = ground (arith, fits) in
    rw (receive_line, room)
      (go-Reads wire coming streams (size - 1) s [] rest e clean (omega arith) h)
