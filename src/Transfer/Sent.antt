-- ===== src/Transfer/Sent.antt =====
-- What a transfer of server/src/transfer.c has sent when it succeeds.

use simple_ftp.Base.{
  ℕ, zero, suc, ◌+◌, ◌-◌, ◌*◌, ◌≤◌, ◌≡◌, refl, sym, ap, ◌∙◌, Bool, true, false, Option, none, some,
  some_inj, [], ◌∷◌, ◌++◌, append_assoc, append-nil, ltb, if◌then◌else◌, length, length-append,
  drop, Bool-cases, Option-cases, inl, inr, arith,
}
use simple_ftp.CString.{Bytes}
use simple_ftp.Utils.Lines.{with_crlf, lf_to_crlf_total}
use simple_ftp.Protocol.Types.{TransferType, ascii, binary, ebcdic}
use simple_ftp.Session.State.{transfer_ok, io_error, conn_error, transfer_aborted}
use simple_ftp.Transfer.{
  Channel, Outcome, transfer_buffer_size, to_read, encode, stopped, broken, send_chunk, send_round,
  send_loop, transfer_send_file,
}

-- What goes over the network for a file: in ASCII, each line feed becomes CR LF.
abbrev pub text_of : TransferType → Bytes → Bytes
text_of ascii s = with_crlf s
text_of binary s = s
text_of ebcdic s = s

with_crlf-append : (s t : Bytes) → with_crlf (s ++ t) ≡ with_crlf s ++ with_crlf t
with_crlf-append [] t = refl
with_crlf-append (c ∷ s) t = ground (arith, with_crlf-append s t)

pub text_of-append :
    (type : TransferType) (s t : Bytes) → text_of type (s ++ t) ≡ text_of type s ++ text_of type t
text_of-append ascii s t = with_crlf-append s t
text_of-append binary s t = refl
text_of-append ebcdic s t = refl

pub encode-text_of :
    (type : TransferType) (s : Bytes)
    → length s ≤ transfer_buffer_size
    → encode type s ≡ some (text_of type s)
unfolding encode
encode-text_of ascii s h = lf_to_crlf_total s (transfer_buffer_size * 2) (omega arith) (omega arith)
encode-text_of binary s h = refl
encode-text_of ebcdic s h = refl

pub to_read-le : (n : ℕ) → (to_read n ≤ n) × (to_read n ≤ transfer_buffer_size)
to_read-le n = (ground arith, ground arith)

pub drop-add : (m n : ℕ) (s : Bytes) → drop (m + n) s ≡ drop n (drop m s)
drop-add zero n s = ap (λ k. drop k s) zero_add
  where
    zero_add : 0 + n ≡ n
    zero_add = omega arith
drop-add (suc m) n s = ap (λ k. drop k s) suc_add ∙ of_text s (λ t. drop-add m n t)
  where
    suc_add : suc m + n ≡ suc (m + n)
    suc_add = omega arith

    of_empty : (k : ℕ) → ◌≡◌ {A = Bytes} [] (drop k [])
    of_empty zero = refl
    of_empty (suc k) = refl

    of_text :
        (t : Bytes)
        → ((u : Bytes) → drop (m + n) u ≡ drop n (drop m u))
        → drop (suc (m + n)) t ≡ drop n (drop (suc m) t)
    of_text [] k = of_empty n
    of_text (c ∷ t) k = k t

pub length-drop : (n : ℕ) (s : Bytes) → length (drop n s) ≡ length s - n
length-drop zero s = omega arith
length-drop (suc n) [] = omega arith
length-drop (suc n) (c ∷ s) = omega (arith, length-drop n s)

-- What the data connection has taken: when `net_send_all` succeeds, all of its bytes behind the earlier
-- ones; the other calls of the loop send nothing.
pub record Carries {E : Type 0} (ch : Channel E) (taken : E → Bytes) : Type 0 where
  pub sent :
      (text : Bytes) (e : E)
      → (ch.send_all text e).0 ≡ true
      → taken (ch.send_all text e).1 ≡ taken e ++ text
  pub asked : (e : E) → taken (ch.should_abort e).1 ≡ taken e
  pub read : (offset n : ℕ) (e : E) → taken (ch.read_chunk offset n e).1 ≡ taken e

-- A round that ends in a success has read a chunk, sent it encoded, and gone on.
record Went {E : Type 0} (ch : Channel E) (taken : E → Bytes)
    (next : ℕ → ℕ → Bytes → E → Option (Outcome E)) (type : TransferType) (remaining offset : ℕ)
    (sent : Bytes) (e : E) (x : Outcome E) : Type 0 where
  before : E
  chunk : Bytes
  text : Bytes
  after : E
  was_read : (ch.read_chunk offset (to_read remaining) before).0 ≡ some chunk
  was_encoded : encode type chunk ≡ some text
  arrived : taken after ≡ taken e ++ text
  goes_on : next (remaining - length chunk) (offset + length chunk) (sent ++ text) after ≡ some x

module _ {E : Type 0} (ch : Channel E) (taken : E → Bytes) (carries : Carries ch taken)
    (next : ℕ → ℕ → Bytes → E → Option (Outcome E)) (type : TransferType) (remaining offset : ℕ)
    (sent : Bytes) {x : Outcome E} (success : x.status ≡ transfer_ok) where
  broken-fails : (e : E) → broken ch conn_error sent e ≡ some x → ⊥
  broken-fails e h = of_abort (ch.should_abort e).0 (ap (λ (y : Outcome E). y.status) (some_inj h))
    where
      of_abort : (b : Bool) → (if b then transfer_aborted else conn_error) ≡ x.status → ⊥
      of_abort true k = cc
      of_abort false k = cc

  chunk-Went :
      (chunk : Bytes) (start before e : E)
      → taken e ≡ taken start
      → (ch.read_chunk offset (to_read remaining) before).0 ≡ some chunk
      → send_chunk ch next type remaining offset sent chunk e ≡ some x
      → Went ch taken next type remaining offset sent start x
  unfolding send_chunk
  chunk-Went chunk start before e kept was_read h = elim (Option-cases (encode type chunk)) [
    | inl failed ↦
        absurd
          (cc (ap (λ (y : Outcome E). y.status) (some_inj (rw (send_chunk, failed) at h)), success))
    | inr (text, encoded) ↦ elim (Bool-cases (ch.send_all text e).0) [
      | inr lost ↦
          absurd (broken-fails (ch.send_all text e).1 (rw (send_chunk, encoded, lost) at h))
      | inl done ↦ record {
        before = before;
        chunk = chunk;
        text = text;
        after = (ch.send_all text e).1;
        was_read = was_read;
        was_encoded = encoded;
        arrived = carries.sent text e done ∙ ap (λ t. t ++ text) kept;
        goes_on = rw (send_chunk, encoded, done) at h;
      }
    ]
  ]

  round-Went :
      (e : E)
      → send_round ch next type remaining offset sent e ≡ some x
      → Went ch taken next type remaining offset sent e x
  unfolding send_round
  round-Went e h = elim (Bool-cases (ch.should_abort e).0) [
    | inl stop ↦
        absurd
          (cc (ap (λ (y : Outcome E). y.status) (some_inj (rw (send_round, stop) at h)), success))
    | inr go ↦
        of_chunk (ch.read_chunk offset (to_read remaining) (ch.should_abort e).1).0 refl
          (rw (send_round, go) at h)
  ]
    where
      of_chunk :
          (o : Option Bytes)
          → (ch.read_chunk offset (to_read remaining) (ch.should_abort e).1).0 ≡ o
          → (let e2 = (ch.read_chunk offset (to_read remaining) (ch.should_abort e).1).1 in
              elim o as (λ p. Option (Outcome E)) [
                | none ↦ stopped ch io_error sent e2
                | some [] ↦ stopped ch io_error sent e2
                | some (c ∷ s) ↦ send_chunk ch next type remaining offset sent (c ∷ s) e2
              ])
            ≡ some x
          → Went ch taken next type remaining offset sent e x
      of_chunk none r k = absurd (cc (ap (λ (y : Outcome E). y.status) (some_inj k), success))
      of_chunk (some []) r k = absurd (cc (ap (λ (y : Outcome E). y.status) (some_inj k), success))
      of_chunk (some (c ∷ s)) r k =
          chunk-Went (c ∷ s) e (ch.should_abort e).1 _
            (carries.read offset (to_read remaining) (ch.should_abort e).1 ∙ carries.asked e) r k

-- `fs_read_file_chunk` on a file with this content: no more than asked for, and what the file has there.
abbrev pub Reads : {E : Type 0} → Channel E → Bytes → Type 0
Reads ch content =
    (offset n : ℕ) (e : _) (b : Bytes)
    → (ch.read_chunk offset n e).0 ≡ some b
    → (length b ≤ n) × (drop offset content ≡ b ++ drop (length b) (drop offset content))

module _ {E : Type 0} (ch : Channel E) (taken : E → Bytes) (carries : Carries ch taken)
    (content : Bytes) (reads : Reads ch content) where
  loop-sends :
      (fuel : ℕ) (type : TransferType) (remaining offset : ℕ) (sent : Bytes) (e : E) {x : Outcome E}
      → length (drop offset content) ≡ remaining
      → send_loop ch fuel type remaining offset sent e ≡ some x
      → x.status ≡ transfer_ok
      → (taken x.env ≡ taken e ++ text_of type (drop offset content))
        × (x.bytes ≡ sent ++ text_of type (drop offset content))
  unfolding send_loop
  loop-sends fuel type zero offset sent e {x} l h ok = (
    sym (ap (λ (y : Outcome E). taken y.env) (some_inj h))
        ∙ of_rest (taken e) type (drop offset content) l,
    sym (ap (λ (y : Outcome E). y.bytes) (some_inj h)) ∙ of_rest sent type (drop offset content) l,
  )
    where
      of_rest :
          (b : Bytes) (t : TransferType) (rest : Bytes) → length rest ≡ 0 → b ≡ b ++ text_of t rest
      of_rest b ascii [] k = sym (append-nil b)
      of_rest b binary [] k = sym (append-nil b)
      of_rest b ebcdic [] k = sym (append-nil b)
      of_rest b t (c ∷ s) k = absurd (omega arith)
  loop-sends zero type (suc remaining) offset sent e {x} l h ok = absurd (cc h)
  loop-sends (suc fuel) type (suc remaining) offset sent e {x} l h ok =
      let w =
        round-Went ch taken carries (send_loop ch fuel type) type (suc remaining) offset sent ok e
          h in
      let (short, split) = reads offset (to_read (suc remaining)) w.before w.chunk w.was_read in
      let (within, fits) = to_read-le (suc remaining) in
      let rest = drop (length w.chunk) (drop offset content) in
      let same_rest : drop (offset + length w.chunk) content ≡ rest =
        drop-add offset (length w.chunk) content in
      let text : w.text ≡ text_of type w.chunk =
        some_inj (sym w.was_encoded ∙ encode-text_of type w.chunk (omega arith)) in
      let measured : length (drop (offset + length w.chunk) content)
          ≡ suc remaining - length w.chunk =
        omega (arith, ap length same_rest, ap length split, length-append w.chunk rest, l) in
      let joined : (b : Bytes)
          → (b ++ w.text) ++ text_of type (drop (offset + length w.chunk) content)
            ≡ b ++ text_of type (drop offset content) =
        λ b.
          append_assoc b w.text _
          ∙ ap (λ t. b ++ t)
              (ap (λ t. t ++ text_of type (drop (offset + length w.chunk) content)) text
                ∙ ap (λ t. text_of type w.chunk ++ text_of type t) same_rest
                ∙ sym (text_of-append type w.chunk rest)
                ∙ ap (text_of type) (sym split)) in
      let (over, counted) =
        loop-sends fuel type (suc remaining - length w.chunk) (offset + length w.chunk)
          (sent ++ w.text) w.after measured w.goes_on ok in
      (
        over
            ∙ ap (λ t. t ++ text_of type (drop (offset + length w.chunk) content)) w.arrived
            ∙ joined (taken e),
        counted ∙ joined sent,
      )

-- If sending a file ends with `TRANSFER_STATUS_OK`, for a file whose content does not change meanwhile,
-- then exactly the file from the offset on has gone over the data connection behind what it had taken
-- before, in order and without loss across the chunks: as it is in binary, and with CR LF for each
-- line feed in ASCII; and the bytes that the loop counts are these.
pub transfer_send_file-sends :
    {E : Type 0} (ch : Channel E) (taken : E → Bytes) (content : Bytes) (type : TransferType)
    (has_memory : Bool) (offset : ℕ) (e : E) {x : Outcome E}
    → Carries ch taken
    → Reads ch content
    → transfer_send_file ch type (some (length content)) has_memory offset e ≡ some x
    → x.status ≡ transfer_ok
    → (taken x.env ≡ taken e ++ text_of type (drop offset content))
      × (x.bytes ≡ text_of type (drop offset content))
unfolding transfer_send_file
transfer_send_file-sends ch taken content type has_memory offset e {x} carries reads h ok =
    elim (Bool-cases (ltb (length content) offset)) [
      | inl beyond ↦ absurd (
          cc (
            ap (λ (y : Outcome _). y.status) (some_inj (rw (transfer_send_file, beyond) at h)),
            ok,
          ))
      | inr within ↦ elim (Bool-cases has_memory) [
        | inr full ↦ absurd (
            cc (
              ap (λ (y : Outcome _). y.status)
                  (some_inj (rw (transfer_send_file, within, full) at h)),
              ok,
            ))
        | inl room ↦
            loop-sends ch taken carries content reads (length content - offset) type
              (length content - offset) offset [] e (length-drop offset content)
              (rw (transfer_send_file, within, room) at h) ok
      ]
    ]
