-- ===== src/Transfer/Reliable.antt =====
-- A transfer of server/src/transfer.c over a channel that works.

use simple_ftp.Base.{
  ℕ, zero, suc, ◌+◌, ◌-◌, ◌≤◌, ◌<◌, ◌≡◌, refl, true, false, Option, some, [], ◌∷◌, ◌++◌, ltb,
  length, drop, arith,
}
use simple_ftp.CString.{Bytes}
use simple_ftp.Protocol.Types.{TransferType}
use simple_ftp.Session.State.{transfer_ok}
use simple_ftp.Transfer.{
  Channel, Outcome, to_read, encode, send_chunk, send_round, send_loop, transfer_send_file,
}
use simple_ftp.Transfer.Sent.{
  Carries, text_of, encode-text_of, to_read-le, Reads, transfer_send_file-sends,
}

-- Nobody aborts, every send succeeds, and a read in front of the end of the file gives some of it.
pub record Works {E : Type 0} (ch : Channel E) (content : Bytes) : Type 0 where
  pub reads : Reads ch content
  pub quiet : (e : E) → (ch.should_abort e).0 ≡ false
  pub sends : (text : Bytes) (e : E) → (ch.send_all text e).0 ≡ true
  pub answers :
      (offset n : ℕ) (e : E)
      → 0 < n
      → offset < length content
      → (c : ℕ) × (s : Bytes) × ((ch.read_chunk offset n e).0 ≡ some (c ∷ s))

module _ {E : Type 0} (ch : Channel E) (content : Bytes) (works : Works ch content) where
  abbrev Succeeds : Option (Outcome E) → Type 0
  Succeeds o = (x : Outcome E) × (o ≡ some x) × (x.status ≡ transfer_ok)

  round-Succeeds :
      (next : ℕ → ℕ → Bytes → E → Option (Outcome E)) (type : TransferType) (remaining offset : ℕ)
      (sent : Bytes) (e : E) (c : ℕ) (s text : Bytes)
      → (ch.read_chunk offset (to_read remaining) (ch.should_abort e).1).0 ≡ some (c ∷ s)
      → encode type (c ∷ s) ≡ some text
      → ((x : E)
          → Succeeds (next (remaining - length (c ∷ s)) (offset + length (c ∷ s)) (sent ++ text) x))
      → Succeeds (send_round ch next type remaining offset sent e)
  unfolding send_round send_chunk
  round-Succeeds next type remaining offset sent e c s text read encoded k =
      rw (works.quiet e, read, send_chunk, encoded, works.sends text _) (k _)

  loop-Succeeds :
      (fuel : ℕ) (type : TransferType) (remaining offset : ℕ) (sent : Bytes) (e : E)
      → remaining ≤ fuel
      → offset + remaining ≡ length content
      → Succeeds (send_loop ch fuel type remaining offset sent e)
  unfolding send_loop
  loop-Succeeds fuel type zero offset sent e h l = (_, refl, refl)
  loop-Succeeds zero type (suc remaining) offset sent e h l = absurd (omega arith)
  loop-Succeeds (suc fuel) type (suc remaining) offset sent e h l =
      let e1 = (ch.should_abort e).1 in
      let n = to_read (suc remaining) in
      let positive : 0 < n = ground arith in
      let (c, s, read) = works.answers offset n e1 positive (omega (arith, l)) in
      let (short, split) = works.reads offset n e1 (c ∷ s) read in
      let (within, fits) = to_read-le (suc remaining) in
      let encoded : encode type (c ∷ s) ≡ some (text_of type (c ∷ s)) =
        encode-text_of type (c ∷ s) (omega (arith, short, fits)) in
      round-Succeeds (send_loop ch fuel type) type (suc remaining) offset sent e c s
        (text_of type (c ∷ s)) read encoded
        (λ x.
          loop-Succeeds fuel type (suc remaining - length (c ∷ s)) (offset + length (c ∷ s))
            (sent ++ text_of type (c ∷ s)) x (omega arith) (omega (arith, l, short, within)))

-- Over a data connection that takes everything, from a file that can be read and does not change, and
-- without an abort, sending from an offset that is not beyond the end of the file succeeds: it ends with
-- `TRANSFER_STATUS_OK` and all of the file from there on has gone over the data connection.
pub transfer_send_file-succeeds :
    {E : Type 0} (ch : Channel E) (taken : E → Bytes) (content : Bytes) (type : TransferType)
    (offset : ℕ) (e : E)
    → Carries ch taken
    → Works ch content
    → offset ≤ length content
    → (x : Outcome E) × (transfer_send_file ch type (some (length content)) true offset e ≡ some x)
      × (x.status ≡ transfer_ok)
      × (taken x.env ≡ taken e ++ text_of type (drop offset content))
unfolding transfer_send_file
transfer_send_file-succeeds ch taken content type offset e carries works h =
    let within : ltb (length content) offset ≡ false = ground (arith, h) in
    let (x, done, ok) =
      loop-Succeeds ch content works (length content - offset) type (length content - offset) offset
        [] e (omega arith) (omega (arith, h)) in
    let result : transfer_send_file ch type (some (length content)) true offset e ≡ some x =
      rw (transfer_send_file, within) done in
    let (over, counted) =
      transfer_send_file-sends ch taken content type true offset e carries works.reads result ok in
    (x, result, ok, over)
