-- ===== src/Transfer/Sending.antt =====
-- The rounds of the sending loop of server/src/transfer.c, and its fuel.

use simple_ftp.Base.{
  ℕ, zero, suc, ◌+◌, ◌-◌, ◌≤◌, ◌≡◌, refl, Bool, true, false, not, Option, none, some, [], ◌∷◌, ◌++◌,
  ltb, if◌then◌else◌, length, Bool-cases, inl, inr, arith,
}
use simple_ftp.CString.{Bytes}
use simple_ftp.Protocol.Types.{TransferType}
use simple_ftp.Session.State.{io_error, conn_error, internal_error, transfer_aborted}
use simple_ftp.Transfer.{
  Channel, Outcome, to_read, encode, stopped, broken, send_chunk, send_round, send_loop,
  transfer_send_file,
}

abbrev Returns : {E : Type 0} → Option (Outcome E) → Type 0
Returns o = (x : Outcome _) × (o ≡ some x)

module _ {E : Type 0} (ch : Channel E) where
  chunk-Returns :
      (next : ℕ → ℕ → Bytes → E → Option (Outcome E)) (type : TransferType) (remaining offset : ℕ)
      (sent chunk : Bytes) (e : E)
      → ((o : ℕ) (s : Bytes) (x : E) → Returns (next (remaining - length chunk) o s x))
      → Returns (send_chunk ch next type remaining offset sent chunk e)
  unfolding send_chunk
  chunk-Returns next type remaining offset sent chunk e returns = of_text (encode type chunk)
    where
      of_sent :
          (text : Bytes) (ok : Bool) (after : E)
          → Returns (
              if not ok
              then broken ch conn_error sent after
              else next (remaining - length chunk) (offset + length chunk) (sent ++ text) after)
      of_sent text true after = returns _ _ after
      of_sent text false after = (_, refl)

      of_text :
          (o : Option Bytes)
          → Returns (elim o [
            | none ↦ stopped ch internal_error sent e
            | some text ↦
                let (ok, after) = ch.send_all text e in
                if not ok
                then broken ch conn_error sent after
                else next (remaining - length chunk) (offset + length chunk) (sent ++ text) after
          ])
      of_text none = (_, refl)
      of_text (some text) = of_sent text (ch.send_all text e).0 (ch.send_all text e).1

  loop-Returns :
      (fuel : ℕ) (type : TransferType) (remaining offset : ℕ) (sent : Bytes) (e : E)
      → remaining ≤ fuel
      → Returns (send_loop ch fuel type remaining offset sent e)
  unfolding send_loop send_round
  loop-Returns fuel type zero offset sent e h = (_, refl)
  loop-Returns zero type (suc remaining) offset sent e h = absurd (omega arith)
  loop-Returns (suc fuel) type (suc remaining) offset sent e h =
      of_abort (ch.should_abort e).0 (ch.should_abort e).1
        (λ c s o x y. loop-Returns fuel type (suc remaining - suc (length s)) o x y (omega arith))
    where
      of_chunk :
          (o : Option Bytes) (e2 : E)
          → ((c : ℕ) (s : Bytes) (at : ℕ) (x : Bytes) (y : E)
              → Returns (send_loop ch fuel type (suc remaining - suc (length s)) at x y))
          → Returns (elim o [
            | none ↦ stopped ch io_error sent e2
            | some [] ↦ stopped ch io_error sent e2
            | some (c ∷ s) ↦
                send_chunk ch (send_loop ch fuel type) type (suc remaining) offset sent (c ∷ s) e2
          ])
      of_chunk none e2 k = (_, refl)
      of_chunk (some []) e2 k = (_, refl)
      of_chunk (some (c ∷ s)) e2 k =
          chunk-Returns (send_loop ch fuel type) type (suc remaining) offset sent (c ∷ s) e2 (k c s)

      of_abort :
          (abort : Bool) (e1 : E)
          → ((c : ℕ) (s : Bytes) (at : ℕ) (x : Bytes) (y : E)
              → Returns (send_loop ch fuel type (suc remaining - suc (length s)) at x y))
          → Returns (
              if abort
              then stopped ch transfer_aborted sent e1
              else (let (chunk, e2) = ch.read_chunk offset (to_read (suc remaining)) e1 in
                  elim chunk [
                    | none ↦ stopped ch io_error sent e2
                    | some [] ↦ stopped ch io_error sent e2
                    | some (c ∷ s) ↦
                        send_chunk ch
                          (send_loop ch fuel type)
                          type
                          (suc remaining)
                          offset
                          sent
                          (c ∷ s)
                          e2
                  ]))
      of_abort true e1 k = (_, refl)
      of_abort false e1 k =
          let answer = ch.read_chunk offset (to_read (suc remaining)) e1 in
          of_chunk answer.0 answer.1 k

-- Sending a file always ends, whatever the file system, the network and the client do: with the size of
-- what is left as its fuel the loop never runs out.
pub transfer_send_file-returns :
    {E : Type 0} (ch : Channel E) (type : TransferType) (size : Option ℕ) (has_memory : Bool)
    (offset : ℕ) (e : E)
    → (x : Outcome E) × (transfer_send_file ch type size has_memory offset e ≡ some x)
unfolding transfer_send_file
transfer_send_file-returns ch type none has_memory offset e = (_, refl)
transfer_send_file-returns ch type (some size) has_memory offset e =
    elim (Bool-cases (ltb size offset)) [
      | inl beyond ↦ rw beyond (_, refl)
      | inr within ↦ rw within (elim (Bool-cases has_memory) [
        | inr full ↦ rw full (_, refl)
        | inl room ↦
            rw room (loop-Returns ch (size - offset) type (size - offset) offset [] e (omega arith))
      ])
    ]
