-- ===== src/Tests/Transfers.antt =====
-- Transfers of server/src/transfer.c at concrete inputs.

use simple_ftp.Base.{
  ℕ, zero, suc, ◌≤◌, ◌<◌, ◌≡◌, refl, subst, some_inj, true, false, Option, some, List, [], ◌∷◌,
  ◌++◌, length, drop, arith,
}
use simple_ftp.CString.{Bytes, codes}
use simple_ftp.Utils.{lf_to_crlf, crlf_to_lf}
use simple_ftp.Protocol.Types.{ascii, binary}
use simple_ftp.Session.State.{transfer_ok}
use simple_ftp.Transfer.{
  Channel, Outcome, transfer_send_file, send_loop, send_round, send_chunk, encode, receive_loop,
  receive_round, receive_chunk, decode,
}
use simple_ftp.Transfer.Sending.{transfer_send_file-returns}
use simple_ftp.Transfer.Sent.{Carries, text_of, transfer_send_file-sends}
use simple_ftp.Transfer.Reliable.{Works, transfer_send_file-succeeds}

abbrev content : Bytes
content = codes "a\nb"

-- At most one byte of the file for each read.
abbrev chunk_at : ℕ → Bytes → Option Bytes
chunk_at n [] = some []
chunk_at zero (c ∷ s) = some []
chunk_at (suc n) (c ∷ s) = some (c ∷ [])

abbrev one_by_one : Channel (List Bytes)
one_by_one = record {
  should_abort = λ e. (false, e);
  read_chunk = λ offset n e. (chunk_at n (drop offset content), e);
  send_all = λ text e. (true, e);
  receive = λ n e. elim e [ [] ↦ (some [], []) | c ∷ cs ↦ (some c, cs) ];
  write_chunk = λ text offset e. (true, e);
}

-- The same file, with what has been sent.
abbrev carrier : Channel Bytes
carrier = record {
  should_abort = λ e. (false, e);
  read_chunk = λ offset n e. (chunk_at n (drop offset content), e);
  send_all = λ text e. (true, e ++ text);
  receive = λ n e. (some [], e);
  write_chunk = λ text offset e. (true, e);
}

carrier-Carries : Carries carrier (λ e. e)
carrier-Carries = record { sent = λ text e h. refl; asked = λ e. refl; read = λ offset n e. refl }

chunk-reads :
    (n : ℕ) (s b : Bytes) → chunk_at n s ≡ some b → (length b ≤ n) × (s ≡ b ++ drop (length b) s)
chunk-reads n [] b e =
    subst (λ (x : Bytes). (length x ≤ n) × ([] ≡ x ++ drop (length x) [])) (some_inj e)
      (omega arith, refl)
chunk-reads zero (c ∷ s) b e =
    subst (λ (x : Bytes). (length x ≤ 0) × ((c ∷ s) ≡ x ++ drop (length x) (c ∷ s))) (some_inj e)
      (omega arith, refl)
chunk-reads (suc n) (c ∷ s) b e =
    subst (λ (x : Bytes). (length x ≤ suc n) × ((c ∷ s) ≡ x ++ drop (length x) (c ∷ s)))
      (some_inj e) (omega arith, refl)

chunk-answers :
    (offset n : ℕ) (s : Bytes)
    → 0 < n
    → offset < length s
    → (c : ℕ) × (t : Bytes) × (chunk_at n (drop offset s) ≡ some (c ∷ t))
chunk-answers offset n [] p h = absurd (omega arith)
chunk-answers (suc offset) n (c ∷ s) p h = chunk-answers offset n s p (omega arith)
chunk-answers zero zero (c ∷ s) p h = absurd (omega arith)
chunk-answers zero (suc n) (c ∷ s) p h = (c, [], refl)

carrier-Works : Works carrier content
carrier-Works = record {
  reads = λ offset n e b r. chunk-reads n (drop offset content) b r;
  quiet = λ e. refl;
  sends = λ text e. refl;
  answers = λ offset n e p h. chunk-answers offset n content p h;
}

abbrev sent : Outcome Bytes
sent = record { status = transfer_ok; bytes = codes "a\r\nb"; count = 4; env = codes "a\r\nb" }

transfer_send_file-returns_example :
    (x : Outcome Bytes) × (transfer_send_file carrier ascii (some 3) true 0 [] ≡ some x)
transfer_send_file-returns_example = transfer_send_file-returns carrier ascii (some 3) true 0 []

transfer_send_file-sends_example :
    (codes "a\r\nb" ≡ [] ++ text_of ascii (drop 0 content))
    × (codes "a\r\nb" ≡ text_of ascii (drop 0 content))
unfolding transfer_send_file send_loop send_round send_chunk encode lf_to_crlf
transfer_send_file-sends_example =
    transfer_send_file-sends carrier (λ e. e) content ascii true 0 [] {x = sent} carrier-Carries
      carrier-Works.reads refl refl

transfer_send_file-succeeds_example :
    (x : Outcome Bytes) × (transfer_send_file carrier binary (some 3) true 1 (codes ">") ≡ some x)
    × (x.status ≡ transfer_ok)
    × (x.env ≡ codes ">" ++ text_of binary (drop 1 content))
transfer_send_file-succeeds_example =
    transfer_send_file-succeeds carrier (λ e. e) content binary 1 (codes ">") carrier-Carries
      carrier-Works (omega arith)

-- A line end that two receptions split comes into the file as CR LF, one that a reception holds as LF.
split_line_end :
    receive_loop one_by_one 3 ascii 0 [] 0 (codes "a\r" ∷ codes "\nb" ∷ [])
    ≡ some (record { status = transfer_ok; bytes = codes "a\r\nb"; count = 4; env = [] })
unfolding receive_loop receive_round receive_chunk decode crlf_to_lf
split_line_end = refl

whole_line_end :
    receive_loop one_by_one 3 ascii 0 [] 0 (codes "a\r\nb" ∷ [])
    ≡ some (record { status = transfer_ok; bytes = codes "a\nb"; count = 4; env = [] })
unfolding receive_loop receive_round receive_chunk decode crlf_to_lf
whole_line_end = refl
