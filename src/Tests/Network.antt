-- ===== src/Tests/Network.antt =====
-- The loops of server/src/network.c at concrete inputs.

use simple_ftp.Base.{ℕ, ◌<◌, ◌≡◌, refl, subst, Bool, true, some, [], ◌∷◌, ◌++◌, take, arith}
use simple_ftp.CString.{Bytes, codes}
use simple_ftp.Network.{
  gives, nothing, failed, Wire, ends_line, store_byte, line_round, receive_go, receive_line,
  net_send_all,
}
use simple_ftp.Network.Lines.{crlf, no_crlf, Streams, receive_line-Streams}
use simple_ftp.Network.SendAll.{Takes, net_send_all-Takes}

-- A wire whose state is what is to come or what it has taken; it takes one byte at a time.
abbrev pub wire : Wire Bytes
wire = record {
  wait_readable = λ e. (gives tt, e);
  receive = λ e. elim e [ [] ↦ (nothing, []) | c ∷ s ↦ (gives c, s) ];
  send = λ text e. (gives 1, e ++ take 1 text);
}

pub wire-Streams : Streams wire (λ e. e)
wire-Streams = record { ready = λ e. refl; still = λ e. refl; first = λ e c s h. rw h (refl, refl) }

receive_line-Streams_example :
    ((receive_line wire 16 (codes "NOOP\r\nQUIT\r\n")).0 ≡ gives (codes "NOOP" ++ crlf))
    × ((receive_line wire 16 (codes "NOOP\r\nQUIT\r\n")).1 ≡ codes "QUIT\r\n")
unfolding no_crlf
receive_line-Streams_example =
    receive_line-Streams wire (λ e. e) 16 (codes "NOOP") (codes "QUIT\r\n")
      (codes "NOOP\r\nQUIT\r\n") wire-Streams refl (omega arith) refl

-- A line that does not fit is refused.
long_line : (receive_line wire 5 (codes "NOOP\r\n")).0 ≡ failed
unfolding receive_line receive_go line_round store_byte ends_line
long_line = refl

wire-Takes : Takes wire (λ e. e)
wire-Takes = record {
  some_bytes = λ c s e n h.
      subst (λ (k : ℕ). (0 < k) × (e ++ (c ∷ []) ≡ e ++ take k (c ∷ s))) (gives_inj h)
        (omega arith, refl);
}
  where
    gives_inj : {m n : ℕ} → gives m ≡ gives n → m ≡ n
    gives_inj h = cc

net_send_all-Takes_example :
    (done : Bool) × ((net_send_all wire (codes "220 OK") []).0 ≡ some done)
    × (done ≡ true → (net_send_all wire (codes "220 OK") []).1 ≡ [] ++ codes "220 OK")
net_send_all-Takes_example = net_send_all-Takes wire (λ e. e) (codes "220 OK") [] wire-Takes
