-- ===== src/Network/SendAll.antt =====
-- `net_send_all` ends, and takes all of the data or fails.

use simple_ftp.Base.{
  ℕ, zero, suc, ◌≤◌, ◌<◌, ◌≡◌, refl, sym, ap, ◌∙◌, Bool, true, false, Option, some, [], ◌∷◌, ◌++◌,
  append-nil, append_assoc, length, take, drop, arith,
}
use simple_ftp.CString.{Bytes}
use simple_ftp.Network.{Answer, gives, nothing, failed, Wire, send_some, send_go, net_send_all}

-- `send` takes a part of what it is given that is not empty, and puts it behind what it has taken.
pub record Takes {E : Type 0} (wire : Wire E) (taken : E → Bytes) : Type 0 where
  pub some_bytes :
      (c : ℕ) (s : Bytes) (e : E) (n : ℕ)
      → (wire.send (c ∷ s) e).0 ≡ gives n
      → (0 < n) × (taken (wire.send (c ∷ s) e).1 ≡ taken e ++ take n (c ∷ s))

take-drop : (n : ℕ) (s : Bytes) → take n s ++ drop n s ≡ s
take-drop zero s = refl
take-drop (suc n) [] = refl
take-drop (suc n) (c ∷ s) = ap (◌∷◌ c) (take-drop n s)

drop-shorter : (n c : ℕ) (s : Bytes) → 0 < n → length (drop n (c ∷ s)) ≤ length s
drop-shorter zero c s h = absurd (omega arith)
drop-shorter (suc n) c s h = drop-le n s
  where
    drop-le : (k : ℕ) (t : Bytes) → length (drop k t) ≤ length t
    drop-le zero t = omega arith
    drop-le (suc k) [] = omega arith
    drop-le (suc k) (d ∷ t) = omega (arith, drop-le k t)

module _ {E : Type 0} (wire : Wire E) (taken : E → Bytes) (takes : Takes wire taken) where
  -- The loop ends, and a success has taken what was left.
  abbrev Sends : Bytes → E → Option Bool × E → Type 0
  Sends rest e result =
      (done : Bool) × (result.0 ≡ some done) × (done ≡ true → taken result.1 ≡ taken e ++ rest)

  go-Sends :
      (fuel : ℕ) (rest : Bytes) (e : E)
      → length rest ≤ fuel
      → Sends rest e (send_go wire fuel rest e)
  unfolding send_go send_some
  go-Sends fuel [] e h = (true, refl, λ done. sym (append-nil (taken e)))
  go-Sends zero (c ∷ s) e h = absurd (omega arith)
  go-Sends (suc fuel) (c ∷ s) e h = of_answer (wire.send (c ∷ s) e).0 refl (λ n x positive.
      go-Sends fuel (drop n (c ∷ s)) x (omega (arith, h, drop-shorter n c s positive)))
    where
      of_answer :
          (a : Answer ℕ)
          → (wire.send (c ∷ s) e).0 ≡ a
          → ((n : ℕ) (x : E)
              → 0 < n
              → Sends (drop n (c ∷ s)) x (send_go wire fuel (drop n (c ∷ s)) x))
          → Sends (c ∷ s) e (send_some wire (send_go wire fuel) (c ∷ s) e)
      of_answer nothing eq k = rw (send_some, eq) (false, refl, λ done. absurd (cc done))
      of_answer failed eq k = rw (send_some, eq) (false, refl, λ done. absurd (cc done))
      of_answer (gives n) eq k =
          let (positive, behind) = takes.some_bytes c s e n eq in
          let (done, ends, all) = k n (wire.send (c ∷ s) e).1 positive in
          rw (send_some, eq)
            (
              done,
              ends,
              λ yes_done.
                  all yes_done
                  ∙ ap (λ t. t ++ drop n (c ∷ s)) behind
                  ∙ append_assoc (taken e) (take n (c ∷ s)) (drop n (c ∷ s))
                  ∙ ap (λ t. taken e ++ t) (take-drop n (c ∷ s)),
            )

-- `net_send_all` always ends, and if it returns 0 then the network has taken exactly the data, in order
-- and behind what it took before, however small the parts that `send` takes.
pub net_send_all-Takes :
    {E : Type 0} (wire : Wire E) (taken : E → Bytes) (text : Bytes) (e : E)
    → Takes wire taken
    → (done : Bool) × ((net_send_all wire text e).0 ≡ some done)
      × (done ≡ true → taken (net_send_all wire text e).1 ≡ taken e ++ text)
unfolding net_send_all
net_send_all-Takes wire taken text e takes =
    go-Sends wire taken takes (length text) text e (omega arith)
