-- ===== src/CString/Laws.antt =====
-- Laws of the string calls.
use simple_ftp.Base.{ℕ, ◌≡◌, ◌≢◌, All, refl, ◌↔◌, true, [], ◌∷◌, ◌++◌, arith}
use simple_ftp.CString.{Bytes, c_string, str_eq, starts_with, isspace, toupper}

pub str_eq_iff : (a b : Bytes) → (str_eq a b ≡ true) ↔ (a ≡ b)
unfolding str_eq
str_eq_iff (x ∷ a) (y ∷ b) = ground (arith, str_eq_iff a b)
str_eq_iff _ _ = ground arith

pub str_eq_refl : (a : Bytes) → str_eq a a ≡ true
str_eq_refl a = (str_eq_iff a a).1 refl

pub toupper_idem : (c : ℕ) → toupper (toupper c) ≡ toupper c
unfolding toupper
toupper_idem c = ground arith

pub isspace-toupper : (c : ℕ) → isspace (toupper c) ≡ isspace c
unfolding toupper isspace
isspace-toupper c = ground arith

pub starts_with-append : (p s : Bytes) → starts_with p (p ++ s) ≡ true
unfolding starts_with
starts_with-append [] s = refl
starts_with-append (x ∷ p) s = ground (arith, starts_with-append p s)

-- A prefix leaves a rest.
pub starts_with_split : (p s : Bytes) → starts_with p s ≡ true → (rest : Bytes) × (s ≡ p ++ rest)
unfolding starts_with
starts_with_split [] s h = (s, refl)
starts_with_split (x ∷ p) [] h = ground arith
starts_with_split (x ∷ p) (y ∷ s) h =
    let (rest, e) = starts_with_split p s (ground arith) in (rest, ground arith)

pub c_string-eq_self : (s : Bytes) → All (λ c. c ≢ 0) s → c_string s ≡ s
unfolding c_string
c_string-eq_self [] h = refl
c_string-eq_self (c ∷ s) h = ground (arith, c_string-eq_self s h.1, h.0)
