-- ===== src/CString/Tokens.antt =====
-- `strtok_r` with the single separator '/', called until it returns NULL.
use simple_ftp.Base.{
  ℕ, suc, ◌+◌, ◌≤◌, ◌≡◌, refl, ap, ◌∙◌, ◌≢◌, List, [], ◌∷◌, ◌++◌, append-nil, append_assoc, reverse,
  reverse-cons, ◌==◌, ==_iff, if◌then◌else◌, length, length-append, All, All-append, Bool-cases,
  inl, inr, arith,
}
use simple_ftp.CString.{Bytes}

-- The token `cur`, if there is one, in front of others.
abbrev pub emit : Bytes → List Bytes → List Bytes
emit [] ts = ts
emit (c ∷ cur) ts = (c ∷ cur) ∷ ts

-- The bytes of the current token are `cur`; separators in a row make no token.
unfoldable pub tokens_go : Bytes → Bytes → List Bytes
tokens_go cur [] = emit cur []
tokens_go cur (c ∷ s) =
    let next = emit cur (tokens_go [] s) in
    let more = tokens_go (cur ++ c ∷ []) s in if c == b'/' then next else more

unfoldable pub tokens : Bytes → List Bytes
unfolding tokens_go
tokens s = tokens_go [] s

abbrev pub NoSlash : Bytes → Type 0
NoSlash s = All (λ c. c ≢ b'/') s

-- A name between separators: not empty, and with no separator in it.
abbrev pub IsToken : Bytes → Type 0
IsToken t = (t ≢ []) × NoSlash t

emit-IsToken :
    (cur : Bytes) (ts : List Bytes) → NoSlash cur → All IsToken ts → All IsToken (emit cur ts)
emit-IsToken [] ts h k = k
emit-IsToken (c ∷ cur) ts h k = (((λ e. cc), h), k)

tokens_go-IsToken : (s cur : Bytes) → NoSlash cur → All IsToken (tokens_go cur s)
unfolding tokens_go
tokens_go-IsToken [] cur h = emit-IsToken cur [] h tt
tokens_go-IsToken (c ∷ s) cur h = elim (Bool-cases (c == b'/')) [
  | inl slash ↦ rw slash (emit-IsToken cur (tokens_go [] s) h (tokens_go-IsToken s [] tt))
  | inr other ↦ rw other (
      tokens_go-IsToken s (cur ++ c ∷ [])
        (All-append (λ x. x ≢ b'/') cur (c ∷ []) h ((ground arith), tt)))
]

pub tokens-IsToken : (s : Bytes) → All IsToken (tokens s)
unfolding tokens
tokens-IsToken s = tokens_go-IsToken s [] tt

-- The room that names take with a separator in front of each.
abbrev pub weight : List Bytes → ℕ
weight [] = 0
weight (t ∷ ts) = suc (length t + weight ts)

weight-emit : (cur : Bytes) (ts : List Bytes) → weight (emit cur ts) ≤ suc (length cur + weight ts)
weight-emit [] ts = omega arith
weight-emit (c ∷ cur) ts = omega arith

tokens_go-weight : (s cur : Bytes) → weight (tokens_go cur s) ≤ suc (length cur + length s)
unfolding tokens_go
tokens_go-weight [] cur = omega (arith, weight-emit cur [])
tokens_go-weight (c ∷ s) cur = ground (
  arith,
  weight-emit cur (tokens_go [] s),
  tokens_go-weight s [],
  tokens_go-weight s (cur ++ c ∷ []),
  length-append cur (c ∷ []),
)

pub tokens-weight : (s : Bytes) → weight (tokens (b'/' ∷ s)) ≤ suc (length s)
unfolding tokens
tokens-weight s = omega (arith, tokens_go-weight s [])

-- "/a/b" for the names a and b.
abbrev pub joined : List Bytes → Bytes
joined [] = []
joined (t ∷ ts) = b'/' ∷ (t ++ joined ts)

pub length-joined : (ts : List Bytes) → length (joined ts) ≡ weight ts
length-joined [] = refl
length-joined (t ∷ ts) = omega (arith, length-append t (joined ts), length-joined ts)

tokens_go-name :
    (t cur rest : Bytes) → NoSlash t → tokens_go cur (t ++ rest) ≡ tokens_go (cur ++ t) rest
unfolding tokens_go
tokens_go-name [] cur rest h = rw append-nil
tokens_go-name (c ∷ t) cur rest h = elim (Bool-cases (c == b'/')) [
  | inl slash ↦ absurd (h.0 ((==_iff c b'/').0 slash))
  | inr other ↦ rw other (tokens_go-name t (cur ++ c ∷ []) rest h.1 ∙ rw append_assoc)
]

tokens_go-joined :
    (ts : List Bytes) (cur : Bytes) → All IsToken ts → tokens_go cur (joined ts) ≡ emit cur ts
unfolding tokens_go
tokens_go-joined [] cur h = refl
tokens_go-joined (t ∷ ts) cur h =
    ap (emit cur)
      (tokens_go-name t [] (joined ts) h.0.1 ∙ tokens_go-joined ts t h.1 ∙ emit-cons t ts h.0.0)
  where
    emit-cons : (x : Bytes) (xs : List Bytes) → x ≢ [] → emit x xs ≡ x ∷ xs
    emit-cons [] xs k = absurd (k refl)
    emit-cons (c ∷ x) xs k = refl

-- Names that are joined by separators are taken apart again.
pub tokens-joined : (ts : List Bytes) → All IsToken ts → tokens (joined ts) ≡ ts
unfolding tokens
tokens-joined ts h = tokens_go-joined ts [] h

-- The tokens of two texts with a separator between them.
tokens_go-append :
    (s cur rest : Bytes) → tokens_go cur (s ++ b'/' ∷ rest) ≡ tokens_go cur s ++ tokens_go [] rest
unfolding tokens_go
tokens_go-append [] [] rest = refl
tokens_go-append [] (c ∷ cur) rest = refl
tokens_go-append (c ∷ s) cur rest = elim (Bool-cases (c == b'/')) [
  | inl slash ↦ rw slash (
      ap (emit cur) (tokens_go-append s [] rest)
      ∙ emit-append cur (tokens_go [] s) (tokens_go [] rest))
  | inr other ↦ rw other (tokens_go-append s (cur ++ c ∷ []) rest)
]
  where
    emit-append : (x : Bytes) (a b : List Bytes) → emit x (a ++ b) ≡ emit x a ++ b
    emit-append [] a b = refl
    emit-append (y ∷ x) a b = refl

pub tokens-append : (s rest : Bytes) → tokens (s ++ b'/' ∷ rest) ≡ tokens s ++ tokens rest
unfolding tokens
tokens-append s rest = tokens_go-append s [] rest

emit-All :
    (P : ℕ → Type 0) (cur : Bytes) (ts : List Bytes)
    → All P cur
    → All (All P) ts
    → All (All P) (emit cur ts)
emit-All P [] ts h k = k
emit-All P (c ∷ cur) ts h k = (h, k)

tokens_go-All :
    (P : ℕ → Type 0) (s cur : Bytes) → All P cur → All P s → All (All P) (tokens_go cur s)
unfolding tokens_go
tokens_go-All P [] cur h k = emit-All P cur [] h tt
tokens_go-All P (c ∷ s) cur h k = elim (Bool-cases (c == b'/')) [
  | inl slash ↦ rw slash (emit-All P cur (tokens_go [] s) h (tokens_go-All P s [] tt k.1))
  | inr other ↦
      rw other (tokens_go-All P s (cur ++ c ∷ []) (All-append P cur (c ∷ []) h (k.0, tt)) k.1)
]

-- The tokens have only bytes of the text.
pub tokens-All : (P : ℕ → Type 0) (s : Bytes) → All P s → All (All P) (tokens s)
unfolding tokens
tokens-All P s k = tokens_go-All P s [] tt k

pub joined-All : (P : ℕ → Type 0) (ts : List Bytes) → P b'/' → All (All P) ts → All P (joined ts)
joined-All P [] p h = tt
joined-All P (t ∷ ts) p h = (p, All-append P t (joined ts) h.0 (joined-All P ts p h.1))

pub weight-append : (xs ys : List Bytes) → weight (xs ++ ys) ≡ weight xs + weight ys
weight-append [] ys = omega arith
weight-append (x ∷ xs) ys = omega (arith, weight-append xs ys)

pub weight-reverse : (xs : List Bytes) → weight (reverse xs) ≡ weight xs
weight-reverse [] = refl
weight-reverse (x ∷ xs) =
    omega
      (arith, ap weight (reverse-cons x xs), weight-append (reverse xs) (x ∷ []), weight-reverse xs)
