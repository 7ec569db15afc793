-- ===== src/Protocol/PathText/Forms.antt =====
-- The normal form of a path's text, and that each step of the normalisation leads to it.
use simple_ftp.Base.{
  ℕ, ◌≡◌, sym, ◌≢◌, Bool, true, false, [], ◌∷◌, map, ◌==◌, ==_iff, All, Bool-cases, inl, inr, subst,
  arith,
}
use simple_ftp.CString.{Bytes}
use simple_ftp.Protocol.PathText.{forward_slash, collapse_slashes, drop_last_slash, strip_trailing}

-- No two slashes in a row.
abbrev pub NoDouble : Bytes → Type 0
NoDouble [] = Unit
NoDouble (c ∷ []) = Unit
NoDouble (c ∷ d ∷ s) = (c ≡ b'/' → d ≢ b'/') × NoDouble (d ∷ s)

abbrev pub LastNotSlash : Bytes → Type 0
LastNotSlash [] = Unit
LastNotSlash (c ∷ []) = c ≢ b'/'
LastNotSlash (c ∷ d ∷ s) = LastNotSlash (d ∷ s)

-- No slash at the end, but for the root.
abbrev pub NoTrailing : Bytes → Type 0
NoTrailing [] = Unit
NoTrailing (c ∷ s) = LastNotSlash s

abbrev pub NoBackslash : Bytes → Type 0
NoBackslash s = All (λ c. c ≢ b'\\') s

-- A path in the form that `proto_normalize_path` leaves.
pub record IsNormal (s : Bytes) : Type 0 where
  pub no_backslash : NoBackslash s
  pub no_double : NoDouble s
  pub no_trailing : NoTrailing s

NoDouble-cons : (c : ℕ) (s : Bytes) → c ≢ b'/' → NoDouble s → NoDouble (c ∷ s)
NoDouble-cons c [] h k = tt
NoDouble-cons c (d ∷ s) h k = ((λ e. absurd (h e)), k)

pub collapse-NoDouble :
    (s : Bytes) → NoDouble (collapse_slashes false s) × NoDouble (b'/' ∷ collapse_slashes true s)
unfolding collapse_slashes
collapse-NoDouble [] = (tt, tt)
collapse-NoDouble (c ∷ s) = elim (Bool-cases (c == b'/')) [
  | inl slash ↦
      let same : c ≡ b'/' = (==_iff c b'/').0 slash in
      rw slash (
        subst (λ x. NoDouble (x ∷ collapse_slashes true s)) (sym same) (collapse-NoDouble s).1,
        (collapse-NoDouble s).1,
      )
  | inr other ↦
      let differs : c ≢ b'/' = ground arith in
      let tail : NoDouble (c ∷ collapse_slashes false s) =
        NoDouble-cons c (collapse_slashes false s) differs (collapse-NoDouble s).0 in
      rw other (tail, ((λ e. differs), tail))
]

pub drop_last_slash-NoDouble : (s : Bytes) → NoDouble s → NoDouble (drop_last_slash s)
unfolding drop_last_slash
drop_last_slash-NoDouble [] h = tt
drop_last_slash-NoDouble (c ∷ []) h = elim (Bool-cases (c == b'/')) [
  | inl slash ↦ rw slash tt
  | inr other ↦ rw other tt
]
drop_last_slash-NoDouble (c ∷ d ∷ []) h = elim (Bool-cases (d == b'/')) [
  | inl slash ↦ rw slash tt
  | inr other ↦ rw other h
]
drop_last_slash-NoDouble (c ∷ d ∷ e ∷ s) h = (h.0, drop_last_slash-NoDouble (d ∷ e ∷ s) h.1)

drop_last_slash-LastNotSlash : (s : Bytes) → NoDouble s → LastNotSlash (drop_last_slash s)
unfolding drop_last_slash
drop_last_slash-LastNotSlash [] h = tt
drop_last_slash-LastNotSlash (c ∷ []) h = elim (Bool-cases (c == b'/')) [
  | inl slash ↦ rw slash tt
  | inr other ↦ rw other (ground arith)
]
drop_last_slash-LastNotSlash (c ∷ d ∷ []) h = elim (Bool-cases (d == b'/')) [
  | inl slash ↦ rw slash (λ e. h.0 e ((==_iff d b'/').0 slash))
  | inr other ↦ rw other (ground arith)
]
drop_last_slash-LastNotSlash (c ∷ d ∷ e ∷ s) h = drop_last_slash-LastNotSlash (d ∷ e ∷ s) h.1

pub NoDouble-tail : (c : ℕ) (s : Bytes) → NoDouble (c ∷ s) → NoDouble s
NoDouble-tail c [] h = tt
NoDouble-tail c (d ∷ s) h = h.1

-- Putting the first byte back in front of what was cut.
drop_last_slash-head : (c : ℕ) (s : Bytes) → NoDouble (c ∷ s) → NoDouble (c ∷ drop_last_slash s)
unfolding drop_last_slash
drop_last_slash-head c [] h = tt
drop_last_slash-head c (d ∷ []) h = elim (Bool-cases (d == b'/')) [
  | inl slash ↦ rw slash tt
  | inr other ↦ rw other h
]
drop_last_slash-head c (d ∷ e ∷ s) h = (h.0, drop_last_slash-head d (e ∷ s) h.1)

pub strip_trailing-forms :
    (s : Bytes) → NoDouble s → NoDouble (strip_trailing s) × NoTrailing (strip_trailing s)
unfolding strip_trailing
strip_trailing-forms [] h = (tt, tt)
strip_trailing-forms (c ∷ s) h =
    (drop_last_slash-head c s h, drop_last_slash-LastNotSlash s (NoDouble-tail c s h))

module _ (P : ℕ → Type 0) where
  pub collapse-All : (s : Bytes) (last : Bool) → All P s → All P (collapse_slashes last s)
  unfolding collapse_slashes
  collapse-All [] last h = tt
  collapse-All (c ∷ s) true h = elim (Bool-cases (c == b'/')) [
    | inl slash ↦ rw slash (collapse-All s true h.1)
    | inr other ↦ rw other (h.0, collapse-All s false h.1)
  ]
  collapse-All (c ∷ s) false h = elim (Bool-cases (c == b'/')) [
    | inl slash ↦ rw slash (h.0, collapse-All s true h.1)
    | inr other ↦ rw other (h.0, collapse-All s false h.1)
  ]

  drop_last_slash-All : (s : Bytes) → All P s → All P (drop_last_slash s)
  unfolding drop_last_slash
  drop_last_slash-All [] h = tt
  drop_last_slash-All (c ∷ []) h = elim (Bool-cases (c == b'/')) [
    | inl slash ↦ rw slash tt
    | inr other ↦ rw other h
  ]
  drop_last_slash-All (c ∷ d ∷ s) h = (h.0, drop_last_slash-All (d ∷ s) h.1)

  pub strip_trailing-All : (s : Bytes) → All P s → All P (strip_trailing s)
  unfolding strip_trailing
  strip_trailing-All [] h = tt
  strip_trailing-All (c ∷ s) h = (h.0, drop_last_slash-All s h.1)

pub forward_slash-NoBackslash : (s : Bytes) → NoBackslash (map forward_slash s)
unfolding forward_slash
forward_slash-NoBackslash [] = tt
forward_slash-NoBackslash (c ∷ s) = ((ground arith), forward_slash-NoBackslash s)
