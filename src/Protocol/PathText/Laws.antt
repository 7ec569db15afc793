-- ===== src/Protocol/PathText/Laws.antt =====
-- The normal form of a path's text, and that its names stay the same.
use simple_ftp.Base.{
  ℕ, ◌<◌, ◌≡◌, refl, sym, ap, ◌∙◌, ◌≢◌, true, false, some, [], ◌∷◌, ◌++◌, map, ◌==◌, ==_iff, length,
  Bool-cases, inl, inr, subst, arith,
}
use simple_ftp.CString.{Bytes}
use simple_ftp.CString.Tokens.{tokens, tokens_go, emit}
use simple_ftp.Protocol.PathText.Forms.{
  NoDouble, LastNotSlash, NoTrailing, NoBackslash, IsNormal, collapse-NoDouble, NoDouble-tail,
  strip_trailing-forms, collapse-All, strip_trailing-All, forward_slash-NoBackslash,
}
use simple_ftp.Protocol.PathText.{
  forward_slash, collapse_slashes, drop_last_slash, strip_trailing, normalize_path,
}

collapse-eq_self :
    (s : Bytes)
    → (NoDouble s → collapse_slashes false s ≡ s)
      × (NoDouble (b'/' ∷ s) → collapse_slashes true s ≡ s)
unfolding collapse_slashes
collapse-eq_self [] = ((λ h. refl), (λ h. refl))
collapse-eq_self (c ∷ s) = elim (Bool-cases (c == b'/')) [
  | inl slash ↦
      let same : c ≡ b'/' = (==_iff c b'/').0 slash in
      (
        (λ h.
            rw slash (ap (◌∷◌ c) ((collapse-eq_self s).1 (subst (λ x. NoDouble (x ∷ s)) same h)))),
        (λ h. absurd (h.0 refl same)),
      )
  | inr other ↦ (
    (λ h. rw other (ap (◌∷◌ c) ((collapse-eq_self s).0 (NoDouble-tail c s h)))),
    (λ h. rw other (ap (◌∷◌ c) ((collapse-eq_self s).0 (NoDouble-tail c s h.1)))),
  )
]

drop_last_slash-eq_self : (s : Bytes) → LastNotSlash s → drop_last_slash s ≡ s
unfolding drop_last_slash
drop_last_slash-eq_self [] h = refl
drop_last_slash-eq_self (c ∷ []) h = ground arith
drop_last_slash-eq_self (c ∷ d ∷ s) h = ap (◌∷◌ c) (drop_last_slash-eq_self (d ∷ s) h)

strip_trailing-eq_self : (s : Bytes) → NoTrailing s → strip_trailing s ≡ s
unfolding strip_trailing
strip_trailing-eq_self [] h = refl
strip_trailing-eq_self (c ∷ s) h = ap (◌∷◌ c) (drop_last_slash-eq_self s h)

pub forward_slash-eq_self : (s : Bytes) → NoBackslash s → map forward_slash s ≡ s
unfolding forward_slash
forward_slash-eq_self [] h = refl
forward_slash-eq_self (c ∷ s) h = ground (arith, forward_slash-eq_self s h.1, h.0)

-- The text that a successful call leaves.
abbrev pub normalized : Bytes → Bytes
normalized s = strip_trailing (collapse_slashes false (map forward_slash s))

pub normalized-eq_self : (s : Bytes) → IsNormal s → normalized s ≡ s
normalized-eq_self s n =
    rw (forward_slash-eq_self s n.no_backslash, (collapse-eq_self s).0 n.no_double)
      (strip_trailing-eq_self s n.no_trailing)

pub normalized-IsNormal : (s : Bytes) → IsNormal (normalized s)
normalized-IsNormal s =
    let whole = collapse_slashes false (map forward_slash s) in
    let (d, l) = strip_trailing-forms whole (collapse-NoDouble (map forward_slash s)).0 in
    record {
      no_backslash =
          strip_trailing-All (λ c. c ≢ b'\\') whole
            (collapse-All (λ c. c ≢ b'\\') (map forward_slash s) false
              (forward_slash-NoBackslash s));
      no_double = d;
      no_trailing = l;
    }

tokens_go-collapse :
    (s : Bytes)
    → ((cur : Bytes) → tokens_go cur (collapse_slashes false s) ≡ tokens_go cur s)
      × (tokens_go [] (collapse_slashes true s) ≡ tokens_go [] s)
unfolding tokens_go collapse_slashes
tokens_go-collapse [] = ((λ cur. refl), refl)
tokens_go-collapse (c ∷ s) = elim (Bool-cases (c == b'/')) [
  | inl slash ↦ (
    (λ cur. rw (slash, collapse_slashes, slash) (ap (emit cur) (tokens_go-collapse s).1)),
    rw slash (tokens_go-collapse s).1,
  )
  | inr other ↦ (
    (λ cur. rw (other, collapse_slashes, other) ((tokens_go-collapse s).0 (cur ++ c ∷ []))),
    rw (other, collapse_slashes, other) ((tokens_go-collapse s).0 (c ∷ [])),
  )
]

tokens_go-drop_last_slash : (s cur : Bytes) → tokens_go cur (drop_last_slash s) ≡ tokens_go cur s
unfolding tokens_go drop_last_slash
tokens_go-drop_last_slash [] cur = refl
tokens_go-drop_last_slash (c ∷ []) cur = elim (Bool-cases (c == b'/')) [
  | inl slash ↦ rw slash refl
  | inr other ↦ rw other (rw other refl)
]
tokens_go-drop_last_slash (c ∷ d ∷ s) cur = elim (Bool-cases (c == b'/')) [
  | inl slash ↦ rw slash (ap (emit cur) (tokens_go-drop_last_slash (d ∷ s) []))
  | inr other ↦ rw other (tokens_go-drop_last_slash (d ∷ s) (cur ++ c ∷ []))
]

tokens-strip_trailing : (s : Bytes) → tokens (strip_trailing s) ≡ tokens s
unfolding tokens strip_trailing tokens_go
tokens-strip_trailing [] = refl
tokens-strip_trailing (c ∷ s) = elim (Bool-cases (c == b'/')) [
  | inl slash ↦ rw slash (tokens_go-drop_last_slash s [])
  | inr other ↦ rw other (tokens_go-drop_last_slash s (c ∷ []))
]

-- Normalising changes no name of the path.
pub tokens-normalized : (s : Bytes) → tokens (normalized s) ≡ tokens (map forward_slash s)
unfolding tokens
tokens-normalized s =
    tokens-strip_trailing (collapse_slashes false (map forward_slash s))
    ∙ (tokens_go-collapse (map forward_slash s)).0 []

pub normalize_path-eq :
    (s : Bytes) (max : ℕ) → length s < max → normalize_path s max ≡ some (normalized s)
unfolding normalize_path
normalize_path-eq s max h = ground arith

normalize_path-inv :
    (s : Bytes) (max : ℕ) {t : Bytes}
    → normalize_path s max ≡ some t
    → (length s < max) × (normalized s ≡ t)
unfolding normalize_path
normalize_path-inv s max h = ground arith

-- A call of `proto_normalize_path` that succeeds leaves no backslash, no two slashes in a row and no
-- slash at the end but for the root, keeps the names of the path with backslashes read as slashes,
-- and repeating it with any size that the text fits changes nothing.
pub normalize_path_lem :
    (s : Bytes) (max size : ℕ) {t : Bytes}
    → normalize_path s max ≡ some t
    → length t < size
    → IsNormal t × (tokens t ≡ tokens (map forward_slash s)) × (normalize_path t size ≡ some t)
normalize_path_lem s max size h k =
    let (fits, e) = normalize_path-inv s max h in
    let n = subst IsNormal e (normalized-IsNormal s) in
    (
      n,
      ap tokens (sym e) ∙ tokens-normalized s,
      normalize_path-eq _ size k ∙ ap some (normalized-eq_self _ n),
    )
