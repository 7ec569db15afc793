-- ===== src/Utils/Trim.antt =====
-- Trimming: what is removed, and what is left.
use mathlib.Core.List.{reverse, reverse-append, reverse-reverse}
use simple_ftp.Base.{
  ℕ, ◌≡◌, refl, sym, ap, ◌∙◌, true, false, [], ◌∷◌, ◌++◌, length, All, All-reverse, reverse-cons,
  All-append_left, All-append_right, length-append, ◌≤◌, Bool-cases, inl, inr, append-nil, arith,
}
use simple_ftp.CString.{Bytes, isspace}
use simple_ftp.CString.Scan.{skip_space}
use simple_ftp.Utils.{back_up, trim_whitespace}

abbrev pub IsSpace : ℕ → Type 0
IsSpace c = isspace c ≡ true

-- The first byte, if there is one, is no space.
abbrev pub HeadIsSolid : Bytes → Type 0
HeadIsSolid [] = Unit
HeadIsSolid (c ∷ s) = isspace c ≡ false

skip_space_split :
    (s : Bytes)
    → (pre : Bytes) × (s ≡ pre ++ skip_space s) × All IsSpace pre × HeadIsSolid (skip_space s)
unfolding skip_space
skip_space_split [] = ([], refl, tt, tt)
skip_space_split (c ∷ s) = elim (Bool-cases (isspace c)) [
  | inl space ↦
      let (pre, e, a, h) = skip_space_split s in
      (c ∷ pre, rw space (ap (◌∷◌ c) e), (space, a), rw space h)
  | inr solid ↦ ([], rw solid, tt, rw solid solid)
]

-- Of bytes in reverse that end in a solid one, `back_up` removes the leading spaces.
abbrev LastIsSolid : Bytes → Type 0
LastIsSolid [] = Unit
LastIsSolid (c ∷ []) = isspace c ≡ false
LastIsSolid (c ∷ d ∷ s) = LastIsSolid (d ∷ s)

back_up_split :
    (s : Bytes)
    → LastIsSolid s
    → (pre : Bytes) × (s ≡ pre ++ back_up s) × All IsSpace pre × HeadIsSolid (back_up s)
unfolding back_up
back_up_split [] l = ([], refl, tt, tt)
back_up_split (c ∷ []) l = ([], refl, tt, l)
back_up_split (c ∷ d ∷ s) l = elim (Bool-cases (isspace c)) [
  | inl space ↦
      let (pre, e, a, h) = back_up_split (d ∷ s) l in
      (c ∷ pre, rw space (ap (◌∷◌ c) e), (space, a), rw space h)
  | inr solid ↦ ([], rw solid, tt, rw solid solid)
]

LastIsSolid-concat : (s : Bytes) (c : ℕ) → isspace c ≡ false → LastIsSolid (s ++ c ∷ [])
LastIsSolid-concat [] c h = h
LastIsSolid-concat (x ∷ []) c h = h
LastIsSolid-concat (x ∷ y ∷ s) c h = LastIsSolid-concat (y ∷ s) c h

reverse-LastIsSolid : (s : Bytes) → HeadIsSolid s → LastIsSolid (reverse s)
reverse-LastIsSolid [] h = tt
reverse-LastIsSolid (c ∷ s) h = rw reverse-cons (LastIsSolid-concat (reverse s) c h)

HeadIsSolid-append_left : (x y : Bytes) → HeadIsSolid (x ++ y) → HeadIsSolid x
HeadIsSolid-append_left [] y h = tt
HeadIsSolid-append_left (c ∷ x) y h = h

-- Both ends of the text are solid, so there is nothing to trim.
abbrev pub IsTrimmed : Bytes → Type 0
IsTrimmed s = HeadIsSolid s × HeadIsSolid (reverse s)

-- What `trim_whitespace` removes at either end is white space, and what is left neither begins nor
-- ends with white space.
pub trim_whitespace_lem :
    (s : Bytes)
    → (pre : Bytes) × (post : Bytes) × (s ≡ pre ++ (trim_whitespace s ++ post))
      × All IsSpace pre
      × All IsSpace post
      × IsTrimmed (trim_whitespace s)
unfolding trim_whitespace
trim_whitespace_lem s =
    let (pre, e, a, h) = skip_space_split s in
    let w : Bytes = skip_space s in
    let (q, f, b, k) = back_up_split (reverse w) (reverse-LastIsSolid w h) in
    let t : Bytes = back_up (reverse w) in
    let whole : w ≡ reverse t ++ reverse q =
      sym (reverse-reverse w) ∙ ap reverse f ∙ reverse-append q t in
    (
      pre,
      reverse q,
      e ∙ ap (λ x. pre ++ x) whole,
      a,
      All-reverse IsSpace q b,
      (HeadIsSolid-append_left (reverse t) (reverse q) (rw whole at h), rw reverse-reverse k),
    )

skip_space-append : (pre s : Bytes) → All IsSpace pre → skip_space (pre ++ s) ≡ skip_space s
unfolding skip_space
skip_space-append [] s h = refl
skip_space-append (c ∷ pre) s h = rw h.0 (skip_space-append pre s h.1)

skip_space-eq_self : (s : Bytes) → HeadIsSolid s → skip_space s ≡ s
unfolding skip_space
skip_space-eq_self [] h = refl
skip_space-eq_self (c ∷ s) h = rw h

back_up-eq_self : (s : Bytes) → HeadIsSolid s → back_up s ≡ s
unfolding back_up
back_up-eq_self [] h = refl
back_up-eq_self (c ∷ []) h = refl
back_up-eq_self (c ∷ d ∷ s) h = rw h

back_up-append :
    (pre : Bytes) (c : ℕ) (s : Bytes) → All IsSpace pre → back_up (pre ++ c ∷ s) ≡ back_up (c ∷ s)
unfolding back_up
back_up-append [] c s h = refl
back_up-append (x ∷ []) c s h = rw h.0
back_up-append (x ∷ y ∷ pre) c s h = rw h.0 (back_up-append (y ∷ pre) c s h.1)

skip_space-spaces : (s : Bytes) → All IsSpace s → skip_space s ≡ []
unfolding skip_space
skip_space-spaces [] h = refl
skip_space-spaces (c ∷ s) h = rw h.0 (skip_space-spaces s h.1)

-- One non-empty list is another with a first element.
reverse-ne-nil : (c : ℕ) (s : Bytes) → (d : ℕ) × (t : Bytes) × (reverse (c ∷ s) ≡ d ∷ t)
reverse-ne-nil c s = head_of (reverse s) (reverse-cons c s)
  where
    head_of :
        (r : Bytes)
        → reverse (c ∷ s) ≡ r ++ c ∷ []
        → (d : ℕ) × (t : Bytes) × (reverse (c ∷ s) ≡ d ∷ t)
    head_of [] e = (c, [], e)
    head_of (d ∷ r) e = (d, r ++ c ∷ [], e)

-- Trimming gives back a text with solid ends from any white space around it.
pub trim_whitespace-append :
    (pre t post : Bytes)
    → All IsSpace pre
    → All IsSpace post
    → IsTrimmed t
    → trim_whitespace (pre ++ (t ++ post)) ≡ t
unfolding trim_whitespace
trim_whitespace-append pre [] post a b h =
    rw (skip_space-append pre post a, skip_space-spaces post b) (unfold back_up in refl)
trim_whitespace-append pre (c ∷ t) post a b h =
    let (d, r, e) = reverse-ne-nil c t in
    rw
      (
        skip_space-append pre (c ∷ (t ++ post)) a,
        skip_space-eq_self (c ∷ (t ++ post)) h.0,
        reverse-append (c ∷ t) post,
        e,
        back_up-append (reverse post) d r (All-reverse IsSpace post b),
        back_up-eq_self (d ∷ r) (rw e at h.1),
        ← e,
      )
      (reverse-reverse (c ∷ t))

pub trim_whitespace-eq_self : (s : Bytes) → IsTrimmed s → trim_whitespace s ≡ s
trim_whitespace-eq_self s h =
    ap trim_whitespace (sym (append-nil s)) ∙ trim_whitespace-append [] s [] tt tt h

-- Trimming twice is trimming once.
pub trim_whitespace_idem : (s : Bytes) → trim_whitespace (trim_whitespace s) ≡ trim_whitespace s
trim_whitespace_idem s =
    let (pre, post, e, a, b, h) = trim_whitespace_lem s in
    trim_whitespace-eq_self (trim_whitespace s) h

-- A trimmed text is no longer than the text.
pub trim_whitespace-length-le : (s : Bytes) → length (trim_whitespace s) ≤ length s
trim_whitespace-length-le s =
    let (pre, post, e, a, b, h) = trim_whitespace_lem s in
    omega (
      arith,
      ap length e,
      length-append {0} pre (trim_whitespace s ++ post),
      length-append {0} (trim_whitespace s) post,
    )

pub trim_whitespace-All : (P : ℕ → Type 0) (s : Bytes) → All P s → All P (trim_whitespace s)
trim_whitespace-All P s k =
    let (pre, post, e, a, b, h) = trim_whitespace_lem s in
    All-append_left P (trim_whitespace s) post
      (All-append_right P pre (trim_whitespace s ++ post) (rw e at k))
