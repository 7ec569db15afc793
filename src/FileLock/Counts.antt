-- ===== src/FileLock/Counts.antt =====
-- What the calls do to the counters of each path.
use mathlib.Core.Option
use simple_ftp.Base.{
  ◌≡◌, refl, sym, ap, subst, ◌∙◌, true, false, none, [], ◌∷◌, if◌then◌else◌, All, Bool-cases, inl,
  inr, arith,
}
use simple_ftp.CString.{Bytes, str_eq}
use simple_ftp.CString.Laws.{str_eq_iff}
use simple_ftp.FileLock.{Entry, Table, find, modify, remove}

-- No two entries have one path.
abbrev pub Fresh : Bytes → Table → Type 0
Fresh p t = All (λ (e : Entry). str_eq e.path p ≡ false) t

abbrev pub Distinct : Table → Type 0
Distinct [] = Unit
Distinct (e ∷ t) = Fresh e.path t × Distinct t

pub str_eq_sym : (a b : Bytes) → str_eq a b ≡ false → str_eq b a ≡ false
str_eq_sym a b h = elim (Bool-cases (str_eq b a)) [
  | inl e ↦ absurd (cc (h, (str_eq_iff a b).1 (sym ((str_eq_iff b a).0 e))))
  | inr e ↦ e
]

-- Equal paths are equal to the same paths.
str_eq_left : (a b c : Bytes) → str_eq a b ≡ true → str_eq a c ≡ str_eq b c
str_eq_left a b c h = ap (λ x. str_eq x c) ((str_eq_iff a b).0 h)

pub find-modify :
    (p q : Bytes) (f : Entry → Entry) (t : Table)
    → ((e : Entry) → (f e).path ≡ e.path)
    → find q (modify p f t) ≡ (if str_eq p q then Option.map f (find q t) else find q t)
unfolding find modify
find-modify p q f [] k = ground arith
find-modify p q f (e ∷ t) k = ground (
  arith,
  k e,
  str_eq_iff e.path p,
  str_eq_iff p q,
  str_eq_iff e.path q,
  str_eq_iff (f e).path q,
  find-modify p q f t k,
)

Fresh-find : (p : Bytes) (t : Table) → Fresh p t → find p t ≡ none
unfolding find
Fresh-find p [] h = refl
Fresh-find p (e ∷ t) h = rw h.0 (Fresh-find p t h.1)

pub find-Fresh : (p : Bytes) (t : Table) → find p t ≡ none → Fresh p t
unfolding find
find-Fresh p [] h = tt
find-Fresh p (e ∷ t) h = elim (Bool-cases (str_eq e.path p)) [
  | inl same ↦ absurd (cc (rw same at h))
  | inr other ↦ (other, find-Fresh p t (rw other at h))
]

pub find-remove :
    (p q : Bytes) (t : Table)
    → Distinct t
    → find q (remove p t) ≡ (if str_eq p q then none else find q t)
unfolding find remove
find-remove p q [] d = ground arith
find-remove p q (e ∷ t) d = elim (Bool-cases (str_eq e.path p)) [
  | inl here ↦ rw here (elim (Bool-cases (str_eq p q)) [
    | inl same ↦ rw same (
        Fresh-find q t (
          let e' : e.path ≡ q = (str_eq_iff e.path p).0 here ∙ (str_eq_iff p q).0 same in
          subst (λ x. Fresh x t) e' d.0))
    | inr other ↦ rw (other, str_eq_left e.path p q here, other) refl
  ])
  | inr there ↦ rw there (
      ground
        (arith, str_eq_iff e.path p, str_eq_iff p q, str_eq_iff e.path q, find-remove p q t d.1))
]

Fresh-modify :
    (p q : Bytes) (f : Entry → Entry) (t : Table)
    → ((e : Entry) → (f e).path ≡ e.path)
    → Fresh q t
    → Fresh q (modify p f t)
unfolding modify
Fresh-modify p q f [] k h = tt
Fresh-modify p q f (e ∷ t) k h = elim (Bool-cases (str_eq e.path p)) [
  | inl here ↦ rw here (rw (k e) h.0, h.1)
  | inr there ↦ rw there (h.0, Fresh-modify p q f t k h.1)
]

pub Distinct-modify :
    (p : Bytes) (f : Entry → Entry) (t : Table)
    → ((e : Entry) → (f e).path ≡ e.path)
    → Distinct t
    → Distinct (modify p f t)
unfolding modify
Distinct-modify p f [] k d = tt
Distinct-modify p f (e ∷ t) k d = elim (Bool-cases (str_eq e.path p)) [
  | inl here ↦ rw here (rw (k e) d.0, d.1)
  | inr there ↦ rw there (Fresh-modify p e.path f t k d.0, Distinct-modify p f t k d.1)
]

Fresh-remove : (p q : Bytes) (t : Table) → Fresh q t → Fresh q (remove p t)
unfolding remove
Fresh-remove p q [] h = tt
Fresh-remove p q (e ∷ t) h = elim (Bool-cases (str_eq e.path p)) [
  | inl here ↦ rw here h.1
  | inr there ↦ rw there (h.0, Fresh-remove p q t h.1)
]

pub Distinct-remove : (p : Bytes) (t : Table) → Distinct t → Distinct (remove p t)
unfolding remove
Distinct-remove p [] d = tt
Distinct-remove p (e ∷ t) d = elim (Bool-cases (str_eq e.path p)) [
  | inl here ↦ rw here d.1
  | inr there ↦ rw there (Fresh-remove p e.path t d.0, Distinct-remove p t d.1)
]
