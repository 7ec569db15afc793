-- ===== src/Session/Path/Walk.antt =====
-- What a path means: a walk from a directory, in which ".." at the root stays there.
use simple_ftp.Base.{
  suc, ◌+◌, ◌≤◌, ◌<◌, ◌≡◌, refl, sym, ap, ◌∙◌, ◌≢◌, false, List, [], ◌∷◌, ◌++◌, length, reverse,
  reverse_cons-append, All, Bool-cases, inl, inr, subst, arith,
}
use simple_ftp.CString.{Bytes, str_eq}
use simple_ftp.CString.Laws.{str_eq_iff}
use simple_ftp.CString.Tokens.{IsToken}
use simple_ftp.Session.Path.{dot, dot_dot, take_component, resolve_go}

-- A name that stands for itself.
abbrev pub IsComponent : Bytes → Type 0
IsComponent t = IsToken t × (t ≢ dot) × (t ≢ dot_dot)

-- From the directory `cwd`, its last name first, the names of a path lead to another directory.
pub data Walk : List Bytes → List Bytes → List Bytes → Type 0 where
  stop : {cwd : List Bytes} → Walk cwd [] cwd
  stay : {cwd path to : List Bytes} → Walk cwd path to → Walk cwd (dot ∷ path) to
  top : {path to : List Bytes} → Walk [] path to → Walk [] (dot_dot ∷ path) to
  up :
      {d : Bytes} {cwd path to : List Bytes} → Walk cwd path to → Walk (d ∷ cwd) (dot_dot ∷ path) to
  down :
      {t : Bytes} {cwd path to : List Bytes}
      → t ≢ dot
      → t ≢ dot_dot
      → Walk (t ∷ cwd) path to
      → Walk cwd (t ∷ path) to

-- What one token does.
pub data Token (t : Bytes) : Type 0 where
  is_dot : t ≡ dot → Token t
  is_dot_dot : t ≡ dot_dot → Token t
  is_name : t ≢ dot → t ≢ dot_dot → Token t

pub Token-cases : (t : Bytes) → Token t
Token-cases t = elim (Bool-cases (str_eq t dot)) [
  | inl a ↦ is_dot ((str_eq_iff t dot).0 a)
  | inr a ↦ elim (Bool-cases (str_eq t dot_dot)) [
    | inl b ↦ is_dot_dot ((str_eq_iff t dot_dot).0 b)
    | inr b ↦
        is_name (λ e. cc (a, (str_eq_iff t dot).1 e)) (λ e. cc (b, (str_eq_iff t dot_dot).1 e))
  ]
]

pub take_component-dot : (cs : List Bytes) → take_component dot cs ≡ cs
unfolding take_component
take_component-dot [] = refl
take_component-dot (c ∷ cs) = refl

pub take_component-name :
    (t : Bytes) (cs : List Bytes) → t ≢ dot → t ≢ dot_dot → take_component t cs ≡ t ∷ cs
unfolding take_component
take_component-name t cs h k = with_cases cs (test dot h) (test dot_dot k)
  where
    test : (p : Bytes) → t ≢ p → str_eq t p ≡ false
    test p ne = elim (Bool-cases (str_eq t p)) [
      | inl e ↦ absurd (ne ((str_eq_iff t p).0 e))
      | inr e ↦ e
    ]

    with_cases :
        (xs : List Bytes)
        → str_eq t dot ≡ false
        → str_eq t dot_dot ≡ false
        → take_component t xs ≡ t ∷ xs
    with_cases [] a b = rw (a, b)
    with_cases (x ∷ xs) a b = rw (a, b)

resolve_go-step :
    (cs ts : List Bytes) (t : Bytes)
    → length cs < 256
    → resolve_go cs (t ∷ ts) ≡ resolve_go (take_component t cs) ts
unfolding resolve_go
resolve_go-step cs ts t h = ground arith

abbrev Walks : List Bytes → List Bytes → Type 0
Walks cs ts = Walk cs ts (resolve_go cs ts)

Walks-dot_dot :
    (cs ts : List Bytes)
    → length cs < 256
    → Walks (take_component dot_dot cs) ts
    → Walks cs (dot_dot ∷ ts)
unfolding take_component
Walks-dot_dot [] ts h w = rw (resolve_go-step [] ts dot_dot h) (top w)
Walks-dot_dot (c ∷ cs) ts h w = rw (resolve_go-step (c ∷ cs) ts dot_dot h) (up w)

length-take_component :
    (t : Bytes) (cs : List Bytes) → length (take_component t cs) ≤ suc (length cs)
unfolding take_component
length-take_component t [] = ground arith
length-take_component t (c ∷ cs) = ground arith

-- The loop follows the walk, as long as the array of 256 components cannot run over.
pub resolve_go-Walk :
    (ts cs : List Bytes) → length cs + length ts ≤ 256 → Walk cs ts (resolve_go cs ts)
resolve_go-Walk [] cs h = unfold resolve_go in stop
resolve_go-Walk (t ∷ ts) cs h =
    let rest : Walks (take_component t cs) ts =
      resolve_go-Walk ts (take_component t cs) (omega (arith, length-take_component t cs)) in
    elim (Token-cases t) [
      | is_dot e ↦
          let here : Walks cs ts =
            subst (λ x. Walks x ts) (ap (λ x. take_component x cs) e ∙ take_component-dot cs)
              rest in
          subst (λ x. Walks cs (x ∷ ts)) (sym e)
            (rw (resolve_go-step cs ts dot (omega arith), take_component-dot cs) (stay here))
      | is_dot_dot e ↦
          subst (λ x. Walks cs (x ∷ ts)) (sym e)
            (Walks-dot_dot cs ts (omega arith) (subst (λ x. Walks (take_component x cs) ts) e rest))
      | is_name a b ↦
          rw (resolve_go-step cs ts t (omega arith), take_component-name t cs a b)
            (down a b (rw (take_component-name t cs a b) at rest))
    ]

-- Names that stand for themselves are all taken, on top of what is there.
pub resolve_go-names :
    (names cs ts : List Bytes)
    → All IsComponent names
    → length cs + length names ≤ 256
    → resolve_go cs (names ++ ts) ≡ resolve_go (reverse names ++ cs) ts
resolve_go-names [] cs ts h k = refl
resolve_go-names (t ∷ names) cs ts h k =
    resolve_go-step cs (names ++ ts) t (omega arith)
    ∙ ap (λ x. resolve_go x (names ++ ts)) (take_component-name t cs h.0.1 h.0.2)
    ∙ resolve_go-names names (t ∷ cs) ts h.1 (omega arith)
    ∙ ap (λ x. resolve_go x ts) (sym (reverse_cons-append t names cs))
