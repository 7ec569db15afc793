-- ===== src/Session/Path/Stack.antt =====
-- The stack of components, and the text that is built from it.
use simple_ftp.Base.{
  ℕ, suc, ◌+◌, ◌-◌, ◌≤◌, ◌<◌, ◌≡◌, refl, sym, ap, ◌∙◌, ◌≢◌, List, [], ◌∷◌, ◌++◌, append-nil,
  append_assoc, leb, length, length-append, take-eq_self, All, Bool-cases, inl, inr, arith,
}
use simple_ftp.CString.{Bytes}
use simple_ftp.CString.Tokens.{weight, joined}
use simple_ftp.Session.Path.{
  max_path, dot, dot_dot, root, take_component, resolve_go, strncat, build_go, build_path,
}
use simple_ftp.Session.Path.Walk.{
  is_dot, is_dot_dot, is_name, Token-cases, take_component-dot, take_component-name,
}

-- "/" for no names, "/a/b" for the names a and b.
abbrev pub render : List Bytes → Bytes
render [] = root
render (t ∷ ts) = joined (t ∷ ts)

-- What the stack of components keeps, token by token.
pub record IsStack (P : Bytes → Type 0) (bound : ℕ) (cs : List Bytes) : Type 0 where
  pub all : All P cs
  pub few : length cs ≤ 256
  pub light : weight cs ≤ bound

take_component-IsStack :
    (P : Bytes → Type 0) (bound : ℕ) (t : Bytes) (cs : List Bytes)
    → (t ≢ dot → t ≢ dot_dot → P t)
    → length cs < 256
    → IsStack P bound cs
    → IsStack P (suc (length t + bound)) (take_component t cs)
unfolding take_component
take_component-IsStack P bound t cs p h s = elim (Token-cases t) [
  | is_dot e ↦
      rw (e, take_component-dot cs)
        (record { all = s.all; few = s.few; light = omega (arith, s.light) })
  | is_dot_dot e ↦ rw e (popped cs s)
  | is_name a b ↦
      rw (take_component-name t cs a b)
        (record { all = (p a b, s.all); few = h; light = omega (arith, s.light) })
]
  where
    popped :
        (xs : List Bytes)
        → IsStack P bound xs
        → IsStack P (suc (length dot_dot + bound)) (take_component dot_dot xs)
    popped [] k = record { all = tt; few = omega arith; light = omega arith }
    popped (x ∷ xs) k = record {
      all = k.all.1;
      few = omega (arith, k.few);
      light = omega (arith, k.light);
    }

-- The loop keeps the stack well formed, whatever the tokens are: it stops at 256 components.
pub resolve_go-IsStack :
    (P : Bytes → Type 0) (ts cs : List Bytes) (bound total : ℕ)
    → All (λ t. t ≢ dot → t ≢ dot_dot → P t) ts
    → weight ts + bound ≤ total
    → IsStack P bound cs
    → IsStack P total (resolve_go cs ts)
unfolding resolve_go
resolve_go-IsStack P [] cs bound total h w s = record {
  all = s.all;
  few = s.few;
  light = omega (arith, s.light);
}
resolve_go-IsStack P (t ∷ ts) cs bound total h w s = elim (Bool-cases (leb 256 (length cs))) [
  | inl full ↦ rw full (record { all = s.all; few = s.few; light = omega (arith, s.light) })
  | inr room ↦ rw room (
      resolve_go-IsStack P ts (take_component t cs) (suc (length t + bound)) total h.1 (omega arith)
        (take_component-IsStack P bound t cs h.0 (ground arith) s))
]

strncat-fits :
    (result s : Bytes)
    → length result + length s < max_path
    → strncat max_path result s ≡ result ++ s
unfolding strncat
strncat-fits result s h =
    ap (λ x. result ++ x) (take-eq_self (max_path - length result - 1) s (omega arith))

build_go-joined :
    (cs : List Bytes) (result : Bytes)
    → length result + weight cs < max_path
    → build_go result cs ≡ result ++ joined cs
unfolding build_go
build_go-joined [] result h = sym (append-nil result)
build_go-joined (c ∷ cs) result h =
    ap (λ x. build_go (strncat max_path x c) cs) (strncat-fits result root (omega arith))
    ∙ ap (λ x. build_go x cs)
        (strncat-fits (result ++ root) c (omega (arith, length-append result root)))
    ∙ build_go-joined cs ((result ++ root) ++ c)
        (omega (arith, length-append (result ++ root) c, length-append result root))
    ∙ regroup
  where
    regroup : ((result ++ root) ++ c) ++ joined cs ≡ result ++ joined (c ∷ cs)
    regroup = simp append_assoc

-- Names that fit into the buffer are joined without loss.
pub build_path-render : (cs : List Bytes) → weight cs < max_path → build_path cs ≡ render cs
unfolding build_path
build_path-render [] h = refl
build_path-render (c ∷ cs) h = build_go-joined (c ∷ cs) [] (omega arith)
