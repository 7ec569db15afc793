-- ===== src/Session/Path/Confined.antt =====
-- Every path that `normalize_and_validate_path` accepts lies below the root, spelled in one way.
use simple_ftp.Base.{
  ℕ, suc, ◌≤◌, ◌<◌, ◌≡◌, refl, sym, ap, ◌∙◌, subst, ◌≢◌, true, false, some, List, [], ◌∷◌, ◌++◌,
  map, reverse, ==_iff, length, length-take, length-reverse, take, All, All-reverse, Bool-cases,
  inl, inr, arith,
}
use simple_ftp.CString.{Bytes, codes, str_eq, contains}
use simple_ftp.CString.Tokens.{
  tokens, IsToken, tokens-IsToken, weight, weight-reverse, tokens-weight, joined, length-joined,
  tokens-All, joined-All,
}
use simple_ftp.CString.Scan.{◌>>=◌}
use simple_ftp.Protocol.PathText.{validate_path, has_refused, forward_slash}
use simple_ftp.Protocol.PathText.Forms.{NoBackslash, forward_slash-NoBackslash}
use simple_ftp.Protocol.PathText.Laws.{normalized, normalize_path-eq, tokens-normalized}
use simple_ftp.Session.Path.{
  max_path, dot, dot_dot, root, is_absolute, absolute_text, resolve_go, build_path, skip_first,
  check_path, resolve_virtual,
}
use simple_ftp.Session.Path.Stack.{render, IsStack, resolve_go-IsStack, build_path-render}
use simple_ftp.Session.Path.Walk.{IsComponent}

-- A path of the virtual file system in its one spelling: it consists of at most 256 names none of
-- which is empty, "." or "..", and has no ".." anywhere, no refused byte and no backslash.
pub record IsVirtual (r : Bytes) : Type 0 where
  pub names : List Bytes
  pub spelled : r ≡ render names
  pub components : All IsComponent names
  pub few : length names ≤ 256
  pub short : length r < 1024
  pub no_dot_dot : contains (codes "..") r ≡ false
  pub printable : has_refused r ≡ false
  pub no_backslash : NoBackslash r

slash_first : (s : Bytes) → is_absolute s ≡ true → (t : Bytes) × (s ≡ b'/' ∷ t)
unfolding is_absolute
slash_first [] h = absurd (cc)
slash_first (c ∷ s) h = (s, ap (λ x. x ∷ s) ((==_iff c b'/').0 h))

absolute_text-head :
    (base path : Bytes)
    → is_absolute base ≡ true
    → (s : Bytes) × (absolute_text base path ≡ b'/' ∷ s) × (length (b'/' ∷ s) < max_path)
unfolding absolute_text
absolute_text-head base path h = elim (Bool-cases (is_absolute path)) [
  | inl absolute ↦
      let (p, e) = slash_first path absolute in (take 1022 p, rw absolute (ap (take 1023) e), cut p)
  | inr relative ↦ elim (Bool-cases (str_eq base root)) [
    | inl at_root ↦ (take 1022 path, rw (relative, at_root), cut path)
    | inr deeper ↦
        let (b, e) = slash_first base h in
        (
          take 1022 (b ++ (b'/' ∷ path)),
          rw (relative, deeper) (ap (λ x. take 1023 (x ++ (b'/' ∷ path))) e),
          cut (b ++ (b'/' ∷ path)),
        )
  ]
]
  where
    cut : (s : Bytes) → length (b'/' ∷ take 1022 s) < max_path
    cut s = omega (arith, length-take {0} 1022 s)

length-forward_slash : (s : Bytes) → length (map forward_slash s) ≡ length s
length-forward_slash [] = refl
length-forward_slash (c ∷ s) = ap suc (length-forward_slash s)

render-length : (cs : List Bytes) → weight cs < max_path → length (render cs) < max_path
render-length [] h = omega arith
render-length (c ∷ cs) h = omega (arith, length-joined (c ∷ cs))

-- The names that the loop finds in the text of a path.
abbrev pub found : Bytes → Bytes → List Bytes
found base path = reverse (resolve_go [] (tokens (normalized (absolute_text base path))))

abbrev IsFound : Bytes → Type 0
IsFound t = IsComponent t × NoBackslash t

as-IsFound :
    (ts : List Bytes)
    → All IsToken ts
    → All NoBackslash ts
    → All (λ t. t ≢ dot → t ≢ dot_dot → IsFound t) ts
as-IsFound [] h k = tt
as-IsFound (t ∷ ts) h k = ((λ a b. ((h.0, a, b), k.0)), as-IsFound ts h.1 k.1)

text_tokens :
    (base path : Bytes)
    → is_absolute base ≡ true
    → weight (tokens (normalized (absolute_text base path))) ≤ 1023
unfolding forward_slash
text_tokens base path h =
    let (s, e, fits) = absolute_text-head base path h in
    omega (
      arith,
      ap weight
          (tokens-normalized (absolute_text base path) ∙ ap (λ x. tokens (map forward_slash x)) e),
      tokens-weight (map forward_slash s),
      length-forward_slash s,
    )

IsFound-IsStack :
    (base path : Bytes)
    → is_absolute base ≡ true
    → IsStack IsFound 1023 (resolve_go [] (tokens (normalized (absolute_text base path))))
IsFound-IsStack base path h =
    let text = absolute_text base path in
    resolve_go-IsStack IsFound (tokens (normalized text)) [] 0 1023
      (rw tokens-normalized (
        as-IsFound (tokens (map forward_slash text)) (tokens-IsToken (map forward_slash text))
          (tokens-All (λ c. c ≢ b'\\') (map forward_slash text) (forward_slash-NoBackslash text))))
      (omega (arith, text_tokens base path h))
      (record { all = tt; few = omega arith; light = omega arith })

validate_path-inv :
    (x : Bytes)
    → validate_path x ≡ true
    → (contains (codes "..") x ≡ false) × (has_refused x ≡ false)
unfolding validate_path contains
validate_path-inv [] h = (refl, refl)
validate_path-inv (c ∷ x) h = ground arith

render-checked :
    (names : List Bytes)
    → validate_path (skip_first (render names)) ≡ true
    → (contains (codes "..") (render names) ≡ false) × (has_refused (render names) ≡ false)
unfolding contains has_refused
render-checked [] h = (refl, refl)
render-checked (t ∷ ts) h = validate_path-inv (t ++ joined ts) h

render-All : (P : ℕ → Type 0) (ts : List Bytes) → P b'/' → All (All P) ts → All P (render ts)
render-All P [] p h = (p, tt)
render-All P (t ∷ ts) p h = joined-All P (t ∷ ts) p h

firsts : (ts : List Bytes) → All IsFound ts → All IsComponent ts
firsts [] h = tt
firsts (t ∷ ts) h = (h.0.0, firsts ts h.1)

seconds : (ts : List Bytes) → All IsFound ts → All NoBackslash ts
seconds [] h = tt
seconds (t ∷ ts) h = (h.0.1, seconds ts h.1)

render-IsVirtual :
    (ts : List Bytes)
    → All IsFound ts
    → length ts ≤ 256
    → weight ts ≤ 1023
    → validate_path (skip_first (render ts)) ≡ true
    → IsVirtual (render ts)
render-IsVirtual ts a l w v = record {
  names = ts;
  spelled = refl;
  components = firsts ts a;
  few = l;
  short = render-length ts (omega arith);
  no_dot_dot = (render-checked ts v).0;
  printable = (render-checked ts v).1;
  no_backslash = render-All (λ c. c ≢ b'\\') ts (λ e. cc) (seconds ts a);
}

check_path-inv :
    (x : Bytes) {r : Bytes}
    → check_path x ≡ some r
    → (validate_path (skip_first x) ≡ true) × (x ≡ r)
unfolding check_path
check_path-inv x h = ground arith

-- What the function computes, in terms of the names found.
pub resolve_virtual-eq :
    (base path : Bytes)
    → is_absolute base ≡ true
    → resolve_virtual base path ≡ check_path (render (found base path))
unfolding resolve_virtual
resolve_virtual-eq base path h =
    let (s, e, fits) = absolute_text-head base path h in
    let stack = IsFound-IsStack base path h in
    ap (λ o. o >>= (λ temp. check_path (build_path (reverse (resolve_go [] (tokens temp))))))
      (normalize_path-eq (absolute_text base path) max_path (omega (arith, ap length e)))
    ∙ ap check_path (
        build_path-render (found base path) (
          omega (
            arith,
            stack.light,
            weight-reverse (resolve_go [] (tokens (normalized (absolute_text base path)))),
          )))

-- A path that is accepted is an absolute path of the virtual file system in its one spelling: no
-- matter what the client sends, the result names no directory above the root. The current directory
-- only has to begin with a slash.
pub resolve_virtual-IsVirtual :
    (base path : Bytes) {r : Bytes}
    → is_absolute base ≡ true
    → resolve_virtual base path ≡ some r
    → IsVirtual r
resolve_virtual-IsVirtual base path h e =
    let names = resolve_go [] (tokens (normalized (absolute_text base path))) in
    let stack = IsFound-IsStack base path h in
    let (valid, same) =
      check_path-inv (render (found base path)) (sym (resolve_virtual-eq base path h) ∙ e) in
    subst IsVirtual same (
      render-IsVirtual (reverse names) (All-reverse IsFound names stack.all)
        (omega (arith, stack.few, length-reverse names))
        (omega (arith, stack.light, weight-reverse names)) valid)
