-- ===== src/Session/Path/Refines.antt =====
-- The result of `normalize_and_validate_path` against the walk that the path describes.
use mathlib.Core.List.{map-append}
use simple_ftp.Base.{
  ◌+◌, ◌≤◌, ◌<◌, ◌≡◌, refl, sym, ap, ◌∙◌, subst, ◌≢◌, Bool, true, false, List, [], ◌∷◌, ◌++◌,
  append-nil, map, reverse, reverse-reverse, if◌then◌else◌, length, length-append, length-reverse,
  take, take-eq_self, All, Bool-cases, inl, inr, arith,
}
use simple_ftp.CString.{Bytes, str_eq}
use simple_ftp.CString.Laws.{str_eq_iff}
use simple_ftp.CString.Tokens.{tokens, tokens_go, tokens-joined, tokens-append, joined}
use simple_ftp.Protocol.PathText.{forward_slash}
use simple_ftp.Protocol.PathText.Laws.{tokens-normalized, forward_slash-eq_self}
use simple_ftp.Session.Path.{
  root, is_absolute, absolute_text, resolve_go, check_path, resolve_virtual,
}
use simple_ftp.Session.Path.Walk.{IsComponent, Walk, resolve_go-Walk, resolve_go-names}
use simple_ftp.Session.Path.Stack.{render}
use simple_ftp.Session.Path.Confined.{IsVirtual, found, resolve_virtual-eq}
use simple_ftp.Session.Path.Stable.{as_tokens, virtual_absolute}

-- The names of the directory that a path starts from.
abbrev pub start_names : List Bytes → Bytes → List Bytes
start_names base path = if is_absolute path then [] else base

render-ne-root :
    (t : Bytes) (ts : List Bytes) → IsComponent t → str_eq (render (t ∷ ts)) root ≡ false
render-ne-root t ts h = elim (Bool-cases (str_eq (render (t ∷ ts)) root)) [
  | inl same ↦ absurd (nonempty t h.0.0 ((str_eq_iff (render (t ∷ ts)) root).0 same))
  | inr other ↦ other
]
  where
    nonempty : (x : Bytes) → x ≢ [] → b'/' ∷ (x ++ joined ts) ≡ root → ⊥
    nonempty [] k e = k refl
    nonempty (c ∷ x) k e = cc

module _ {base : Bytes} (v : IsVirtual base) (path : Bytes)
    (fits : length base + length path < 1023) where
  short_path : take 1023 path ≡ path
  short_path = take-eq_self 1023 path (omega (arith, fits))

  text_names :
      tokens (map forward_slash (absolute_text base path))
      ≡ start_names v.names path ++ tokens (map forward_slash path)
  unfolding tokens forward_slash
  text_names = elim (Bool-cases (is_absolute path)) [
    | inl absolute ↦ unfold absolute_text in rw (absolute, short_path) refl
    | inr relative ↦ rw relative (
        ap (λ x. tokens (map forward_slash x)) (relative_text relative)
        ∙ relative_names v.names v.spelled v.components)
  ]
    where
      joined_text : Bytes
      joined_text = base ++ (b'/' ∷ path)

      relative_text :
          is_absolute path ≡ false
          → absolute_text base path ≡ (if str_eq base root then b'/' ∷ path else joined_text)
      relative_text h =
          unfold absolute_text in
          rw h (elim (Bool-cases (str_eq base root)) [
            | inl same ↦ rw same (take-eq_self 1023 (b'/' ∷ path) (omega (arith, fits)))
            | inr other ↦ rw other (
                take-eq_self 1023 joined_text
                  (omega (arith, fits, length-append base (b'/' ∷ path))))
          ])

      relative_names :
          (ts : List Bytes)
          → base ≡ render ts
          → All IsComponent ts
          → tokens (map forward_slash (if str_eq base root then b'/' ∷ path else joined_text))
            ≡ ts ++ tokens (map forward_slash path)
      relative_names [] e h =
          rw ((str_eq_iff base root).1 e) (unfold tokens tokens_go forward_slash in refl)
      relative_names (t ∷ ts) e h = rw (ap (λ x. str_eq x root) e ∙ render-ne-root t ts h.0) (
          ap tokens (map-append forward_slash base (b'/' ∷ path))
          ∙ tokens-append (map forward_slash base) (map forward_slash path)
          ∙ ap (λ x. x ++ tokens (map forward_slash path))
              (ap tokens (forward_slash-eq_self base v.no_backslash ∙ e)
                ∙ tokens-joined (t ∷ ts) (as_tokens (t ∷ ts) h)))

  walked :
      (names ts : List Bytes)
      → All IsComponent names
      → length names + length ts ≤ 256
      → Walk (reverse names) ts (reverse (reverse (resolve_go [] (names ++ ts))))
  walked names ts h k =
      rw
        (
          reverse-reverse (resolve_go [] (names ++ ts)),
          resolve_go-names names [] ts h (omega arith),
          append-nil (reverse names),
        )
        (resolve_go-Walk ts (reverse names) (omega (arith, length-reverse names)))

  -- For a path that fits into the buffers (together with the current directory 1022 bytes, and 256
  -- names), the result is the directory that one reaches by walking the path, from the root if it
  -- begins with a slash and else from the current directory, where "." stays, ".." goes up and stays
  -- at the root, and other names go down; it is accepted exactly if its text is.
  pub resolve_virtual-Walk :
      length v.names + length (tokens (map forward_slash path)) ≤ 256
      → (names : List Bytes) × Walk
          (reverse (start_names v.names path))
          (tokens (map forward_slash path))
          (reverse names)
        × (resolve_virtual base path ≡ check_path (render names))
  resolve_virtual-Walk few = (
    found base path,
    subst
        (λ x.
          Walk (reverse (start_names v.names path)) (tokens (map forward_slash path))
            (reverse (reverse (resolve_go [] x))))
        (sym (tokens-normalized (absolute_text base path) ∙ text_names))
        (from_start (is_absolute path)),
    resolve_virtual-eq base path (virtual_absolute v),
  )
    where
      from_start :
          (b : Bool)
          → Walk (reverse (if b then [] else v.names)) (tokens (map forward_slash path)) (
              reverse (
                reverse
                  (resolve_go [] ((if b then [] else v.names) ++ tokens (map forward_slash path)))))
      from_start true = walked [] (tokens (map forward_slash path)) tt (omega (arith, few))
      from_start false = walked v.names (tokens (map forward_slash path)) v.components few
