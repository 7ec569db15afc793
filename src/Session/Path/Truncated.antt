-- ===== src/Session/Path/Truncated.antt =====
-- What the array of 256 components does to a longer path.
use simple_ftp.Base.{
  ◌≤◌, ◌<◌, ◌≡◌, refl, sym, ap, ◌∙◌, true, List, [], ◌∷◌, ◌++◌, append-nil, map, reverse,
  reverse-reverse, length, length-reverse, take-eq_self, All, All-append, arith,
}
use simple_ftp.CString.{Bytes}
use simple_ftp.CString.Tokens.{tokens, IsToken, tokens-joined, joined}
use simple_ftp.Protocol.PathText.{forward_slash}
use simple_ftp.Protocol.PathText.Forms.{NoBackslash}
use simple_ftp.Protocol.PathText.Laws.{tokens-normalized, forward_slash-eq_self}
use simple_ftp.Session.Path.{
  max_path, is_absolute, absolute_text, resolve_go, check_path, resolve_virtual,
}
use simple_ftp.Session.Path.Walk.{IsComponent, resolve_go-names}
use simple_ftp.Session.Path.Stack.{render}
use simple_ftp.Session.Path.Confined.{resolve_virtual-eq}
use simple_ftp.Session.Path.Stable.{as_tokens}

resolve_go-full : (ts cs : List Bytes) → 256 ≤ length cs → resolve_go cs ts ≡ cs
unfolding resolve_go
resolve_go-full [] cs h = refl
resolve_go-full (t ∷ ts) cs h = ground arith

-- A path from the root, of which each name stands for itself or is a token at least.
module _ (base : Bytes) (a : is_absolute base ≡ true) (names : List Bytes)
    (h : All IsComponent names) where
  found-joined :
      (ts : List Bytes)
      → All IsToken ts
      → is_absolute (joined (names ++ ts)) ≡ true
      → NoBackslash (joined (names ++ ts))
      → length (joined (names ++ ts)) < max_path
      → resolve_virtual base (joined (names ++ ts))
        ≡ check_path (render (reverse (resolve_go [] (names ++ ts))))
  found-joined ts k b n l =
      resolve_virtual-eq base path a
      ∙ ap (λ x. check_path (render (reverse (resolve_go [] x))))
          (tokens-normalized (absolute_text base path)
            ∙ ap (λ x. tokens (map forward_slash x)) text
            ∙ ap tokens (forward_slash-eq_self path n)
            ∙ tokens-joined (names ++ ts) (All-append IsToken names ts (as_tokens names h) k))
    where
      path : Bytes
      path = joined (names ++ ts)

      text : absolute_text base path ≡ path
      text = unfold absolute_text in rw b (take-eq_self 1023 path (omega (arith, l)))

  dropped :
      (ts : List Bytes)
      → length names ≡ 256
      → reverse (resolve_go [] (names ++ ts)) ≡ reverse (reverse names ++ [])
  dropped ts full = ap reverse (
      resolve_go-names names [] ts h (omega (arith, full))
      ∙ ap (λ x. resolve_go x ts) (append-nil (reverse names))
      ∙ resolve_go-full ts (reverse names) (omega (arith, full, length-reverse names))
      ∙ sym (append-nil (reverse names)))

  -- Of an absolute path without a backslash that is shorter than 1024 bytes, whose first 256 names are
  -- ordinary ones (none is empty, "." or ".."), the names from the 257th on are dropped in silence, ".."
  -- among them: the path is resolved as its first 256 names alone are.
  pub resolve_virtual-drops :
      (ts : List Bytes)
      → length names ≡ 256
      → All IsToken ts
      → NoBackslash (joined (names ++ ts))
      → length (joined (names ++ ts)) < max_path
      → resolve_virtual base (joined (names ++ ts)) ≡ check_path (render names)
  unfolding is_absolute
  resolve_virtual-drops ts full k n l =
      found-joined ts k (starts names full) n l
      ∙ ap (λ x. check_path (render x))
          (dropped ts full ∙ ap reverse (append-nil (reverse names)) ∙ reverse-reverse names)
    where
      starts : (xs : List Bytes) → length xs ≡ 256 → is_absolute (joined (xs ++ ts)) ≡ true
      starts [] e = absurd (omega arith)
      starts (x ∷ xs) e = refl
