-- ===== src/Session/Path/Stable.antt =====
-- Resolving the result of `normalize_and_validate_path` again changes nothing.
use simple_ftp.Base.{
  ◌≡◌, refl, sym, ap, ◌∙◌, true, false, some, List, [], ◌∷◌, append-nil, map, reverse,
  reverse-reverse, take-eq_self, All, arith,
}
use simple_ftp.CString.{Bytes, codes, contains}
use simple_ftp.CString.Tokens.{tokens, tokens_go, IsToken, tokens-joined}
use simple_ftp.CString.Scan.{◌>>=◌}
use simple_ftp.Protocol.PathText.{validate_path, has_refused, forward_slash, normalize_path}
use simple_ftp.Protocol.PathText.Laws.{tokens-normalized, forward_slash-eq_self}
use simple_ftp.Session.Path.{
  max_path, root, is_absolute, absolute_text, resolve_go, build_path, skip_first, check_path,
  resolve_virtual,
}
use simple_ftp.Session.Path.Walk.{IsComponent, resolve_go-names}
use simple_ftp.Session.Path.Stack.{render}
use simple_ftp.Session.Path.Confined.{IsVirtual, resolve_virtual-eq}

pub as_tokens : (ts : List Bytes) → All IsComponent ts → All IsToken ts
as_tokens [] h = tt
as_tokens (t ∷ ts) h = (h.0.0, as_tokens ts h.1)

pub tokens-render : (ts : List Bytes) → All IsComponent ts → tokens (render ts) ≡ ts
tokens-render [] h = unfold tokens tokens_go in refl
tokens-render (t ∷ ts) h = tokens-joined (t ∷ ts) (as_tokens (t ∷ ts) h)

module _ {r : Bytes} (v : IsVirtual r) where
  pub virtual_tokens : tokens (map forward_slash r) ≡ v.names
  virtual_tokens =
      ap tokens (forward_slash-eq_self r v.no_backslash ∙ v.spelled)
      ∙ tokens-render v.names v.components

  pub virtual_absolute : is_absolute r ≡ true
  unfolding is_absolute
  virtual_absolute = rw v.spelled (of_names v.names)
    where
      of_names : (ts : List Bytes) → is_absolute (render ts) ≡ true
      of_names [] = refl
      of_names (t ∷ ts) = refl

  virtual_valid : validate_path (skip_first r) ≡ true
  unfolding validate_path contains has_refused
  virtual_valid = of_tail r v.no_dot_dot v.printable virtual_absolute
    where
      of_tail :
          (s : Bytes)
          → contains (codes "..") s ≡ false
          → has_refused s ≡ false
          → is_absolute s ≡ true
          → validate_path (skip_first s) ≡ true
      of_tail [] h k a = refl
      of_tail (c ∷ []) h k a = refl
      of_tail (c ∷ d ∷ s) h k a = ground arith

  virtual_checked : check_path r ≡ some r
  unfolding check_path
  virtual_checked = rw virtual_valid

  virtual_found : reverse (resolve_go [] v.names) ≡ v.names
  unfolding resolve_go
  virtual_found =
      ap reverse (
        ap (resolve_go []) (sym (append-nil v.names))
        ∙ resolve_go-names v.names [] [] v.components (omega (arith, v.few))
        ∙ append-nil (reverse v.names))
      ∙ reverse-reverse v.names

  virtual_text : (base : Bytes) → absolute_text base r ≡ r
  unfolding absolute_text
  virtual_text base = rw virtual_absolute (take-eq_self 1023 r (omega (arith, v.short)))

  any_base : (base : Bytes) → resolve_virtual base r ≡ resolve_virtual root r
  unfolding resolve_virtual
  any_base base =
      ap
        (λ x. do
          temp ← normalize_path x max_path
          check_path (build_path (reverse (resolve_go [] (tokens temp)))))
        (virtual_text base ∙ sym (virtual_text root))

  -- A path of the virtual file system is resolved to itself, from whatever directory: the handlers
  -- and `session_check_path_access` may resolve a result once more.
  pub resolve_virtual-eq_self : (base : Bytes) → resolve_virtual base r ≡ some r
  unfolding is_absolute
  resolve_virtual-eq_self base =
      any_base base
      ∙ resolve_virtual-eq root r refl
      ∙ ap (λ x. check_path (render (reverse (resolve_go [] x))))
          (tokens-normalized (absolute_text root r)
            ∙ ap (λ x. tokens (map forward_slash x)) (virtual_text root)
            ∙ virtual_tokens)
      ∙ ap (λ x. check_path (render x)) virtual_found
      ∙ ap check_path (sym v.spelled)
      ∙ virtual_checked
