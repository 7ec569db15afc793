-- ===== src/Session/Access/Confined.antt =====
-- What `session_check_path_access` and `session_resolve_path` let a session reach.

use simple_ftp.Base.{
  ℕ, ◌<◌, ◌≡◌, refl, sym, ap, subst, ◌∙◌, true, false, some, some_inj, List, [], ◌∷◌, ◌++◌,
  append-nil, leb, ◌==◌, length, All, Bool-cases, Option-cases, &&-true, inl, inr, arith,
}
use simple_ftp.CString.{Bytes, starts_with}
use simple_ftp.CString.Laws.{starts_with_split}
use simple_ftp.CString.Tokens.{tokens, tokens-append}
use simple_ftp.Auth.{Permissions, permits}
use simple_ftp.Filesys.{join_path, join_text}
use simple_ftp.Session.Path.{root, is_absolute, skip_first, resolve_virtual}
use simple_ftp.Session.Path.Walk.{IsComponent}
use simple_ftp.Session.Path.Stack.{render}
use simple_ftp.Session.Path.Confined.{IsVirtual, resolve_virtual-IsVirtual}
use simple_ftp.Session.State.{Session}
use simple_ftp.Session.Access.{is_admin, ends_name, within_home, check_path_access, resolve_path}

ends_name-append : (home rest : Bytes) → ends_name (length home) (home ++ rest) ≡ ends_name 0 rest
unfolding ends_name
ends_name-append [] rest = refl
ends_name-append (c ∷ home) rest = ends_name-append home rest

-- A path within a home directory has the names of the home directory first.
within_home-tokens :
    (home r : Bytes)
    → (length home == 0) ≡ false
    → within_home home r ≡ true
    → (extra : List Bytes) × (tokens r ≡ tokens home ++ extra)
unfolding within_home ends_name
within_home-tokens [] r k h = absurd (cc k)
within_home-tokens (c ∷ home) r k h =
    let (prefix, at_end) = &&-true (starts_with (c ∷ home) r) (ends_name (length (c ∷ home)) r) h in
    let (rest, split) = starts_with_split (c ∷ home) r prefix in
    let ended : ends_name 0 rest ≡ true =
      sym (ends_name-append (c ∷ home) rest)
      ∙ subst (λ x. ends_name (length (c ∷ home)) x ≡ true) split at_end in
    of_rest rest split ended
  where
    of_rest :
        (rest : Bytes)
        → r ≡ (c ∷ home) ++ rest
        → ends_name 0 rest ≡ true
        → (extra : List Bytes) × (tokens r ≡ tokens (c ∷ home) ++ extra)
    of_rest [] e h =
        ([], ap tokens (e ∙ append-nil (c ∷ home)) ∙ sym (append-nil (tokens (c ∷ home))))
    of_rest (d ∷ rest) e h =
        let slash : d ≡ b'/' = ground (arith, h) in
        (
          tokens rest,
          ap tokens (e ∙ ap (λ x. (c ∷ home) ++ x ∷ rest) slash) ∙ tokens-append (c ∷ home) rest,
        )

-- What a granted access says of the path.
module _ (s : Session) (path : Bytes) (required : Permissions)
    (absolute : is_absolute s.current_dir ≡ true) (plain : is_admin s ≡ false)
    (granted : check_path_access path required s ≡ true) where
  granted_parts :
      (s.authenticated ≡ true)
      × (permits s.permissions required ≡ true)
      × (r : Bytes) × (resolve_virtual s.current_dir path ≡ some r)
      × (within_home s.user_home_dir r ≡ true)
  unfolding check_path_access
  granted_parts = elim (Bool-cases s.authenticated) [
    | inr out ↦ absurd (cc (rw out at granted))
    | inl logged ↦ elim (Bool-cases (permits s.permissions required)) [
      | inr lacks ↦ absurd (cc (rw (logged, plain, lacks) at granted))
      | inl has ↦ elim (Option-cases (resolve_virtual s.current_dir path)) [
        | inl invalid ↦ absurd (cc (rw (logged, plain, has, invalid) at granted))
        | inr (r, e) ↦ (logged, has, r, e, rw (logged, plain, has, e) at granted)
      ]
    ]
  ]

  -- If `session_check_path_access` lets a session that is not an administrator's and that has a home
  -- directory reach a path, from an absolute current directory, then the session is logged in and has
  -- the permission, and the path means a path without "..", "." and empty names whose first names are
  -- those of the home directory.
  pub check_path_access-confined :
      (length s.user_home_dir == 0) ≡ false
      → (s.authenticated ≡ true)
        × (permits s.permissions required ≡ true)
        × (r : Bytes) × (resolve_virtual s.current_dir path ≡ some r)
        × IsVirtual r
        × (extra : List Bytes) × (tokens r ≡ tokens s.user_home_dir ++ extra)
  check_path_access-confined home =
      let (logged, has, r, e, within) = granted_parts in
      let (extra, below) = within_home-tokens s.user_home_dir r home within in
      (logged, has, r, e, resolve_virtual-IsVirtual s.current_dir path absolute e, extra, below)

  -- A session that is not an administrator's and has "/" as its home directory, as the server gives
  -- to anonymous users, is let into no path but "/" itself.
  pub check_path_access-root_home :
      s.user_home_dir ≡ root → resolve_virtual s.current_dir path ≡ some root
  unfolding within_home ends_name starts_with
  check_path_access-root_home home =
      let (logged, has, r, e, within) = granted_parts in
      let v = resolve_virtual-IsVirtual s.current_dir path absolute e in
      e
      ∙ ap some (
          v.spelled
          ∙ only_root v.names v.components (
              subst (λ x. within_home root x ≡ true) v.spelled
                (subst (λ x. within_home x r ≡ true) home within)))
    where
      only_root :
          (names : List Bytes)
          → All IsComponent names
          → within_home root (render names) ≡ true
          → render names ≡ root
      only_root [] a h = refl
      only_root ([] ∷ ts) a h = absurd (a.0.0.0 refl)
      only_root ((c ∷ t) ∷ ts) a h = absurd (a.0.0.1.0 (ground (arith, h)))

pub join_path-inv :
    (size : ℕ) (dir name : Bytes) {out : Bytes}
    → join_path size dir name ≡ some out
    → (out ≡ join_text dir name) × (length out < size)
unfolding join_path
join_path-inv size dir name h = elim (Bool-cases (size == 0)) [
  | inl nothing ↦ absurd (cc (rw nothing at h))
  | inr room ↦ elim (Bool-cases (leb size (length (join_text dir name)))) [
    | inl long ↦ absurd (cc (rw (room, long) at h))
    | inr fits ↦
        let e : join_text dir name ≡ _ = some_inj (rw (room, fits) at h) in
        (sym e, subst (λ x. length x < size) e (ground (arith, fits)))
  ]
]

-- From an absolute current directory, `session_resolve_path` gives a path of the file system that is the
-- session's root directory with a path behind it that has no "..", "." or empty names.
pub resolve_path-confined :
    (s : Session) (relative : Bytes) (buffer_size : ℕ) (out : Bytes)
    → is_absolute s.current_dir ≡ true
    → resolve_path relative buffer_size s ≡ some out
    → (r : Bytes) × (resolve_virtual s.current_dir relative ≡ some r)
      × IsVirtual r
      × (out ≡ join_text s.root_dir (skip_first r))
      × (length out < buffer_size)
unfolding resolve_path join_path
resolve_path-confined s relative buffer_size out absolute h = elim (Bool-cases (buffer_size == 0)) [
  | inl no_room ↦ absurd (cc (rw no_room at h))
  | inr room ↦ elim (Option-cases (resolve_virtual s.current_dir relative)) [
    | inl invalid ↦ absurd (cc (rw (room, invalid) at h))
    | inr (r, e) ↦
        let (same, fits) =
          join_path-inv buffer_size s.root_dir (skip_first r) (rw (room, e) at h) in
        (r, e, resolve_virtual-IsVirtual s.current_dir relative absolute e, same, fits)
  ]
]
