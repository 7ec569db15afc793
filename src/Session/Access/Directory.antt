-- ===== src/Session/Access/Directory.antt =====
-- What a successful `session_change_directory` has done.

use simple_ftp.Base.{
  ◌≡◌, sym, ap, ◌∙◌, Bool, true, false, not, none, some, some_inj, if◌then◌else◌, take-eq_self,
  Bool-cases, Option-cases, inl, inr, arith,
}
use simple_ftp.CString.{Bytes, strncpy}
use simple_ftp.Auth.{Permissions, permits, perm_read}
use simple_ftp.Filesys.{join_path}
use simple_ftp.Session.Path.{max_path, is_absolute, skip_first, resolve_virtual}
use simple_ftp.Session.Path.Confined.{IsVirtual, resolve_virtual-IsVirtual}
use simple_ftp.Session.Path.Stable.{resolve_virtual-eq_self}
use simple_ftp.Session.State.{Session}
use simple_ftp.Session.Access.{
  is_admin, within_home, check_path_access, enter_directory, change_directory,
}

-- A path and what it means are let in alike.
access-resolved :
    (s : Session) (path : Bytes) (required : Permissions) {r : Bytes}
    → is_absolute s.current_dir ≡ true
    → resolve_virtual s.current_dir path ≡ some r
    → check_path_access r required s ≡ check_path_access path required s
unfolding check_path_access
access-resolved s path required {r} absolute e =
    ap
      (λ o.
        if not s.authenticated
        then false
        else if is_admin s
        then true
        else if not (permits s.permissions required)
        then false
        else elim o [ none ↦ false | some normalized ↦ within_home s.user_home_dir normalized ])
      (resolve_virtual-eq_self (resolve_virtual-IsVirtual s.current_dir path absolute e)
          s.current_dir
        ∙ sym e)

-- What holds after a change of the directory from `s` to `after`.
pub record Moved (is_directory : Bytes → Bool) (path : Bytes) (s after : Session) : Type 0 where
  pub target : Bytes
  pub place : Bytes
  pub means : resolve_virtual s.current_dir path ≡ some target
  pub virtual : IsVirtual target
  pub allowed : check_path_access path perm_read s ≡ true
  pub reached : join_path max_path s.root_dir (skip_first target) ≡ some place
  pub exists : is_directory place ≡ true
  pub only : after ≡ record s { current_dir = target }

-- If `session_change_directory` succeeds, from an absolute current directory, then the path means a
-- virtual path to which the session has read access and at which the file system has a directory, and
-- the session is as before with that path, uncut, as its current directory.
pub change_directory-Moved :
    (is_directory : Bytes → Bool) (path : Bytes) (s : Session) {after : Session}
    → is_absolute s.current_dir ≡ true
    → change_directory is_directory path s ≡ some after
    → Moved is_directory path s after
unfolding change_directory enter_directory
change_directory-Moved is_directory path s {after} absolute h =
    elim (Option-cases (resolve_virtual s.current_dir path)) [
      | inl invalid ↦ absurd (cc (rw (change_directory, invalid) at h))
      | inr (r, e) ↦ elim (Bool-cases (check_path_access r perm_read s)) [
        | inr denied ↦ absurd (cc (rw (change_directory, e, denied) at h))
        | inl allowed ↦ elim (Option-cases (join_path max_path s.root_dir (skip_first r))) [
          | inl long ↦ absurd (cc (rw (change_directory, e, allowed, enter_directory, long) at h))
          | inr (place, joined) ↦ elim (Bool-cases (is_directory place)) [
            | inr missing ↦
                absurd
                  (cc (rw (change_directory, e, allowed, enter_directory, joined, missing) at h))
            | inl there ↦
                moved r place e allowed joined there (
                  some_inj (rw (change_directory, e, allowed, enter_directory, joined, there) at h))
          ]
        ]
      ]
    ]
  where
    moved :
        (r place : Bytes)
        → resolve_virtual s.current_dir path ≡ some r
        → check_path_access r perm_read s ≡ true
        → join_path max_path s.root_dir (skip_first r) ≡ some place
        → is_directory place ≡ true
        → record s { current_dir = strncpy max_path r } ≡ after
        → Moved is_directory path s after
    moved r place e allowed joined there same =
        let v = resolve_virtual-IsVirtual s.current_dir path absolute e in
        record {
          target = r;
          place = place;
          means = e;
          virtual = v;
          allowed = sym (access-resolved s path perm_read absolute e) ∙ allowed;
          reached = joined;
          exists = there;
          only =
              sym same
              ∙ ap (λ d. record s { current_dir = d })
                  (take-eq_self 1023 r (omega (arith, v.short)));
        }

-- A change of the directory leaves the rename that is pending alone.
pub change_directory-pending :
    (is_directory : Bytes → Bool) (path : Bytes) (s : Session) {after : Session}
    → change_directory is_directory path s ≡ some after
    → after.rename_pending ≡ s.rename_pending
unfolding change_directory enter_directory
change_directory-pending is_directory path s {after} h =
    elim (Option-cases (resolve_virtual s.current_dir path)) [
      | inl invalid ↦ absurd (cc (rw (change_directory, invalid) at h))
      | inr (r, means) ↦ elim (Bool-cases (check_path_access r perm_read s)) [
        | inr denied ↦ absurd (cc (rw (change_directory, enter_directory, means, denied) at h))
        | inl allowed ↦ elim (Option-cases (join_path max_path s.root_dir (skip_first r))) [
          | inl long ↦
              absurd (cc (rw (change_directory, enter_directory, means, allowed, long) at h))
          | inr (place, reached) ↦ elim (Bool-cases (is_directory place)) [
            | inr missing ↦
                absurd (
                  cc
                    (rw (change_directory, enter_directory, means, allowed, reached, missing) at h))
            | inl there ↦
                ap (λ (x : Session). x.rename_pending)
                  (sym (
                    some_inj (
                      rw (change_directory, enter_directory, means, allowed, reached, there) at h)))
          ]
        ]
      ]
    ]
