-- ===== src/Handlers/Authorised.antt =====
-- Which calls of the handlers that change the file system or start a transfer a session may make, and a
-- property of the world that says so of all that it has made.

use simple_ftp.Base.{
  ◌-◌, ◌<◌, ◌≤◌, ◌≡◌, sym, ap, subst, ◌∙◌, Bool, true, false, not, ◌&&◌, ◌||◌, some, some_inj, List,
  [], ◌∷◌, ◌==◌, if◌then◌else◌, length, All, take-eq_self, Bool-cases, inl, inr, arith,
}
use simple_ftp.CString.{Bytes, strncpy}
use simple_ftp.Auth.{Permissions, perm_admin, perm_rename, permits, bit_and}
use simple_ftp.Filesys.{join_text}
use simple_ftp.Session.Path.{max_path, is_absolute, skip_first, resolve_virtual}
use simple_ftp.Session.Path.Confined.{IsVirtual}
use simple_ftp.Session.Path.Stable.{virtual_absolute}
use simple_ftp.Session.State.{Session, set_rename_from, get_rename_from, clear_rename_state}
use simple_ftp.Session.Access.{
  is_admin, within_home, check_path_access, resolve_path, change_directory,
}
use simple_ftp.Session.Access.Confined.{resolve_path-confined}
use simple_ftp.Session.Access.Directory.{change_directory-Moved}
use simple_ftp.Session.Calls.{HasHomes}
use simple_ftp.Handlers.{Platform, FileCall, call_of, perform, Action, Change, World, modify}
use simple_ftp.Handlers.Keeps.{IsNeutral, Standing, Undisturbed, Needs, Keeps, Laws}

-- What decides which paths a session may use.
pub record Credentials : Type 0 where
  pub authenticated : Bool
  pub permissions : Permissions
  pub root_dir : Bytes
  pub user_home_dir : Bytes

abbrev pub credentials : Session → Credentials
credentials s = record {
  authenticated = s.authenticated;
  permissions = s.permissions;
  root_dir = s.root_dir;
  user_home_dir = s.user_home_dir;
}

-- An administrator holds every permission everywhere, another user those granted, in the home directory.
abbrev pub holds : Credentials → Permissions → Bytes → Bool
holds c required r =
    not (bit_and 32 c.permissions perm_admin == 0)
    || (permits c.permissions required && within_home c.user_home_dir r)

-- A path of the file system to which a permission extends.
pub record Allowed (c : Credentials) (required : Permissions) (path : Bytes) : Type 0 where
  pub place : Bytes
  pub virtual : IsVirtual place
  pub below_root : path ≡ join_text c.root_dir (skip_first place)
  pub fits : length path < max_path
  pub logged_in : c.authenticated ≡ true
  pub held : holds c required place ≡ true

-- A change below the given root, for which the session that makes it has the permission.
abbrev pub Authorised : Bytes → Change → Type 0
Authorised root change =
    (change.session.root_dir ≡ root)
    × Needs (Allowed (credentials change.session)) change.action change.path

-- The calls of these changes, with the last one first.
abbrev pub calls_of : List Change → List FileCall
calls_of [] = []
calls_of (c ∷ cs) = call_of c.action c.path ∷ calls_of cs

-- A record that the operating system keeps of the calls on its files, with the last one first.
pub record Records {E : Type 0} (sys : Platform E) (log : E → List FileCall) : Type 0 where
  pub neutral : IsNeutral sys (λ d e. log e ≡ log d)
  pub called : (call : FileCall) (e : E) → log (perform sys call e).1 ≡ call ∷ log e

pub record Good {E : Type 0} (log : E → List FileCall) (root : Bytes) (c : Credentials)
    (w : World E) : Type 0 where
  pub same : credentials w.session ≡ c
  pub rooted : c.root_dir ≡ root
  pub placed : is_absolute w.session.current_dir ≡ true
  pub pending : w.session.rename_pending ≡ true → Allowed c perm_rename w.session.rename_from
  pub homes : HasHomes (λ p. true) w.auth
  pub changes : All (Authorised root) w.changes
  pub logged : log w.env ≡ calls_of w.changes

check-holds :
    (s : Session) (argument r : Bytes) (required : Permissions)
    → resolve_virtual s.current_dir argument ≡ some r
    → check_path_access argument required s ≡ true
    → (s.authenticated ≡ true) × (holds (credentials s) required r ≡ true)
unfolding check_path_access is_admin
check-holds s argument r required e h = elim (Bool-cases s.authenticated) [
  | inr stranger ↦ absurd (cc (rw (check_path_access, stranger) at h))
  | inl user ↦ (user, of_admin user (rw (check_path_access, user, e) at h))
]
  where
    of_admin :
        s.authenticated ≡ true
        → (if not (bit_and 32 s.permissions perm_admin == 0)
            then true
            else if not (permits s.permissions required)
            then false
            else within_home s.user_home_dir r)
          ≡ true
        → holds (credentials s) required r ≡ true
    of_admin user k = ground (arith, k)

module _ (c : Credentials) where
  cut-Allowed :
      (required : Permissions) (path : Bytes)
      → Allowed c required path
      → Allowed c required (strncpy max_path path)
  cut-Allowed required path a =
      subst (Allowed c required) (sym (take-eq_self (max_path - 1) path (cut_fits a.fits))) a
    where
      cut_fits : length path < 1024 → length path ≤ 1023
      cut_fits h = omega arith

module _ {E : Type 0} (sys : Platform E) (log : E → List FileCall) (records : Records sys log)
    (root : Bytes) (c : Credentials) where
  kept-Good :
      (w : World E) (s : Session)
      → Undisturbed w.session s
      → Good log root c w
      → Good log root c (record w { session = s })
  kept-Good w s u h = record {
    same =
        ap
          (λ (x : Standing). record {
            authenticated = x.authenticated;
            permissions = x.permissions;
            root_dir = x.root_dir;
            user_home_dir = x.user_home_dir;
          })
          u
        ∙ h.same;
    rooted = h.rooted;
    placed = ap (λ (x : Standing). is_absolute x.current_dir) u ∙ h.placed;
    pending = λ p.
        subst (Allowed c perm_rename) (sym (ap (λ (x : Standing). x.rename_from) u))
          (h.pending (sym (ap (λ (x : Standing). x.rename_pending) u) ∙ p));
    homes = h.homes;
    changes = h.changes;
    logged = h.logged;
  }

  granted-Good :
      (w : World E) (argument : Bytes) (required : Permissions) (path : Bytes)
      → Good log root c w
      → check_path_access argument required w.session ≡ true
      → resolve_path argument max_path w.session ≡ some path
      → Allowed c required path
  granted-Good w argument required path h allowed resolved =
      let (r, e, virtual, same, fits) =
        resolve_path-confined w.session argument max_path path h.placed resolved in
      let (user, held) = check-holds w.session argument r required e allowed in
      subst (λ x. Allowed x required path) h.same
        (record {
          place = r;
          virtual = virtual;
          below_root = same;
          fits = fits;
          logged_in = user;
          held = held;
        })

  source-Good :
      (w : World E) (path : Bytes)
      → Good log root c w
      → get_rename_from max_path w.session ≡ some path
      → Allowed c perm_rename path
  unfolding get_rename_from
  source-Good w path h e = elim (Bool-cases w.session.rename_pending) [
    | inr idle ↦ absurd (cc (rw (get_rename_from, idle) at e))
    | inl pending ↦
        subst (Allowed c perm_rename) (some_inj (rw (get_rename_from, pending) at e))
          (cut-Allowed c perm_rename w.session.rename_from (h.pending pending))
  ]

  cleared-Good :
      (w : World E)
      → Good log root c w
      → Good log root c (record w { session = clear_rename_state w.session })
  unfolding clear_rename_state
  cleared-Good w h = record {
    same = h.same;
    rooted = h.rooted;
    placed = h.placed;
    pending = λ p. absurd (cc p);
    homes = h.homes;
    changes = h.changes;
    logged = h.logged;
  }

  moved-Good :
      (w : World E) (is_directory : Bytes → Bool) (path : Bytes) (s : Session)
      → Good log root c w
      → change_directory is_directory path w.session ≡ some s
      → Good log root c (record w { session = s })
  moved-Good w is_directory path s h e =
      let moved = change_directory-Moved is_directory path w.session h.placed e in
      subst (λ (x : Session). Good log root c (record w { session = x })) (sym moved.only)
        (record {
          same = h.same;
          rooted = h.rooted;
          placed = virtual_absolute moved.virtual;
          pending = h.pending;
          homes = h.homes;
          changes = h.changes;
          logged = h.logged;
        })

  changed-Good :
      (w : World E) (action : Action) (path : Bytes)
      → Needs (Allowed c) action path
      → Good log root c w
      → Good log root c (record w {
        env = (perform sys (call_of action path) w.env).1;
        changes = record { action = action; path = path; session = w.session } ∷ w.changes;
      })
  changed-Good w action path n h = record {
    same = h.same;
    rooted = h.rooted;
    placed = h.placed;
    pending = h.pending;
    homes = h.homes;
    changes = (
      (
        ap (λ (x : Credentials). x.root_dir) h.same ∙ h.rooted,
        subst (λ (x : Credentials). Needs (Allowed x) action path) (sym h.same) n,
      ),
      h.changes,
    );
    logged =
        records.called (call_of action path) w.env ∙ ap (λ cs. call_of action path ∷ cs) h.logged;
  }

  pub laws-Good : Laws sys (Good log root c) (Allowed c)
  laws-Good = record {
    Same = λ d e. log e ≡ log d;
    neutral = records.neutral;
    outside = λ w e o t m h. record {
      same = h.same;
      rooted = h.rooted;
      placed = h.placed;
      pending = h.pending;
      homes = h.homes;
      changes = h.changes;
      logged = m ∙ h.logged;
    };
    granted = granted-Good;
    cut = cut-Allowed c;
    source = source-Good;
    kept = kept-Good;
    cleared = cleared-Good;
    moved = moved-Good;
    changed = changed-Good;
  }

  pub stored-Good :
      (path : Bytes)
      → Allowed c perm_rename path
      → Keeps {E = E} (Good log root c) (modify (set_rename_from path))
  unfolding Keeps modify set_rename_from
  stored-Good path a w h = record {
    same = h.same;
    rooted = h.rooted;
    placed = h.placed;
    pending = λ p. cut-Allowed c perm_rename path a;
    homes = h.homes;
    changes = h.changes;
    logged = h.logged;
  }
