-- ===== src/Session/Calls.antt =====
-- The calls of server/src/session.c that the command handlers make on one session, in any order.

use simple_ftp.Base.{
  ℕ, suc, ◌≡◌, refl, sym, ap, subst, ◌∙◌, Bool, true, false, Option, none, some, some_inj, List, [],
  ◌∷◌, ◌==◌, length, Bool-cases, Option-cases, inl, inr, arith,
}
use simple_ftp.CString.{Bytes, strncpy}
use simple_ftp.Auth.{Auth, User, authenticate, get_user}
use simple_ftp.Filesys.{join_path, join_text}
use simple_ftp.Protocol.Types.{TransferType, TransferMode, DataStructure}
use simple_ftp.Session.Path.{max_path, is_absolute, skip_first}
use simple_ftp.Session.Path.Confined.{IsVirtual}
use simple_ftp.Session.Path.Stable.{virtual_absolute}
use simple_ftp.Session.State.{
  Session, Socket, create, reset_state, set_user, set_type, set_mode, set_structure,
  set_restart_offset, clear_restart_offset, set_rename_from, clear_rename_state, update_activity,
}
use simple_ftp.Session.Access.{
  resolve_path, change_directory, log_in, home_relative, go_home, session_authenticate,
}
use simple_ftp.Session.Access.Confined.{resolve_path-confined}
use simple_ftp.Session.Access.Directory.{change_directory-Moved}

pub data Call : Type 0 where
  user pass change rename_from : Bytes → Call
  put_type : TransferType → Call
  put_mode : TransferMode → Call
  put_structure : DataStructure → Call
  restart activity : ℕ → Call
  clear_restart clear_rename reinitialize : Call

-- The session after a call that may fail without changing it.
abbrev pub or_before : Session → Option Session → Session
or_before s none = s
or_before s (some after) = after

suc-ne-zero : (n : ℕ) → (suc n == 0) ≡ false
suc-ne-zero n = ground arith

module _ (is_directory : Bytes → Bool) (auth : Auth) where
  unfoldable pub call : Session → Call → Session
  unfolding set_user set_type set_mode set_structure set_restart_offset clear_restart_offset
      set_rename_from clear_rename_state update_activity reset_state
  call s (user name) = set_user name s
  call s (pass password) = or_before s (session_authenticate is_directory auth password s)
  call s (change path) = or_before s (change_directory is_directory path s)
  call s (rename_from path) = set_rename_from path s
  call s (put_type t) = set_type t s
  call s (put_mode m) = set_mode m s
  call s (put_structure d) = set_structure d s
  call s (restart offset) = set_restart_offset offset s
  call s (activity now) = update_activity now s
  call s clear_restart = clear_restart_offset s
  call s clear_rename = clear_rename_state s
  call s reinitialize = reset_state s

  unfoldable pub calls : Session → List Call → Session
  unfolding call
  calls s [] = s
  calls s (c ∷ cs) = calls (call s c) cs

  -- The home directory of every user is empty or begins with a slash.
  abbrev pub HasHomes : Type 0
  HasHomes =
      (n : Bytes) (u : User)
      → get_user n auth ≡ some u
      → (length u.home_dir == 0) ≡ false
      → is_absolute u.home_dir ≡ true

  abbrev pub IsPlaced : Bytes → Session → Type 0
  IsPlaced root s = (is_absolute s.current_dir ≡ true) × (s.root_dir ≡ root)

  strncpy-is_absolute : (s : Bytes) → is_absolute s ≡ true → is_absolute (strncpy max_path s) ≡ true
  unfolding is_absolute
  strncpy-is_absolute [] h = h
  strncpy-is_absolute (c ∷ s) h = h

  strncpy-empty : (s : Bytes) → (length (strncpy max_path s) == 0) ≡ false → (length s == 0) ≡ false
  strncpy-empty [] h = h
  strncpy-empty (c ∷ s) h = suc-ne-zero (length s)

  go_home-IsPlaced :
      (root : Bytes) (s : Session)
      → ((length s.user_home_dir == 0) ≡ false → is_absolute s.user_home_dir ≡ true)
      → IsPlaced root s
      → IsPlaced root (go_home is_directory s)
  unfolding go_home
  go_home-IsPlaced root s home v = elim (Bool-cases (length s.user_home_dir == 0)) [
    | inl homeless ↦ rw homeless v
    | inr homed ↦
        elim (Option-cases (join_path max_path s.root_dir (home_relative s.user_home_dir))) [
          | inl long ↦ rw (homed, long) v
          | inr (place, joined) ↦ elim (Bool-cases (is_directory place)) [
            | inl there ↦
                rw (homed, joined, there) (strncpy-is_absolute s.user_home_dir (home homed), v.1)
            | inr missing ↦ rw (homed, joined, missing) v
          ]
        ]
  ]

  pub pass-IsPlaced :
      (root password : Bytes) (s : Session)
      → HasHomes
      → IsPlaced root s
      → IsPlaced root (or_before s (session_authenticate is_directory auth password s))
  unfolding session_authenticate
  pass-IsPlaced root password s homes v =
      elim (Bool-cases (authenticate s.username password auth)) [
        | inr refused ↦ rw refused v
        | inl accepted ↦ rw accepted (elim (Option-cases (get_user s.username auth)) [
          | inl unknown ↦ rw unknown v
          | inr (u, known) ↦ rw known (
              go_home-IsPlaced root (log_in u s)
                (λ homed.
                  strncpy-is_absolute u.home_dir
                    (homes s.username u known (strncpy-empty u.home_dir homed)))
                v)
        ])
      ]

  change-IsPlaced :
      (root path : Bytes) (s : Session)
      → IsPlaced root s
      → IsPlaced root (or_before s (change_directory is_directory path s))
  change-IsPlaced root path s v = of_result (change_directory is_directory path s) refl
    where
      of_result :
          (o : Option Session)
          → change_directory is_directory path s ≡ o
          → IsPlaced root (or_before s o)
      of_result none e = v
      of_result (some after) e =
          let moved = change_directory-Moved is_directory path s v.0 e in
          subst (IsPlaced root) (sym moved.only) (virtual_absolute moved.virtual, v.1)

  call-IsPlaced :
      (root : Bytes) (s : Session) (c : Call)
      → HasHomes
      → IsPlaced root s
      → IsPlaced root (call s c)
  unfolding call is_absolute
  call-IsPlaced root s (user name) homes v = v
  call-IsPlaced root s (pass password) homes v = pass-IsPlaced root password s homes v
  call-IsPlaced root s (change path) homes v = change-IsPlaced root path s v
  call-IsPlaced root s (rename_from path) homes v = v
  call-IsPlaced root s (put_type t) homes v = v
  call-IsPlaced root s (put_mode m) homes v = v
  call-IsPlaced root s (put_structure d) homes v = v
  call-IsPlaced root s (restart offset) homes v = v
  call-IsPlaced root s (activity now) homes v = v
  call-IsPlaced root s clear_restart homes v = v
  call-IsPlaced root s clear_rename homes v = v
  call-IsPlaced root s reinitialize homes v = (refl, v.1)

  calls-IsPlaced :
      (root : Bytes) (s : Session) (cs : List Call)
      → HasHomes
      → IsPlaced root s
      → IsPlaced root (calls s cs)
  unfolding calls
  calls-IsPlaced root s [] homes v = v
  calls-IsPlaced root s (c ∷ cs) homes v =
      calls-IsPlaced root (call s c) cs homes (call-IsPlaced root s c homes v)

-- Whatever calls a client's commands make on a new session, `session_resolve_path` gives only paths
-- that are the root directory given to `session_create`, with a path behind it that has no "..", "." or
-- empty names, provided that every user's home directory is empty or begins with a slash.
pub calls-confined :
    (is_directory : Bytes → Bool) (auth : Auth) (socket : Socket) (client_ip : Bytes)
    (client_port : ℕ) (root : Bytes) (bind : Option Bytes) (now : ℕ) {s : Session}
    → HasHomes is_directory auth
    → create is_directory socket client_ip client_port root bind now ≡ some s
    → (cs : List Call) (relative : Bytes) (size : ℕ) (out : Bytes)
    → resolve_path relative size (calls is_directory auth s cs) ≡ some out
    → (r : Bytes) × IsVirtual r × (out ≡ join_text (strncpy max_path root) (skip_first r))
unfolding create reset_state is_absolute
calls-confined is_directory auth socket client_ip client_port root bind now {s} homes made cs
      relative size out h =
    let v =
      calls-IsPlaced is_directory auth (strncpy max_path root) s cs homes (created socket made) in
    let (r, e, virtual, same, fits) =
      resolve_path-confined (calls is_directory auth s cs) relative size out v.0 h in
    (r, virtual, same ∙ ap (λ d. join_text d (skip_first r)) v.1)
  where
    created :
        (k : Socket)
        → create is_directory k client_ip client_port root bind now ≡ some s
        → (is_absolute s.current_dir ≡ true) × (s.root_dir ≡ strncpy max_path root)
    created none e = absurd (cc e)
    created (some n) e = elim (Bool-cases (is_directory (strncpy max_path root))) [
      | inr missing ↦ absurd (cc (rw missing at e))
      | inl there ↦
          subst
            (λ (x : Session).
              (is_absolute x.current_dir ≡ true) × (x.root_dir ≡ strncpy max_path root))
            (some_inj (rw there at e)) (refl, refl)
    ]
