-- ===== src/Session/Access/Login.antt =====
-- What `session_authenticate` does to a session.

use simple_ftp.Base.{
  ◌≡◌, refl, sym, ap, ◌∙◌, ◌⊎◌, not, ◌&&◌, if◌then◌else◌, Option, none, false, Bool, true, some,
  some_inj, ◌==◌, length, Bool-cases, Option-cases, inl, inr,
}
use simple_ftp.CString.{Bytes, strncpy}
use simple_ftp.Auth.{Auth, User, authenticate, get_user}
use simple_ftp.Auth.Users.{authenticate-get_user}
use simple_ftp.Filesys.{join_path}
use simple_ftp.Session.Path.{max_path}
use simple_ftp.Session.State.{Session, authenticated_state}
use simple_ftp.Session.Access.{log_in, home_relative, go_home, session_authenticate}

go_home-cases :
    (is_directory : Bytes → Bool) (s : Session)
    → (go_home is_directory s ≡ s)
      ⊎ (go_home is_directory s ≡ record s { current_dir = strncpy max_path s.user_home_dir })
unfolding go_home
go_home-cases is_directory s = elim (Bool-cases (length s.user_home_dir == 0)) [
  | inl homeless ↦ inl (rw homeless refl)
  | inr home ↦ elim (Option-cases (join_path max_path s.root_dir (home_relative s.user_home_dir))) [
    | inl long ↦ inl (rw (home, long) refl)
    | inr (place, joined) ↦ elim (Bool-cases (is_directory place)) [
      | inl there ↦ inr (rw (home, joined, there) refl)
      | inr missing ↦ inl (rw (home, joined, missing) refl)
    ]
  ]
]

-- Whether the user has a home directory, and it is a directory below the root.
abbrev pub has_place : (Bytes → Bool) → Bytes → Bytes → Bool
has_place is_directory root home =
    not (length home == 0) && elim (join_path max_path root (home_relative home)) [
      | none ↦ false
      | some p ↦ is_directory p
    ]

-- The session after a login as `user`: what has changed is logged in, its state, its permissions, its
-- home directory and, where there is a place for it, its current directory.
abbrev pub logged_in_as : (Bytes → Bool) → User → Session → Session
logged_in_as is_directory user s =
    let home = strncpy max_path user.home_dir in
    record s {
      authenticated = true;
      state = authenticated_state;
      permissions = user.permissions;
      user_home_dir = home;
      current_dir =
          if has_place is_directory s.root_dir home then strncpy max_path home else s.current_dir;
    }

go_home-logged_in_as :
    (is_directory : Bytes → Bool) (user : User) (s : Session)
    → go_home is_directory (log_in user s) ≡ logged_in_as is_directory user s
unfolding go_home
go_home-logged_in_as is_directory user s =
    elim (Bool-cases (length (strncpy max_path user.home_dir) == 0)) [
      | inl homeless ↦ rw homeless refl
      | inr home ↦
          of_place home
            (join_path max_path s.root_dir (home_relative (strncpy max_path user.home_dir))) refl
    ]
  where
    of_place :
        (length (strncpy max_path user.home_dir) == 0) ≡ false
        → (o : Option Bytes)
        → join_path max_path s.root_dir (home_relative (strncpy max_path user.home_dir)) ≡ o
        → go_home is_directory (log_in user s) ≡ logged_in_as is_directory user s
    of_place home none long = rw (home, long) refl
    of_place home (some place) joined = elim (Bool-cases (is_directory place)) [
      | inl there ↦ rw (home, joined, there) refl
      | inr missing ↦ rw (home, joined, missing) refl
    ]

-- `session_authenticate` fails exactly if `auth_authenticate` refuses the session's name with the
-- password. Otherwise the module of users has a user under that name, and the session afterwards is
-- logged in with the user's permissions and home directory (its first 1023 bytes), has the home
-- directory as its current one if there is one and it is a directory below the root, and is in all
-- else as before, its current directory included where there is no such place.
pub session_authenticate-cases :
    (is_directory : Bytes → Bool) (auth : Auth) (password : Bytes) (s : Session)
    → ((authenticate s.username password auth ≡ false)
        × (session_authenticate is_directory auth password s ≡ none))
      ⊎ ((user : User) × (authenticate s.username password auth ≡ true)
          × (get_user s.username auth ≡ some user)
          × (session_authenticate is_directory auth password s
              ≡ some (logged_in_as is_directory user s)))
unfolding session_authenticate
session_authenticate-cases is_directory auth password s =
    elim (Bool-cases (authenticate s.username password auth)) [
      | inr refused ↦ inl (refused, rw refused refl)
      | inl accepted ↦ elim (Option-cases (get_user s.username auth)) [
        | inl unknown ↦
            absurd (cc (unknown, authenticate-get_user s.username password auth accepted))
        | inr (user, known) ↦ inr (
          user,
          accepted,
          known,
          rw (accepted, known) (ap some (go_home-logged_in_as is_directory user s)),
        )
      ]
    ]

go_home-rename :
    (is_directory : Bytes → Bool) (s : Session)
    → (go_home is_directory s).rename_pending ≡ s.rename_pending
go_home-rename is_directory s = elim (go_home-cases is_directory s) [
  | inl stays ↦ ap (λ (x : Session). x.rename_pending) stays
  | inr moved ↦ ap (λ (x : Session). x.rename_pending) moved
]

-- A login leaves the rename that is pending alone.
pub session_authenticate-rename :
    (is_directory : Bytes → Bool) (auth : Auth) (password : Bytes) (s : Session) {after : Session}
    → session_authenticate is_directory auth password s ≡ some after
    → after.rename_pending ≡ s.rename_pending
unfolding session_authenticate
session_authenticate-rename is_directory auth password s {after} h =
    elim (Bool-cases (authenticate s.username password auth)) [
      | inr refused ↦ absurd (cc (rw refused at h))
      | inl accepted ↦ elim (Option-cases (get_user s.username auth)) [
        | inl unknown ↦ absurd (cc (rw (accepted, unknown) at h))
        | inr (u, known) ↦
            ap (λ (x : Session). x.rename_pending) (sym (some_inj (rw (accepted, known) at h)))
            ∙ go_home-rename is_directory (log_in u s)
      ]
    ]
