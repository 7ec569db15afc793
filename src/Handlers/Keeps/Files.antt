-- ===== src/Handlers/Keeps/Files.antt =====
-- The handlers that make, remove and rename files, and those that tell about them, keep what the laws
-- allow.
use simple_ftp.Base.{ℕ, refl, Bool, true, Option, none, some, Option-cases, inl, inr}
use simple_ftp.CString.{Bytes}
use simple_ftp.Protocol.Types.{Command}
use simple_ftp.Auth.{Permissions, perm_delete, perm_rename, perm_mkdir, perm_rmdir}
use simple_ftp.Session.Path.{max_path}
use simple_ftp.Session.State.{put_transfer_should_abort, get_rename_from, set_rename_from}
use simple_ftp.Handlers.{
  Platform, World, M, ◌>>=◌, gets, modify, make_directory, remove_directory, delete, rename_from,
}
use simple_ftp.Handlers.Files.{
  make_at, handle_mkd, remove_at, handle_rmd, rename_source, handle_rnfr, rename_locked, rename_to,
  with_parent, rename_at, rename_stored, handle_rnto, delete_locked, with_file, delete_at,
  handle_dele, tell, ask_locked, handle_size, handle_mdtm, tell_directory, handle_pwd, handle_abor,
  handle_syst, handle_noop, feature, handle_feat,
}
use simple_ftp.Handlers.Keeps.{
  Keeps, Laws, pure-Keeps, bind-Keeps, if-Keeps, gets-Keeps, ask-Keeps, exists-Keeps,
  directory-Keeps, modify-Keeps, clear_rename-Keeps, change-Keeps, reply-Keeps, multiline-Keeps,
  close-Keeps, try-Keeps, release-Keeps, auth-Keeps, no_argument-Keeps, auth_arg-Keeps, path-Keeps,
  exclusive-Keeps,
}

module _ {E : Type 0} (sys : Platform E) (P : World E → Type 0) (Ok : Permissions → Bytes → Type 0)
    (laws : Laws sys P Ok) where
  make-Keeps : (argument path : Bytes) → Ok perm_mkdir path → Keeps P (make_at sys argument path)
  unfolding make_at
  make-Keeps argument path h =
      let made = change-Keeps sys P Ok laws make_directory path h in
      search (
        bind-Keeps,
        if-Keeps,
        exists-Keeps sys P Ok laws,
        directory-Keeps sys P Ok laws,
        reply-Keeps sys P Ok laws,
        made,
      )

  pub mkd-Keeps : (cmd : Command) → Keeps P (handle_mkd sys cmd)
  unfolding handle_mkd
  mkd-Keeps cmd = search (auth_arg-Keeps sys P Ok laws, path-Keeps sys P Ok laws, make-Keeps)

  remove-Keeps : (path : Bytes) → Ok perm_rmdir path → Keeps P (remove_at sys path)
  unfolding remove_at
  remove-Keeps path h =
      let removed = change-Keeps sys P Ok laws remove_directory path h in
      search
        (
          bind-Keeps,
          if-Keeps,
          exists-Keeps sys P Ok laws,
          directory-Keeps sys P Ok laws,
          reply-Keeps sys P Ok laws,
          removed,
        )
        depth 9

  pub rmd-Keeps : (cmd : Command) → Keeps P (handle_rmd sys cmd)
  unfolding handle_rmd
  rmd-Keeps cmd = search (auth_arg-Keeps sys P Ok laws, path-Keeps sys P Ok laws, remove-Keeps)

  -- RNFR, where the property allows the source to be stored.
  module _
      (stored : (path : Bytes)
        → Ok perm_rename path
        → Keeps P (modify (set_rename_from path))) where
    source-Keeps : (path : Bytes) → Ok perm_rename path → Keeps P (rename_source sys path)
    unfolding rename_source
    source-Keeps path h =
        let kept = stored path h in
        search
          (
            bind-Keeps,
            if-Keeps,
            exists-Keeps sys P Ok laws,
            directory-Keeps sys P Ok laws,
            reply-Keeps sys P Ok laws,
            try-Keeps sys P Ok laws,
            release-Keeps sys P Ok laws,
            kept,
          )
          depth 12

    pub rnfr-Keeps : (cmd : Command) → Keeps P (handle_rnfr sys cmd)
    unfolding handle_rnfr
    rnfr-Keeps cmd = search (auth_arg-Keeps sys P Ok laws, path-Keeps sys P Ok laws, source-Keeps)

  renamed-Keeps :
      (from_path to_path : Bytes)
      → Ok perm_rename from_path
      → Ok perm_rename to_path
      → Keeps P (rename_locked sys from_path to_path)
  unfolding rename_locked
  renamed-Keeps from_path to_path h k =
      let renamed = change-Keeps sys P Ok laws (rename_from from_path) to_path (h, k) in
      search
        (
          bind-Keeps,
          if-Keeps,
          exists-Keeps sys P Ok laws,
          directory-Keeps sys P Ok laws,
          reply-Keeps sys P Ok laws,
          renamed,
        )
        depth 9

  rename_to-Keeps :
      (from_path to_path : Bytes)
      → Ok perm_rename from_path
      → Ok perm_rename to_path
      → Keeps P (rename_to sys from_path to_path)
  unfolding rename_to
  rename_to-Keeps from_path to_path h k =
      let renamed = renamed-Keeps from_path to_path h k in
      search (
        bind-Keeps,
        pure-Keeps,
        exclusive-Keeps sys P Ok laws,
        clear_rename-Keeps sys P Ok laws,
        renamed,
      )

  parent-Keeps :
      (parent : Option Bytes) (rest : M E Bool)
      → Keeps P rest
      → Keeps P (with_parent sys parent rest)
  unfolding with_parent
  parent-Keeps none rest h = h
  parent-Keeps (some parent) rest h =
      search
        (
          bind-Keeps,
          if-Keeps,
          exists-Keeps sys P Ok laws,
          directory-Keeps sys P Ok laws,
          reply-Keeps sys P Ok laws,
          h,
        )
        depth 9

  rename_at-Keeps :
      (from_path to_path : Bytes)
      → Ok perm_rename from_path
      → Ok perm_rename to_path
      → Keeps P (rename_at sys from_path to_path)
  unfolding rename_at
  rename_at-Keeps from_path to_path h k =
      let renamed = rename_to-Keeps from_path to_path h k in
      search (
        bind-Keeps,
        if-Keeps,
        exists-Keeps sys P Ok laws,
        directory-Keeps sys P Ok laws,
        reply-Keeps sys P Ok laws,
        parent-Keeps,
        renamed,
      )

  stored-Keeps :
      (argument source : Bytes)
      → Ok perm_rename source
      → Keeps P (rename_stored sys argument (some source))
  unfolding rename_stored
  stored-Keeps argument source h =
      path-Keeps sys P Ok laws argument perm_rename _ _ _
        (λ path k. rename_at-Keeps source path h k)

  rename-Keeps :
      (argument : Bytes) → Keeps P (gets (get_rename_from max_path) >>= rename_stored sys argument)
  unfolding Keeps gets ◌>>=◌ rename_stored
  rename-Keeps argument w h = elim (Option-cases (get_rename_from max_path w.session)) [
    | inl missing ↦ rw missing (reply-Keeps sys P Ok laws _ _ w h)
    | inr (source, found) ↦
        rw found (stored-Keeps argument source (laws.source w source h found) w h)
  ]

  pub rnto-Keeps : (cmd : Command) → Keeps P (handle_rnto sys cmd)
  unfolding handle_rnto
  rnto-Keeps cmd = auth_arg-Keeps sys P Ok laws cmd _ (rename-Keeps cmd.argument)

  delete-Keeps : (path : Bytes) → Ok perm_delete path → Keeps P (delete_locked sys path)
  unfolding delete_locked
  delete-Keeps path h =
      let deleted = change-Keeps sys P Ok laws delete path h in
      search
        (
          bind-Keeps,
          if-Keeps,
          exists-Keeps sys P Ok laws,
          directory-Keeps sys P Ok laws,
          reply-Keeps sys P Ok laws,
          deleted,
        )
        depth 9

  file-Keeps :
      (path message : Bytes) (rest : M E Bool)
      → Keeps P rest
      → Keeps P (with_file sys path message rest)
  unfolding with_file
  file-Keeps path message rest h =
      search
        (
          bind-Keeps,
          if-Keeps,
          exists-Keeps sys P Ok laws,
          directory-Keeps sys P Ok laws,
          reply-Keeps sys P Ok laws,
          h,
        )
        depth 9

  delete_at-Keeps : (path : Bytes) → Ok perm_delete path → Keeps P (delete_at sys path)
  unfolding delete_at
  delete_at-Keeps path h =
      file-Keeps path _ _ (exclusive-Keeps sys P Ok laws path _ (delete-Keeps path h))

  pub dele-Keeps : (cmd : Command) → Keeps P (handle_dele sys cmd)
  unfolding handle_dele
  dele-Keeps cmd = search (auth_arg-Keeps sys P Ok laws, path-Keeps sys P Ok laws, delete_at-Keeps)

  tell-Keeps : (text : ℕ → Bytes) (o : Option ℕ) → Keeps P (tell sys text o)
  unfolding tell
  tell-Keeps text none = reply-Keeps sys P Ok laws _ _
  tell-Keeps text (some n) = reply-Keeps sys P Ok laws _ _

  ask_locked-Keeps :
      (path : Bytes) (question : E → Option ℕ × E) (text : ℕ → Bytes)
      → ((e : E) → laws.Same e (question e).1)
      → Keeps P (ask_locked sys path question text)
  unfolding ask_locked
  ask_locked-Keeps path question text same =
      let asked = ask-Keeps sys P Ok laws question same in
      search
        (
          bind-Keeps,
          if-Keeps,
          asked,
          reply-Keeps sys P Ok laws,
          try-Keeps sys P Ok laws,
          release-Keeps sys P Ok laws,
          tell-Keeps,
        )
        depth 9

  pub size-Keeps : (cmd : Command) → Keeps P (handle_size sys cmd)
  unfolding handle_size
  size-Keeps cmd = search (
    auth_arg-Keeps sys P Ok laws,
    path-Keeps sys P Ok laws,
    file-Keeps,
    ask_locked-Keeps,
    laws.neutral.get_file_size,
  )

  pub mdtm-Keeps : (cmd : Command) → Keeps P (handle_mdtm sys cmd)
  unfolding handle_mdtm
  mdtm-Keeps cmd = search (
    auth_arg-Keeps sys P Ok laws,
    path-Keeps sys P Ok laws,
    file-Keeps,
    ask_locked-Keeps,
    laws.neutral.get_file_mtime,
  )

  tell_directory-Keeps : (o : Option Bytes) → Keeps P (tell_directory sys o)
  unfolding tell_directory
  tell_directory-Keeps none = reply-Keeps sys P Ok laws _ _
  tell_directory-Keeps (some cwd) = reply-Keeps sys P Ok laws _ _

  pub pwd-Keeps : (cmd : Command) → Keeps P (handle_pwd sys cmd)
  unfolding handle_pwd
  pwd-Keeps cmd = search (
    auth-Keeps sys P Ok laws,
    no_argument-Keeps sys P Ok laws,
    bind-Keeps,
    gets-Keeps,
    tell_directory-Keeps,
  )

  abort-Keeps : Keeps P (modify (put_transfer_should_abort true))
  unfolding put_transfer_should_abort
  abort-Keeps = modify-Keeps sys P Ok laws (put_transfer_should_abort true) (λ s. refl)

  pub abor-Keeps : (cmd : Command) → Keeps P (handle_abor sys cmd)
  unfolding handle_abor
  abor-Keeps cmd = search (
    bind-Keeps,
    if-Keeps,
    gets-Keeps,
    abort-Keeps,
    close-Keeps sys P Ok laws,
    reply-Keeps sys P Ok laws,
  )

  pub syst-Keeps : (cmd : Command) → Keeps P (handle_syst sys cmd)
  unfolding handle_syst
  syst-Keeps cmd = reply-Keeps sys P Ok laws _ _

  pub noop-Keeps : (cmd : Command) → Keeps P (handle_noop sys cmd)
  unfolding handle_noop
  noop-Keeps cmd = reply-Keeps sys P Ok laws _ _

  feature-Keeps : (text : Bytes) (rest : M E Bool) → Keeps P rest → Keeps P (feature sys text rest)
  unfolding feature
  feature-Keeps text rest h =
      search (bind-Keeps, if-Keeps, pure-Keeps, multiline-Keeps sys P Ok laws, h)

  pub feat-Keeps : (cmd : Command) → Keeps P (handle_feat sys cmd)
  unfolding handle_feat
  feat-Keeps cmd = search (feature-Keeps, reply-Keeps sys P Ok laws)
