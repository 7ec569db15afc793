-- ===== src/Handlers/Run.antt =====
-- server/src/handler.c under server/src/command.c: which function each registered handler is, and the
-- dispatch of one command after another.
use simple_ftp.Base.{Bool, List, [], ◌∷◌}
use simple_ftp.Protocol.Types.{Command}
use simple_ftp.Commands.{Registry, dispatch}
use simple_ftp.Commands.Standard.{
  Handler, clear_restart, clear_rename, clear_all, user, pass, acct, cwd, cdup, smnt, quit, rein,
  port, pasv, type, stru, mode, rest, stor, retr, appe, list, nlst, rnfr, rnto, dele, rmd, mkd, pwd,
  abor, syst, noop, feat, size, mdtm,
}
use simple_ftp.Transfer.{ThreadMove, thread_move}
use simple_ftp.Handlers.{Platform, World, M}
use simple_ftp.Handlers.Login.{
  prev_clear_restart, prev_clear_rename, prev_clear_all, handle_user, handle_pass, handle_acct,
  handle_cwd, handle_cdup, handle_smnt, handle_quit, handle_rein,
}
use simple_ftp.Handlers.Parameters.{
  handle_port, handle_pasv, handle_type, handle_stru, handle_mode, handle_rest,
}
use simple_ftp.Handlers.Files.{
  handle_mkd, handle_rmd, handle_rnfr, handle_rnto, handle_dele, handle_size, handle_mdtm,
  handle_pwd, handle_abor, handle_syst, handle_noop, handle_feat,
}
use simple_ftp.Handlers.Transfers.{handle_retr, handle_stor, handle_appe, handle_list, handle_nlst}

-- What happens to a session: the client's command, or a move of its transfer thread.
pub data Event : Type 0 where
  command : Command → Event
  thread : ThreadMove → Event

module _ {E : Type 0} (sys : Platform E) where
  -- A call through the function pointer.
  unfoldable pub handle : Handler → Command → M E Bool
  handle clear_restart cmd = prev_clear_restart
  handle clear_rename cmd = prev_clear_rename
  handle clear_all cmd = prev_clear_all
  handle user cmd = handle_user sys cmd
  handle pass cmd = handle_pass sys cmd
  handle acct cmd = handle_acct sys cmd
  handle cwd cmd = handle_cwd sys cmd
  handle cdup cmd = handle_cdup sys cmd
  handle smnt cmd = handle_smnt sys cmd
  handle quit cmd = handle_quit sys cmd
  handle rein cmd = handle_rein sys cmd
  handle port cmd = handle_port sys cmd
  handle pasv cmd = handle_pasv sys cmd
  handle type cmd = handle_type sys cmd
  handle stru cmd = handle_stru sys cmd
  handle mode cmd = handle_mode sys cmd
  handle rest cmd = handle_rest sys cmd
  handle stor cmd = handle_stor sys cmd
  handle retr cmd = handle_retr sys cmd
  handle appe cmd = handle_appe sys cmd
  handle list cmd = handle_list sys cmd
  handle nlst cmd = handle_nlst sys cmd
  handle rnfr cmd = handle_rnfr sys cmd
  handle rnto cmd = handle_rnto sys cmd
  handle dele cmd = handle_dele sys cmd
  handle rmd cmd = handle_rmd sys cmd
  handle mkd cmd = handle_mkd sys cmd
  handle pwd cmd = handle_pwd sys cmd
  handle abor cmd = handle_abor sys cmd
  handle syst cmd = handle_syst sys cmd
  handle noop cmd = handle_noop sys cmd
  handle feat cmd = handle_feat sys cmd
  handle size cmd = handle_size sys cmd
  handle mdtm cmd = handle_mdtm sys cmd

  -- One command through `cmd_dispatch`, or one move of a transfer thread.
  unfoldable pub serve_one : Registry Handler → Event → World E → World E
  serve_one r (command cmd) w = (dispatch handle r cmd w).1
  serve_one r (thread m) w = (thread_move sys m w).1

  -- One after another; the two threads take turns between handlers.
  unfoldable pub serve : Registry Handler → List Event → World E → World E
  serve r [] w = w
  serve r (e ∷ es) w = serve r es (serve_one r e w)
