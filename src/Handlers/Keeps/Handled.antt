-- ===== src/Handlers/Keeps/Handled.antt =====
-- Every handler but PASS, REIN and RNFR keeps what the laws allow.
use simple_ftp.Base.{Bool, true, false, ◌≡◌}
use simple_ftp.CString.{Bytes}
use simple_ftp.Protocol.Types.{Command}
use simple_ftp.Auth.{Permissions}
use simple_ftp.Commands.Standard.{
  Handler, clear_restart, clear_rename, clear_all, user, pass, acct, cwd, cdup, smnt, quit, rein,
  port, pasv, type, stru, mode, rest, stor, retr, appe, list, nlst, rnfr, rnto, dele, rmd, mkd, pwd,
  abor, syst, noop, feat, size, mdtm,
}
use simple_ftp.Handlers.{Platform, World}
use simple_ftp.Handlers.Run.{handle}
use simple_ftp.Handlers.Keeps.{Keeps, Laws}
use simple_ftp.Handlers.Keeps.Login.{
  prev_restart-Keeps, prev_rename-Keeps, prev_all-Keeps, user-Keeps, acct-Keeps, smnt-Keeps,
  cwd-Keeps, cdup-Keeps, quit-Keeps,
}
use simple_ftp.Handlers.Keeps.Parameters.{
  port-Keeps, pasv-Keeps, type-Keeps, stru-Keeps, mode-Keeps, rest-Keeps,
}
use simple_ftp.Handlers.Keeps.Files.{
  mkd-Keeps, rmd-Keeps, rnto-Keeps, dele-Keeps, size-Keeps, mdtm-Keeps, pwd-Keeps, abor-Keeps,
  syst-Keeps, noop-Keeps, feat-Keeps,
}
use simple_ftp.Handlers.Keeps.Transfers.{retr-Keeps, stor-Keeps, appe-Keeps, list-Keeps, nlst-Keeps}

-- PASS and REIN change who is logged in, and RNFR stores a path.
abbrev pub is_special : Handler → Bool
is_special pass = true
is_special rein = true
is_special rnfr = true
is_special _ = false

module _ {E : Type 0} (sys : Platform E) (P : World E → Type 0) (Ok : Permissions → Bytes → Type 0)
    (laws : Laws sys P Ok) where
  pub handle-Keeps :
      (h : Handler) (cmd : Command) → is_special h ≡ false → Keeps P (handle sys h cmd)
  unfolding handle
  handle-Keeps clear_restart cmd e = prev_restart-Keeps sys P Ok laws
  handle-Keeps clear_rename cmd e = prev_rename-Keeps sys P Ok laws
  handle-Keeps clear_all cmd e = prev_all-Keeps sys P Ok laws
  handle-Keeps pass cmd e = absurd (cc e)
  handle-Keeps rein cmd e = absurd (cc e)
  handle-Keeps rnfr cmd e = absurd (cc e)
  handle-Keeps user cmd e = user-Keeps sys P Ok laws cmd
  handle-Keeps acct cmd e = acct-Keeps sys P Ok laws cmd
  handle-Keeps cwd cmd e = cwd-Keeps sys P Ok laws cmd
  handle-Keeps cdup cmd e = cdup-Keeps sys P Ok laws cmd
  handle-Keeps smnt cmd e = smnt-Keeps sys P Ok laws cmd
  handle-Keeps quit cmd e = quit-Keeps sys P Ok laws cmd
  handle-Keeps port cmd e = port-Keeps sys P Ok laws cmd
  handle-Keeps pasv cmd e = pasv-Keeps sys P Ok laws cmd
  handle-Keeps type cmd e = type-Keeps sys P Ok laws cmd
  handle-Keeps stru cmd e = stru-Keeps sys P Ok laws cmd
  handle-Keeps mode cmd e = mode-Keeps sys P Ok laws cmd
  handle-Keeps rest cmd e = rest-Keeps sys P Ok laws cmd
  handle-Keeps stor cmd e = stor-Keeps sys P Ok laws cmd
  handle-Keeps retr cmd e = retr-Keeps sys P Ok laws cmd
  handle-Keeps appe cmd e = appe-Keeps sys P Ok laws cmd
  handle-Keeps list cmd e = list-Keeps sys P Ok laws cmd
  handle-Keeps nlst cmd e = nlst-Keeps sys P Ok laws cmd
  handle-Keeps rnto cmd e = rnto-Keeps sys P Ok laws cmd
  handle-Keeps dele cmd e = dele-Keeps sys P Ok laws cmd
  handle-Keeps rmd cmd e = rmd-Keeps sys P Ok laws cmd
  handle-Keeps mkd cmd e = mkd-Keeps sys P Ok laws cmd
  handle-Keeps pwd cmd e = pwd-Keeps sys P Ok laws cmd
  handle-Keeps abor cmd e = abor-Keeps sys P Ok laws cmd
  handle-Keeps syst cmd e = syst-Keeps sys P Ok laws cmd
  handle-Keeps noop cmd e = noop-Keeps sys P Ok laws cmd
  handle-Keeps feat cmd e = feat-Keeps sys P Ok laws cmd
  handle-Keeps size cmd e = size-Keeps sys P Ok laws cmd
  handle-Keeps mdtm cmd e = mdtm-Keeps sys P Ok laws cmd
