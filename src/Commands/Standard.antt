-- ===== src/Commands/Standard.antt =====
-- server/src/command.c, `cmd_register_standard_handlers`: the table that the server starts with.

use simple_ftp.Base.{Bool, true, false, ◌&&◌, Option, none, some, List, [], ◌∷◌}
use simple_ftp.CString.{Bytes, codes}
use simple_ftp.Commands.{Registry, cmd_init, register_handler}

-- The functions of server/src/handler.c that are registered: one constructor for each
-- `cmd_handle_…`, and the three `cmd_prev_handle_clear_…`.
pub data Handler : Type 0 where
  clear_restart clear_rename clear_all : Handler
  user pass acct cwd cdup smnt quit rein port pasv type stru mode rest stor retr appe : Handler
  list nlst rnfr rnto dele rmd mkd pwd abor syst noop feat size mdtm : Handler

pub record Registration : Type 0 where
  pub command : Bytes
  pub handler : Handler
  pub prev_handler : Option Handler

-- The calls of `cmd_register_handler` in their order.
abbrev pub registrations : List Registration
registrations =
    record { command = codes "USER"; handler = user; prev_handler = some clear_all }
    ∷ record { command = codes "PASS"; handler = pass; prev_handler = some clear_all }
    ∷ record { command = codes "ACCT"; handler = acct; prev_handler = some clear_all }
    ∷ record { command = codes "CWD"; handler = cwd; prev_handler = some clear_all }
    ∷ record { command = codes "CDUP"; handler = cdup; prev_handler = some clear_all }
    ∷ record { command = codes "SMNT"; handler = smnt; prev_handler = some clear_all }
    ∷ record { command = codes "QUIT"; handler = quit; prev_handler = some clear_all }
    ∷ record { command = codes "REIN"; handler = rein; prev_handler = some clear_all }
    ∷ record { command = codes "PORT"; handler = port; prev_handler = some clear_all }
    ∷ record { command = codes "PASV"; handler = pasv; prev_handler = some clear_all }
    ∷ record { command = codes "TYPE"; handler = type; prev_handler = some clear_all }
    ∷ record { command = codes "STRU"; handler = stru; prev_handler = some clear_all }
    ∷ record { command = codes "MODE"; handler = mode; prev_handler = some clear_all }
    ∷ record { command = codes "REST"; handler = rest; prev_handler = some clear_rename }
    ∷ record { command = codes "STOR"; handler = stor; prev_handler = some clear_rename }
    ∷ record { command = codes "RETR"; handler = retr; prev_handler = some clear_rename }
    ∷ record { command = codes "APPE"; handler = appe; prev_handler = some clear_all }
    ∷ record { command = codes "LIST"; handler = list; prev_handler = some clear_all }
    ∷ record { command = codes "NLST"; handler = nlst; prev_handler = some clear_all }
    ∷ record { command = codes "RNFR"; handler = rnfr; prev_handler = some clear_all }
    ∷ record { command = codes "RNTO"; handler = rnto; prev_handler = some clear_restart }
    ∷ record { command = codes "DELE"; handler = dele; prev_handler = some clear_all }
    ∷ record { command = codes "RMD"; handler = rmd; prev_handler = some clear_all }
    ∷ record { command = codes "MKD"; handler = mkd; prev_handler = some clear_all }
    ∷ record { command = codes "PWD"; handler = pwd; prev_handler = some clear_all }
    ∷ record { command = codes "ABOR"; handler = abor; prev_handler = some clear_all }
    ∷ record { command = codes "SYST"; handler = syst; prev_handler = some clear_all }
    ∷ record { command = codes "NOOP"; handler = noop; prev_handler = none }
    ∷ record { command = codes "FEAT"; handler = feat; prev_handler = none }
    ∷ record { command = codes "SIZE"; handler = size; prev_handler = some clear_all }
    ∷ record { command = codes "MDTM"; handler = mdtm; prev_handler = some clear_all }
    ∷ []

abbrev registered_or : Registry Handler → Option (Registry Handler) → Bool × Registry Handler
registered_or r none = (false, r)
registered_or r (some after) = (true, after)

-- `result |= cmd_register_handler(…)` for each of the calls; `true` stands for 0.
unfoldable pub register_all : List Registration → Registry Handler → Bool × Registry Handler
unfolding register_handler
register_all [] r = (true, r)
register_all (x ∷ xs) r =
    let (ok, after) = registered_or r (register_handler x.command x.handler x.prev_handler r) in
    let (rest_ok, last) = register_all xs after in (ok && rest_ok, last)

-- `cmd_register_standard_handlers`
unfoldable pub register_standard_handlers : Registry Handler → Bool × Registry Handler
unfolding register_all
register_standard_handlers r = register_all registrations r

-- The handlers table before any call.
abbrev pub unset : Registry Handler
unset = record { initialized = false; handlers = [] }

abbrev pub standard : Registry Handler
standard = (register_standard_handlers (cmd_init unset)).1
