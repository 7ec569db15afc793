-- ===== src/Lib.antt =====
-- The FTP server of SimpleFTP: server/src and server/include. The client, the tests and the documents
-- of the repository are not modelled.
--
-- A client's line comes in over the network, `proto_parse_command` makes a command of it, `cmd_dispatch`
-- finds the command's handler in a table, and the handler acts on the client's session: it logs a user
-- in against the table of users, sets parameters, resolves paths below the session's root directory,
-- takes a lock on a file and starts a transfer in a thread of its own.
--
-- - Base: names of the libraries, passed on, Boolean tests on numbers, and list lemmas.
-- - CString: strings as lists of bytes without the final zero; the calls of <string.h>, <ctype.h> and
--   <stdio.h> that the server makes, in the "C" locale (strtok_r in Tokens, sscanf in Scan).
-- - Utils: server/src/utils.c (trim_whitespace, to_uppercase, crlf_to_lf, lf_to_crlf, string_to_hex).
-- - Protocol: server/src/protocol.c, all of it. Telnet is the filter at the head of
--   proto_parse_command, Command the rest of it; Response, Address, Options and PathText the others.
-- - Filesys: server/src/filesys.c, fs_join_path, fs_extract_filename and fs_get_parent_directory in their
--   POSIX branches.
-- - Auth: server/src/auth.c without the reader and the writer of the user file. `Auth` is the state of
--   the module; add_user is auth_add_user, authenticate auth_authenticate, and so on.
-- - Session: server/src/session.c. Path is normalize_and_validate_path (`resolve_virtual`), State the
--   record session_t with the calls that set parts of it, Access login and permissions
--   (session_authenticate, session_check_path_access, session_change_directory,
--   session_resolve_path), Calls any sequence of these calls on one session, and Data the data
--   connection, with the control thread and the transfer thread as a sequence of moves.
--   session_destroy is not modelled.
-- - FileLock: server/src/filelock.c. Abstract says what each call does to the counters of a path,
--   System runs any sequence of calls by clients that release what they hold, and Waiting has the
--   blocking calls up to their first sleep.
-- - Commands: server/src/command.c without the printing of the table; Standard is the table that the
--   server starts with.
-- - Handlers: server/src/handler.c, all of it, as functions on a `World`: a session, the locks, the users, a
--   `Platform` for the operating system, the lines sent and the changes of files made. handle_user is
--   cmd_handle_user, and so on; Login, Parameters, Files and Transfers hold the handlers, Run the dispatch
--   through the standard table. Keeps says what a property of the world must allow to be kept by every
--   handler, and its children follow the handlers for it; Authorised, Served and Restricted use it.
-- - Transfer: server/src/transfer.c without the listings. A `Channel` stands for the file and the data
--   connection; send_loop and receive_loop are the loops, finish_transfer the end of the thread;
--   Keeps follows the thread's moves as Handlers.Keeps does the handlers.
-- - Network: server/src/network.c, net_receive_line and net_send_all over the calls of the operating system.
-- - Server: server/src/server.c, the counting of connections as events in any order, and the loop of
--   client_thread on the lines of a client, which parses and dispatches them. Connections and Lines hold
--   what is proved of the two; Received joins it to the line that comes from the network.
-- - Tests: runs on concrete inputs.
--
-- Conventions. A call that holds its module's mutex throughout is a function on the module's state. A
-- result of -1 or NULL is `none` or `false`, and the state is then unchanged unless it is returned with
-- it; file_lock_get_shared_lock_count gives an `int`, which wraps. A line that is parsed ends at its first
-- zero byte. Null pointers, which the callers never pass, are left out, as are log lines. Numbers are natural
-- numbers, with the wrap-around of `unsigned int` written as a remainder by 2 ^ 32. `char` is signed.
-- The fuel of `decimal` is the number itself, which is more than its digits, and that of send_loop the
-- number of bytes that are left, of which each round reads one at least, as is that of net_send_all.
-- Answers of the operating system are parameters: `is_directory` for fs_is_directory, an address or none
-- for calloc, `call` for a call through a function pointer.
--
-- The handlers of a session run one after another. What a transfer thread does to its session is two
-- moves, its beginning and its end; Handlers.Run and Server take them as events between handlers, with any
-- parameters and any result, also where no thread has been started. The waits in
-- session_open_data_connection are calls of the platform.
--
-- A handler makes the calls of the platform that change files through `change`, which lists them. A record
-- that the operating system keeps of these calls, `log` in the hypothesis `Records`, ties the list to the
-- calls that are made. In the same way `taken` in `Carries` is what the data connection has taken.
--
-- Not modelled: the listings of server/src/transfer.c; the start and the stop of the server and the
-- reply to a client over the limit in server/src/server.c, and the urgent bytes of a client;
-- server/src/logger.c, server/src/main.c and the rest of server/src/network.c and server/src/filesys.c,
-- which are calls of the operating system.
pub mod Base
pub mod CString
pub mod Utils
pub mod Protocol
pub mod Filesys
pub mod Auth
pub mod Session
pub mod FileLock
pub mod Commands
pub mod Handlers
pub mod Transfer
pub mod Network
pub mod Server
pub mod Tests
