-- ===== src/Protocol.antt =====
-- server/src/protocol.c and include/protocol.h: the FTP lines that are read and written.
pub mod Types
pub mod Codes
pub mod Telnet
pub mod Command
pub mod Response
pub mod Address
pub mod Options
pub mod PathText
