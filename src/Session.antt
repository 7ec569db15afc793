-- ===== src/Session.antt =====
-- server/src/session.c: the state and the calls of one client's session.
pub mod Path
pub mod State
pub mod Access
pub mod Calls
pub mod Data
