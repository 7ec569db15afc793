-- ===== src/Tests.antt =====
-- Runs of the functions of server/src on concrete inputs.
pub mod Paths
pub mod Texts
pub mod Tables
pub mod Sessions
pub mod Handlers
pub mod Transfers
pub mod Network
pub mod Server
