-- ===== src/Client.antt =====
-- crates/ytsaurus-client: the errors of a command, and how a failed command is repeated.
pub mod Error
pub mod Batch
pub mod Path
pub mod Retry
pub mod YsonBuild
