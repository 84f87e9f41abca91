-- ===== src/Tests.antt =====
-- Runs of the code on small inputs, and the theorems at these inputs.
pub mod World
pub mod Samples
pub mod Pkg
pub mod Begin
pub mod Backup
pub mod Life
pub mod Restore
pub mod RestoreLife
pub mod Condition
pub mod Setting
pub mod Owners
pub mod Image
pub mod Claims
pub mod Settings
pub mod Manager
