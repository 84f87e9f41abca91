-- ===== src/Backup.antt =====
-- The controller of virtual machine backups: controllers/hci/virtualmachinebackup_controller.go, with
-- backup_status.go and the helpers of util.go.
pub mod State
pub mod Progress
pub mod Machine
pub mod Objects
pub mod Initial
pub mod Stored
pub mod Source
pub mod Snapshots
pub mod Target
pub mod Secret
pub mod Setting
pub mod Reconcile
pub mod Life
pub mod Sync
pub mod Longhorn
