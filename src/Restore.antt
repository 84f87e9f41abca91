-- ===== src/Restore.antt =====
-- The controller of restores: controllers/hci/virtualmachinerestore_controller.go, with its helpers of
-- util.go.
pub mod State
pub mod Plan
pub mod Objects
pub mod NewVm
pub mod Volumes
pub mod Machine
pub mod Reconcile
pub mod Life
