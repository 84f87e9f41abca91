-- ===== src/Api/Restore.antt =====
-- apis/hci/v1beta1/virtualmachinerestore_types.go. A nil slice and an empty one differ for the code
-- in `VolumeRestores` and `DeletedVolumes`, so those are `Option`s.
use hci_controller_manager.Base.{Str, Bool, Option, List}
use hci_controller_manager.Api.Meta.{ObjectMeta, Time, Condition, TypedLocalObjectReference}
use hci_controller_manager.Api.Backup.{PersistentVolumeClaimSourceSpec}

-- `unset` is the empty text, which the code treats as neither of the two policies.
pub data DeletionPolicy : Type 0 where
  delete retain unset : DeletionPolicy

pub record VirtualMachineRestoreSpec : Type 0 where
  pub target : TypedLocalObjectReference
  pub virtual_machine_backup_name : Str
  pub virtual_machine_backup_namespace : Str
  pub new_vm : Bool
  pub deletion_policy : DeletionPolicy

pub record VolumeRestore : Type 0 where
  pub volume_name : Str
  pub persistent_volume_claim : PersistentVolumeClaimSourceSpec
  pub volume_backup_name : Str

pub record VirtualMachineRestoreStatus : Type 0 where
  pub volume_restores : Option (List VolumeRestore)
  pub restore_time : Option Time
  pub deleted_volumes : Option (List Str)
  pub complete : Option Bool
  pub conditions : List Condition
  pub target_uid : Option Str

pub record VirtualMachineRestore : Type 0 where
  pub object_meta : ObjectMeta
  pub spec : VirtualMachineRestoreSpec
  pub status : Option VirtualMachineRestoreStatus
