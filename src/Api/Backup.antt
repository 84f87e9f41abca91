-- ===== src/Api/Backup.antt =====
-- apis/hci/v1beta1/virtualmachinebackup_types.go. A nil slice and an empty one differ for the code
-- in `VolumeBackups` only, so that is an `Option`.
use hci_controller_manager.Base.{Str, Bool, Option, List}
use hci_controller_manager.Base.Dict.{Dict}
use hci_controller_manager.Api.Meta.{ObjectMeta, Time, Condition, TypedLocalObjectReference}
use hci_controller_manager.Api.Kubevirt.{VirtualMachineSpec}
use hci_controller_manager.Api.Storage.{PersistentVolumeClaimSpec}

pub data BackupType : Type 0 where
  backup snapshot : BackupType

pub record VirtualMachineBackupSpec : Type 0 where
  pub source : TypedLocalObjectReference
  pub type : BackupType

-- The last error met, of the backup or of one volume.
pub record StatusError : Type 0 where
  pub time : Option Time
  pub message : Option Str

pub record BackupTarget : Type 0 where
  pub endpoint : Str
  pub bucket_name : Str
  pub bucket_region : Str

pub record PersistentVolumeClaimSourceSpec : Type 0 where
  pub object_meta : ObjectMeta
  pub spec : PersistentVolumeClaimSpec

pub record VolumeBackup : Type 0 where
  pub name : Option Str
  pub volume_name : Str
  pub csi_driver_name : Str
  pub creation_time : Option Time
  pub persistent_volume_claim : PersistentVolumeClaimSourceSpec
  pub longhorn_backup_name : Option Str
  pub ready_to_use : Option Bool
  pub error : Option StatusError

pub record SecretBackup : Type 0 where
  pub name : Str
  pub contents : Dict Str

-- apis/hci/v1beta1/template.go
pub record VirtualMachineSourceSpec : Type 0 where
  pub object_meta : ObjectMeta
  pub spec : VirtualMachineSpec

pub record VirtualMachineBackupStatus : Type 0 where
  pub source_uid : Option Str
  pub creation_time : Option Time
  pub backup_target : Option BackupTarget
  pub csi_driver_volume_snapshot_class_names : Dict Str
  pub source_spec : Option VirtualMachineSourceSpec
  pub volume_backups : Option (List VolumeBackup)
  pub secret_backups : List SecretBackup
  pub ready_to_use : Option Bool
  pub error : Option StatusError
  pub conditions : List Condition

pub record VirtualMachineBackup : Type 0 where
  pub object_meta : ObjectMeta
  pub spec : VirtualMachineBackupSpec
  pub status : Option VirtualMachineBackupStatus
