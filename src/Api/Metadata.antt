-- ===== src/Api/Metadata.antt =====
-- The file that describes a backup on its backup target (controllers/hci/backup_metadata.go).
use hci_controller_manager.Base.{Str, Option, List}
use hci_controller_manager.Api.Backup.{
  VirtualMachineBackupSpec, VirtualMachineSourceSpec, VolumeBackup, SecretBackup,
}

pub record VirtualMachineBackupMetadata : Type 0 where
  pub name : Str
  pub namespace : Str
  pub backup_spec : VirtualMachineBackupSpec
  pub vm_source_spec : Option VirtualMachineSourceSpec
  pub volume_backups : Option (List VolumeBackup)
  pub secret_backups : List SecretBackup
