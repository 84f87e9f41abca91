-- ===== src/Backup/Target/Laws.antt =====
-- On the metadata of a backup and its backup target.
use hci_controller_manager.Base.{
  Str, text, ◌≡◌, refl, true, false, some, List, ◌++◌, nat_eq, list_eq, ok, arith,
}
use hci_controller_manager.Api.{
  VirtualMachineBackup, VirtualMachineBackupStatus, VolumeBackup, VolumeSnapshotClass,
  TargetSetting, nfs, VirtualMachineBackupMetadata, metadata_eq,
}
use hci_controller_manager.Env.{Env, Driver}
use hci_controller_manager.Pkg.Strings.{has_prefix}
use hci_controller_manager.Pkg.Strings.Laws.{trim_prefix-append, trim_prefix_absent}
use hci_controller_manager.Base.Dict.{Dict}
use hci_controller_manager.Backup.Snapshots.{snapshot_loop, visited, with_volume_backups}
use hci_controller_manager.Backup.Snapshots.Laws.{snapshot_loop_same}
use hci_controller_manager.Backup.Target.{
  construct_endpoint, metadata_of, should_upload, load_backup_metadata_in_backup_target,
}

-- An NFS target has one endpoint, whether the setting spells the prefix or not, for a host that
-- does not begin with the prefix itself.
construct_endpoint_prefix :
    (target : TargetSetting) (host : Str)
    → target.type ≡ nfs
    → has_prefix host (text "nfs://") ≡ false
    → construct_endpoint (record target { endpoint = text "nfs://" ++ host })
      ≡ construct_endpoint (record target { endpoint = host })
unfolding construct_endpoint
construct_endpoint_prefix target host t p =
    rw (t, trim_prefix-append (text "nfs://") host, trim_prefix_absent host (text "nfs://") p) refl

module _ {W : Type 0} (h : Env W) where
  -- A file that exists, reads as a text and decodes to the metadata, where the two calls change
  -- nothing, is not to be written again.
  should_upload_settles :
      (driver : Driver W) (url json : Str) (metadata : VirtualMachineBackupMetadata) (w : W)
      → driver.file_exists url w ≡ (ok true, w)
      → driver.read url w ≡ (ok json, w)
      → h.decode_metadata json ≡ ok metadata
      → should_upload h driver url metadata w ≡ (ok false, w)
  unfolding should_upload load_backup_metadata_in_backup_target
  should_upload_settles driver url json metadata w e r d = ground arith

  -- A pass over the volumes of a backup that visits them all leaves the metadata of the backup as
  -- it is.
  metadata_of-snapshot_loop :
      (vm_backup : VirtualMachineBackup) (classes : Dict VolumeSnapshotClass)
      (status : VirtualMachineBackupStatus) (vbs vbs' : List VolumeBackup) (w w' : W)
      → status.volume_backups ≡ some vbs
      → snapshot_loop h vm_backup classes vbs w ≡ (ok (visited vbs'), w')
      → metadata_of vm_backup (with_volume_backups status vbs') ≡ metadata_of vm_backup status
  unfolding metadata_of
  metadata_of-snapshot_loop vm_backup classes status vbs vbs' w w' e r =
      rw (e, snapshot_loop_same h vm_backup classes vbs vbs' w w' r) refl
