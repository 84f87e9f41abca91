-- ===== src/Backup/Sync/Laws.antt =====
-- The way of a backup over the backup target: what is uploaded, and what is made of it.
use hci_controller_manager.Base.{
  Str, text, ◌≡◌, ◌≢◌, refl, ap, Option, none, some, List, [], ◌∷◌, ◌==◌, nat_eq, list_eq,
  if◌then◌else◌, arith,
}
use hci_controller_manager.Api.{
  VirtualMachineBackup, VirtualMachineBackupStatus, VirtualMachineBackupMetadata, TargetSetting,
  VolumeBackup,
}
use hci_controller_manager.Env.{Env}
use hci_controller_manager.Backup.State.{is_backup_ready, is_backup_missing_status}
use hci_controller_manager.Backup.Target.{metadata_of, sanitize_volume_backups}
use hci_controller_manager.Backup.Reconcile.{on_backup_change, continue_backup}
use hci_controller_manager.Backup.Sync.{backup_of_metadata, with_default_namespace}

sanitize_twice :
    (vbs : List VolumeBackup)
    → sanitize_volume_backups (sanitize_volume_backups vbs) ≡ sanitize_volume_backups vbs
unfolding sanitize_volume_backups
sanitize_twice [] = refl
sanitize_twice (vb ∷ vbs) = rw (sanitize_twice vbs) refl

abbrev sanitized : Option (List VolumeBackup) → Option (List VolumeBackup)
sanitized none = none
sanitized (some vbs) = some (sanitize_volume_backups vbs)

sanitized_twice : (o : Option (List VolumeBackup)) → sanitized (sanitized o) ≡ sanitized o
sanitized_twice none = refl
sanitized_twice (some vbs) = ap some (sanitize_twice vbs)

default-ne-nil : text "default" ≢ []
unfolding text
default-ne-nil e = cc

abbrev named : Str → Str
named namespace = if namespace == [] then text "default" else namespace

named_twice : (namespace : Str) → named (named namespace) ≡ named namespace
named_twice namespace = ground (arith, default-ne-nil)

-- The backup that is made from the metadata of a backup, with a default namespace where that is
-- empty, has the same metadata.
pub metadata_of-backup_of_metadata :
    (vm_backup : VirtualMachineBackup) (status : VirtualMachineBackupStatus)
    (target : TargetSetting)
    → let uploaded : VirtualMachineBackupMetadata = metadata_of vm_backup status in
      let made : VirtualMachineBackup =
        backup_of_metadata (with_default_namespace uploaded) target in
      (s : VirtualMachineBackupStatus) × (made.status ≡ some s) × (metadata_of made s ≡ uploaded)
unfolding backup_of_metadata with_default_namespace metadata_of
metadata_of-backup_of_metadata vm_backup status target = (
  _,
  refl,
  rw
      (
        named_twice vm_backup.object_meta.namespace,
        named_twice vm_backup.object_meta.namespace,
        sanitized_twice status.volume_backups,
      )
      refl,
)

-- A backup that is made from metadata with a source and volumes goes on with its snapshots at its next
-- change: neither is it ready, nor does it look for the machine of its source.
backup_of_metadata_continues :
    {W : Type 0} (h : Env W) (metadata : VirtualMachineBackupMetadata) (target : TargetSetting)
    (w : W) {source : _} {volume_backups : List VolumeBackup}
    → metadata.vm_source_spec ≡ some source
    → metadata.volume_backups ≡ some volume_backups
    → on_backup_change h (backup_of_metadata metadata target) w
      ≡ continue_backup h (backup_of_metadata metadata target) w
unfolding backup_of_metadata on_backup_change is_backup_ready is_backup_missing_status
backup_of_metadata_continues h metadata target w s v = rw (s, v) refl
