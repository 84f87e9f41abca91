-- ===== src/Backup/Life.antt =====
-- The life of a backup as the program writes it: Reconcile and what it calls, in
-- controllers/hci/virtualmachinebackup_controller.go, and OnLHBackupChanged, in
-- controllers/hci/backup_status.go. Which object a write may put in the place of which.
pub mod Reads
pub mod Snapshots
pub mod Upload
pub mod Removal
pub mod Writes
pub mod Refinement
pub mod Handlers
pub mod Ends
pub mod Kept
pub mod Laws
use hci_controller_manager.Backup.Stored.{read_back}
use hci_controller_manager.Base.{
  Str, ℕ, ◌≡◌, Bool, true, false, Option, none, some, List, ok, elements,
}
use hci_controller_manager.Base.Dict.{Dict}
use hci_controller_manager.Api.{
  VirtualMachineBackup, VirtualMachineBackupStatus, VirtualMachine, VolumeBackup, SecretBackup,
  BackupTarget, Time,
}
use hci_controller_manager.Backup.State.{
  is_set, is_empty, is_backup_ready, is_backup_missing_status, is_backup_target_on_annotation,
}
use hci_controller_manager.Backup.Progress.{scan_volumes, refresh}
use hci_controller_manager.Backup.Target.{sanitize_volume_backups}
use hci_controller_manager.Backup.Snapshots.{with_volume_backups}
use hci_controller_manager.Backup.Longhorn.{set_longhorn_backup_name}
use hci_controller_manager.Backup.Initial.{error_status, initial_status, backup_controller_name}
use hci_controller_manager.Pkg.Finalizers.{add_finalizer, remove_finalizer}

abbrev pub with_status : VirtualMachineBackup → VirtualMachineBackupStatus → VirtualMachineBackup
with_status b s = record b { status = some s }

-- A backup that is neither deleted nor ready.
pub record IsOpen (b : VirtualMachineBackup) : Type 0 where
  pub kept : is_set b.object_meta.deletion_timestamp ≡ false
  pub unready : is_backup_ready b ≡ false

-- A backup whose source and volumes are known, and which is still to become ready.
pub record InProgress (b : VirtualMachineBackup) (s : VirtualMachineBackupStatus) : Type 0 where
  pub open_backup : IsOpen b
  pub known : is_backup_missing_status b ≡ false
  pub at_status : b.status ≡ some s

-- The writes of the program, with the conditions under which it makes them.
pub data BackupStep (rfc3339 : Time → Str) (b : VirtualMachineBackup)
    : VirtualMachineBackup → Type 0 where
  start :
      (vm : VirtualMachine) (volume_backups : List VolumeBackup)
      (secret_backups : List SecretBackup) (names : Dict Str) (target : Option BackupTarget)
      → IsOpen b
      → is_backup_missing_status b ≡ true
      → BackupStep rfc3339 b (
          with_status b (record (initial_status vm volume_backups secret_backups) {
            csi_driver_volume_snapshot_class_names = names;
            backup_target = target;
          }))
  give_up :
      (now : ℕ → Time) (message : Str)
      → IsOpen b
      → BackupStep rfc3339 b (with_status b (error_status rfc3339 now message))
  observe :
      (s : VirtualMachineBackupStatus) (volume_backups : List VolumeBackup)
      → InProgress b s
      → sanitize_volume_backups volume_backups ≡ sanitize_volume_backups (elements s.volume_backups)
      → BackupStep rfc3339 b (with_status b (with_volume_backups s volume_backups))
  conclude :
      (s : VirtualMachineBackupStatus) (now : ℕ → Time) (ready : Bool) (message : Str)
      → InProgress b s
      → scan_volumes true (elements s.volume_backups) ≡ ok (ready, message)
      → BackupStep rfc3339 b (with_status b (refresh rfc3339 now ready message s))
  classify :
      (s : VirtualMachineBackupStatus) (names : Dict Str)
      → is_backup_ready b ≡ true
      → b.status ≡ some s
      → is_empty s.csi_driver_volume_snapshot_class_names ≡ true
      → BackupStep rfc3339 b
          (with_status b (record s { csi_driver_volume_snapshot_class_names = names }))
  retarget :
      (s : VirtualMachineBackupStatus) (target : BackupTarget)
      → b.status ≡ some s
      → is_backup_target_on_annotation b ≡ true
      → BackupStep rfc3339 b (with_status b (record s { backup_target = some target }))
  learn :
      (s : VirtualMachineBackupStatus) (snapshot_name longhorn_name : Str)
      (old new : List VolumeBackup)
      → b.status ≡ some s
      → is_set s.backup_target ≡ true
      → s.volume_backups ≡ some old
      → set_longhorn_backup_name snapshot_name longhorn_name old ≡ ok new
      → BackupStep rfc3339 b (with_status b (record s { volume_backups = some new }))
  protect : BackupStep rfc3339 b (record b {
    object_meta = record (b.object_meta) {
      finalizers = add_finalizer b.object_meta.finalizers backup_controller_name;
    };
  })
  release : BackupStep rfc3339 b (record b {
    object_meta = record (b.object_meta) {
      finalizers = remove_finalizer b.object_meta.finalizers backup_controller_name;
    };
  })

-- The objects as they are read: each write is read back before the next one.
pub data Life (rfc3339 : Time → Str) (b : VirtualMachineBackup)
    : VirtualMachineBackup → Type 0 where
  here : Life rfc3339 b b
  next :
      {c d : VirtualMachineBackup}
      → Life rfc3339 b c
      → BackupStep rfc3339 c d
      → Life rfc3339 b (read_back d)
