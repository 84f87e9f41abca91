-- ===== src/Backup/Initial.antt =====
-- The statuses that a backup starts from and fails with
-- (controllers/hci/virtualmachinebackup_controller.go).
use hci_controller_manager.Base.{Str, text, ℕ, false, none, some, List, [], nat_eq, list_eq}
use hci_controller_manager.Api.{
  VirtualMachineBackupStatus, VolumeBackup, SecretBackup, VirtualMachine, condition_false, Time,
}
use hci_controller_manager.Backup.State.{
  update_backup_condition, new_ready_condition, new_progressing_condition,
}

-- `&VirtualMachineBackupStatus{}`
abbrev pub empty_status : VirtualMachineBackupStatus
empty_status = record {
  source_uid = none;
  creation_time = none;
  backup_target = none;
  csi_driver_volume_snapshot_class_names = [];
  source_spec = none;
  volume_backups = none;
  secret_backups = [];
  ready_to_use = none;
  error = none;
  conditions = [];
}

abbrev pub backup_controller_name : Str
backup_controller_name = text "hci-vm-backup-controller"

-- The status that `setStatusError` writes: a status that is there is replaced by an empty one.
unfoldable pub error_status : (Time → Str) → (ℕ → Time) → Str → VirtualMachineBackupStatus
error_status rfc3339 now message =
    update_backup_condition
      (update_backup_condition
        (record empty_status {
          error = some (record { time = some (now 0); message = some message });
        })
        (new_progressing_condition condition_false (text "Error") message (rfc3339 (now 1))))
      (new_ready_condition condition_false [] (text "Not Ready") (rfc3339 (now 2)))

-- The status that `initBackup` starts from. Its list of volumes is not nil, also when it is empty;
-- Backup.Stored says how it is read back.
unfoldable pub initial_status :
    VirtualMachine → List VolumeBackup → List SecretBackup → VirtualMachineBackupStatus
initial_status vm volume_backups secret_backups =
    let m = vm.object_meta in
    record empty_status {
      ready_to_use = some false;
      source_uid = some m.uid;
      source_spec = some (record {
        object_meta = record {
          name = m.name;
          namespace = m.namespace;
          uid = [];
          annotations = m.annotations;
          labels = m.labels;
          finalizers = [];
          owner_references = [];
          deletion_timestamp = none;
        };
        spec = vm.spec;
      });
      volume_backups = some volume_backups;
      secret_backups = secret_backups;
    }
