-- ===== src/Backup/Sync.antt =====
-- The reconciler that makes backups from the metadata on a backup target
-- (controllers/hci/backup_metadata.go).
pub mod Laws
use hci_controller_manager.Base.{
  Str, text, Bool, true, false, ◌||◌, Option, none, some, List, [], ◌∷◌, ◌==◌, ◌!=◌, nat_eq,
  list_eq, if◌then◌else◌, M, ok, err, panic, Err, is_not_found, pure, fail, attempt, ◌>>=◌, ◌>>◌,
}
use hci_controller_manager.Api.{
  VirtualMachineBackup, VirtualMachineBackupStatus, VirtualMachineBackupMetadata, TargetSetting,
  Setting, NamespacedName,
}
use hci_controller_manager.Env.{Env, Driver}
use hci_controller_manager.Backup.State.{is_set}
use hci_controller_manager.Backup.Machine.{cluster_key}
use hci_controller_manager.Backup.Objects.{empty_meta}
use hci_controller_manager.Backup.Target.{
  backup_target_setting_name, metadata_folder_path, metadata_path, is_default_backup_target,
  decode_backup_target, open_driver, load_backup_metadata_in_backup_target,
}
use hci_controller_manager.Backup.Initial.{empty_status}

-- The backup that a metadata file stands for, on the target that it lies on.
unfoldable pub backup_of_metadata :
    VirtualMachineBackupMetadata → TargetSetting → VirtualMachineBackup
backup_of_metadata metadata target = record {
  object_meta = record empty_meta { name = metadata.name; namespace = metadata.namespace };
  spec = metadata.backup_spec;
  status = some (record empty_status {
    ready_to_use = some false;
    backup_target = some (record {
      endpoint = target.endpoint;
      bucket_name = target.bucket_name;
      bucket_region = target.bucket_region;
    });
    source_spec = metadata.vm_source_spec;
    volume_backups = metadata.volume_backups;
    secret_backups = metadata.secret_backups;
  });
}

-- `if backupMetadata.Namespace == ""`
unfoldable pub with_default_namespace : VirtualMachineBackupMetadata → VirtualMachineBackupMetadata
with_default_namespace metadata = record metadata {
  namespace = if metadata.namespace == [] then text "default" else metadata.namespace;
}

module _ {W : Type 0} (h : Env W) where
  unfoldable pub create_namespace_if_not_exist : Str → M W Unit
  create_namespace_if_not_exist namespace =
      attempt (h.namespaces.get (cluster_key namespace)) (λ _. pure tt)
        λ e.
          if is_not_found e
          then h.namespaces.create (record { object_meta = record empty_meta { name = namespace } })
          else fail e

  unfoldable pub create_vm_backup_if_not_exist :
      VirtualMachineBackupMetadata → TargetSetting → M W Unit
  create_vm_backup_if_not_exist metadata target =
      attempt (h.backups.get (record { namespace = metadata.namespace; name = metadata.name }))
        (λ _. pure tt)
        λ e.
          if is_not_found e
          then create_namespace_if_not_exist metadata.namespace
            >> h.backups.create (backup_of_metadata metadata target)
          else fail e

  -- The loop over the files.
  unfoldable pub sync_files : TargetSetting → Driver W → List Str → M W Unit
  sync_files target driver [] = pure tt
  sync_files target driver (file_name ∷ file_names) =
      let rest = sync_files target driver file_names in
      do
        metadata ← load_backup_metadata_in_backup_target h (metadata_path file_name) driver
        create_vm_backup_if_not_exist (with_default_namespace metadata) target
        rest

  unfoldable pub sync_vm_backup : TargetSetting → M W Unit
  sync_vm_backup target = do
    driver ← open_driver h target
    file_names ← driver.list metadata_folder_path
    sync_files target driver file_names

  -- Is another run wanted, in 5 seconds? An error of the synchronization is logged only.
  unfoldable pub on_backup_target_change : Setting → M W Bool
  on_backup_target_change setting =
      if is_set setting.object_meta.deletion_timestamp
        || setting.object_meta.name != backup_target_setting_name
        || setting.value == []
      then pure false
      else do
        target ← decode_backup_target h setting.value
        if is_default_backup_target target
            then pure false
            else attempt (sync_vm_backup target) (λ _. pure false) (λ _. pure true)

  unfoldable pub reconcile_metadata : NamespacedName → M W Bool
  reconcile_metadata key =
      attempt (h.settings.get key) on_backup_target_change
        λ e. if is_not_found e then pure false else fail e
