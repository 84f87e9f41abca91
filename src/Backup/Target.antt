-- ===== src/Backup/Target.antt =====
-- The metadata of a backup on its backup target: `ConstructEndpoint` of
-- controllers/hci/backup_target.go, `loadBackupMetadataInBackupTarget` of backup_metadata.go, and the
-- upload and the deletion of virtualmachinebackup_controller.go.
pub mod Laws
use hci_controller_manager.Base.{
  Str, text, ℕ, Bool, true, false, not, ◌&&◌, ◌||◌, Option, none, some, List, [], ◌∷◌, ◌++◌, ◌==◌,
  ◌!=◌, nat_eq, list_eq, if◌then◌else◌, elements, map, M, ok, err, panic, Err, errorf, pure, fail,
  crash, deref, of_outcome, attempt, catch, ◌>>=◌, ◌>>◌,
}
use hci_controller_manager.Base.Dict
use hci_controller_manager.Base.Dict.{Dict}
use hci_controller_manager.Api.{
  VirtualMachineBackup, VirtualMachineBackupStatus, VolumeBackup, BackupTarget, TargetSetting,
  TargetType, s3, nfs, unset, other_type, Secret, VirtualMachineBackupMetadata, target_setting_eq,
  metadata_eq,
}
use hci_controller_manager.Env.{Env, Driver}
use hci_controller_manager.Pkg.Names.{get_vm_backup_metadata_file_name}
use hci_controller_manager.Pkg.Strings.{trim_prefix}
use hci_controller_manager.Backup.State.{is_set, or_empty, is_backup_target_same}
use hci_controller_manager.Backup.Machine.{longhorn_system_namespace_name, cluster_key}

abbrev pub backup_target_secret_name : Str
backup_target_secret_name = text "hci-backup-target-secret"

abbrev pub backup_target_setting_name : Str
backup_target_setting_name = text "backup-target"

abbrev pub metadata_folder_path : Str
metadata_folder_path = text "hci/vmbackups"

-- `&BackupTarget{}`
abbrev pub default_target : TargetSetting
default_target = record {
  type = unset;
  endpoint = [];
  access_key_id = [];
  secret_access_key = [];
  bucket_name = [];
  bucket_region = [];
  cert = [];
  virtual_hosted_style = false;
}

unfoldable pub is_default_backup_target : TargetSetting → Bool
is_default_backup_target target = elim target.type [ unset ↦ target == default_target | _ ↦ false ]

unfoldable pub construct_endpoint : TargetSetting → Str
construct_endpoint target = elim target.type [
  | s3 ↦ text "s3://" ++ (target.bucket_name ++ b'@' ∷ (target.bucket_region ++ text "/"))
  | nfs ↦ text "nfs://" ++ trim_prefix target.endpoint (text "nfs://")
  | _ ↦ target.endpoint
]

-- `filepath.Join(metadataFolderPath, name)`, for a name without slashes
abbrev pub metadata_path : Str → Str
metadata_path name = metadata_folder_path ++ b'/' ∷ name

unfoldable pub sanitize_volume_backups : List VolumeBackup → List VolumeBackup
sanitize_volume_backups [] = []
sanitize_volume_backups (vb ∷ volume_backups) =
    record vb { ready_to_use = none; creation_time = none; error = none }
    ∷ sanitize_volume_backups volume_backups

-- The metadata of a backup as `uploadVMBackupMetadata` builds it.
unfoldable pub metadata_of :
    VirtualMachineBackup → VirtualMachineBackupStatus → VirtualMachineBackupMetadata
metadata_of vm_backup status = record {
  name = vm_backup.object_meta.name;
  namespace =
      if vm_backup.object_meta.namespace == []
      then text "default"
      else vm_backup.object_meta.namespace;
  backup_spec = vm_backup.spec;
  vm_source_spec = status.source_spec;
  volume_backups = elim status.volume_backups [
    | none ↦ none
    | some volume_backups ↦ some (sanitize_volume_backups volume_backups)
  ];
  secret_backups = status.secret_backups;
}

module _ {W : Type 0} (h : Env W) where
  -- An error of the read is dropped, and leaves the empty value.
  unfoldable pub get_backup_target_setting : M W Str
  get_backup_target_setting =
      attempt (h.settings.get (cluster_key backup_target_setting_name)) (λ s. pure s.value)
        (λ e. pure [])

  unfoldable pub decode_backup_target : Str → M W TargetSetting
  decode_backup_target value = catch (of_outcome (h.decode_target value)) (λ e.
      fail (errorf (text "unmarshal failed, error: " ++ e.message ++ text ", value: " ++ value)))

  -- `os.Setenv` of the four credentials, from the secret
  unfoldable pub set_credentials : M W Unit
  set_credentials = do
    secret ←
        h.secrets.get
          (record { namespace = longhorn_system_namespace_name; name = backup_target_secret_name })
    h.setenv (text "AWS_ACCESS_KEY_ID")
        (or_empty (Dict.lookup (text "AWS_ACCESS_KEY_ID") secret.contents))
    h.setenv (text "AWS_SECRET_ACCESS_KEY")
        (or_empty (Dict.lookup (text "AWS_SECRET_ACCESS_KEY") secret.contents))
    h.setenv (text "AWS_ENDPOINTS") (or_empty (Dict.lookup (text "AWS_ENDPOINTS") secret.contents))
    h.setenv (text "AWS_CERT") (or_empty (Dict.lookup (text "AWS_CERT") secret.contents))

  -- The driver for a target, with the credentials set first where the target is S3.
  unfoldable pub open_driver : TargetSetting → M W (Driver W)
  open_driver target =
      elim target.type [ s3 ↦ set_credentials | _ ↦ pure tt ]
      >> h.get_backup_store_driver (construct_endpoint target)

  unfoldable pub load_backup_metadata_in_backup_target :
      Str → Driver W → M W VirtualMachineBackupMetadata
  load_backup_metadata_in_backup_target file_path driver = do
    exists ← driver.file_exists file_path
    if not exists
        then fail (errorf (text "cannot find " ++ file_path ++ text " in backupstore"))
        else driver.read file_path >>= λ contents. of_outcome (h.decode_metadata contents)

  -- Is the file on the target to be written? Not if it is there with the same metadata.
  unfoldable pub should_upload : Driver W → Str → VirtualMachineBackupMetadata → M W Bool
  should_upload driver dest_url metadata = do
    exists ← driver.file_exists dest_url
    if not exists
        then pure true
        else load_backup_metadata_in_backup_target dest_url driver >>= λ remote.
            pure (metadata != remote)

  unfoldable pub upload_vm_backup_metadata : VirtualMachineBackup → Option TargetSetting → M W Unit
  upload_vm_backup_metadata vm_backup given = do
    status ← deref vm_backup.status
    backup_target ← elim status.backup_target [
      | none ↦ fail (errorf (text "no backup target in vmbackup.status"))
      | some backup_target ↦ pure backup_target
    ]
    target ← elim given [
      | none ↦ get_backup_target_setting >>= decode_backup_target
      | some target ↦ pure target
    ]
    if is_default_backup_target target || not (is_backup_target_same backup_target target)
        then pure tt
        else do
          driver ← open_driver target
          let metadata = metadata_of vm_backup status
          json ← of_outcome (h.marshal_metadata metadata)
          let dest_url = metadata_path (
              get_vm_backup_metadata_file_name vm_backup.object_meta.namespace
                vm_backup.object_meta.name)
          upload ← should_upload driver dest_url metadata
          if upload then driver.write dest_url json else pure tt

  unfoldable pub delete_vm_backup_metadata : VirtualMachineBackup → Option TargetSetting → M W Unit
  delete_vm_backup_metadata vm_backup given = do
    target ← elim given [
      | none ↦ get_backup_target_setting >>= decode_backup_target
      | some target ↦ pure target
    ]
    if is_default_backup_target target then pure tt else do
      status ← deref vm_backup.status
      backup_target ← deref status.backup_target
      if not (is_backup_target_same backup_target target) then pure tt else do
        driver ← open_driver target
        let dest_url = metadata_path (
            get_vm_backup_metadata_file_name vm_backup.object_meta.namespace
              vm_backup.object_meta.name)
        exists ← driver.file_exists dest_url
        if exists then driver.remove dest_url else pure tt
