-- ===== src/Backup/Reconcile.antt =====
-- The handlers of a backup: `Reconcile`, `OnBackupChange`, `OnBackupRemove` and what they call
-- (controllers/hci/virtualmachinebackup_controller.go).
pub mod Laws
use hci_controller_manager.Base.{
  Str, text, ℕ, Bool, true, false, not, ◌&&◌, ◌||◌, Option, none, some, List, [], ◌∷◌, ◌++◌, ◌==◌,
  ◌!=◌, nat_eq, list_eq, if◌then◌else◌, elements, M, ok, err, panic, Err, is_not_found, errorf,
  pure, fail, crash, deref, of_outcome, attempt, catch, ◌>>=◌, ◌>>◌, gets,
}
use hci_controller_manager.Base.Dict.{Dict}
use hci_controller_manager.Api.{
  VirtualMachineBackup, VirtualMachineBackupStatus, VolumeBackup, SecretBackup, VirtualMachine,
  BackupTarget, TargetSetting, backup, snapshot, NamespacedName, condition_false, Time,
}
use hci_controller_manager.Env.{Env}
use hci_controller_manager.Pkg.Finalizers.{has_finalizer, add_finalizer, remove_finalizer}
use hci_controller_manager.Backup.State.{
  is_set, is_empty, annotation, key_of, is_backup_ready, is_backup_missing_status,
  is_backup_target_same, is_backup_target_on_annotation, backup_target_annotation,
  backup_bucket_name_annotation, backup_bucket_region_annotation, update_backup_condition,
  new_ready_condition, new_progressing_condition,
}
use hci_controller_manager.Backup.Progress.{update_conditions}
use hci_controller_manager.Backup.Source.{
  get_backup_source, mount_longhorn_volumes, get_volume_backups, get_secret_backups,
  get_csi_driver_map,
}
use hci_controller_manager.Backup.Snapshots.{
  reconcile_volume_snapshots, force_delete_volume_snapshot_and_content,
}
use hci_controller_manager.Backup.Target.{
  get_backup_target_setting, decode_backup_target, upload_vm_backup_metadata,
  delete_vm_backup_metadata,
}
use hci_controller_manager.Backup.Initial.{
  backup_controller_name, empty_status, error_status, initial_status,
}

module _ {W : Type 0} (h : Env W) where
  -- A nil error is dereferenced by `err.Error()`; a nil status, by the write to its field. On success
  -- the error that was given is returned.
  unfoldable pub set_status_error : VirtualMachineBackup → Option Err → M W Unit
  set_status_error vm_backup given = do
    status ← deref vm_backup.status
    e ← deref given
    now ← gets h.clock
    h.backups.update (record vm_backup { status = some (error_status h.rfc3339 now e.message) })
    fail e

  unfoldable pub configure_csi_driver_volume_snapshot_class_names :
      VirtualMachineBackup → M W VirtualMachineBackup
  configure_csi_driver_volume_snapshot_class_names vm_backup = do
    status ← deref vm_backup.status
    if not (is_empty status.csi_driver_volume_snapshot_class_names) then pure vm_backup else do
      (names, _) ← get_csi_driver_map h vm_backup
      h.backups.update (record vm_backup {
        status = some (record status { csi_driver_volume_snapshot_class_names = names });
      })
      h.backups.get (key_of vm_backup.object_meta)

  unfoldable pub configure_backup_target_on_status : VirtualMachineBackup → M W VirtualMachineBackup
  configure_backup_target_on_status vm_backup =
      if not (is_backup_target_on_annotation vm_backup) then pure vm_backup else do
        status ← deref vm_backup.status
        h.backups.update (record vm_backup {
          status = some (record status {
            backup_target = some (record {
              endpoint = annotation vm_backup.object_meta backup_target_annotation;
              bucket_name = annotation vm_backup.object_meta backup_bucket_name_annotation;
              bucket_region = annotation vm_backup.object_meta backup_bucket_region_annotation;
            });
          });
        })
        h.backups.get (key_of vm_backup.object_meta)

  unfoldable pub handle_backup_ready : VirtualMachineBackup → M W Unit
  handle_backup_ready given = do
    vm_backup ← configure_csi_driver_volume_snapshot_class_names given
    elim vm_backup.spec.type [
      | snapshot ↦ pure tt
      | backup ↦ configure_backup_target_on_status vm_backup >>= λ configured.
          upload_vm_backup_metadata h configured none
    ]

  -- The target that a new backup records: none for a snapshot.
  unfoldable pub recorded_target : VirtualMachineBackup → M W (Option BackupTarget)
  recorded_target vm_backup = elim vm_backup.spec.type [
    | snapshot ↦ pure none
    | backup ↦ (get_backup_target_setting h >>= decode_backup_target h) >>= λ target. pure (
        some (record {
          endpoint = target.endpoint;
          bucket_name = target.bucket_name;
          bucket_region = target.bucket_region;
        }))
  ]

  unfoldable pub init_backup : VirtualMachineBackup → VirtualMachine → M W Unit
  init_backup vm_backup vm = do
    volume_backups ← get_volume_backups h vm_backup vm
    secret_backups ← get_secret_backups h vm
    let status = initial_status vm volume_backups secret_backups
    (names, _) ← get_csi_driver_map h (record vm_backup { status = some status })
    target ← recorded_target vm_backup
    h.backups.update (record vm_backup {
      status = some (record status {
        csi_driver_volume_snapshot_class_names = names;
        backup_target = target;
      });
    })

  -- The branch for a backup whose status is not filled in yet.
  unfoldable pub start_backup : VirtualMachineBackup → M W Unit
  start_backup vm_backup =
      attempt (get_backup_source h vm_backup)
        (λ source_vm.
          if not source_vm.ready || not source_vm.created
          then attempt (mount_longhorn_volumes h source_vm) (λ _. init_backup vm_backup source_vm)
              (λ e. set_status_error vm_backup (some e))
          else init_backup vm_backup source_vm)
        (λ e. set_status_error vm_backup (some e))

  -- The branch for a backup in progress. `return *result, h.setStatusError(vmBackup, err)` follows a
  -- result that is not nil, with a nil error, and an error, with a nil result. Go leaves open whether the
  -- result or the call comes first; here the call does.
  unfoldable pub continue_backup : VirtualMachineBackup → M W Unit
  continue_backup vm_backup =
      attempt (get_csi_driver_map h vm_backup)
        (λ (names, classes).
          attempt (reconcile_volume_snapshots h vm_backup classes)
            (λ requeued.
              if requeued then set_status_error vm_backup none else update_conditions h vm_backup)
            (λ e. catch (set_status_error vm_backup (some e)) (λ _. pure tt) >> crash))
        (λ e. set_status_error vm_backup (some e))

  unfoldable pub on_backup_change : VirtualMachineBackup → M W Unit
  on_backup_change vm_backup =
      if is_set vm_backup.object_meta.deletion_timestamp
      then pure tt
      else if is_backup_ready vm_backup
      then handle_backup_ready vm_backup
      else if is_backup_missing_status vm_backup
      then start_backup vm_backup
      else continue_backup vm_backup

  unfoldable pub on_backup_remove : VirtualMachineBackup → M W Unit
  on_backup_remove vm_backup = elim vm_backup.status [
    | none ↦ pure tt
    | some status ↦ elim status.backup_target [
      | none ↦ pure tt
      | some backup_target ↦ do
        target ← get_backup_target_setting h >>= decode_backup_target h
        delete_vm_backup_metadata h vm_backup (some target)
        if not (is_backup_target_same backup_target target)
            then force_delete_volume_snapshot_and_content h vm_backup.object_meta.namespace
                (elements status.volume_backups)
            else pure tt
    ]
  ]

  -- `client.IgnoreNotFound`
  abbrev pub ignore_not_found : Err → M W Unit
  ignore_not_found e = if is_not_found e then pure tt else fail e

  -- The object read again, and written with other finalizers.
  unfoldable pub rewrite_finalizers :
      NamespacedName → (List Str → List Str) → (VirtualMachineBackup → M W Unit) → M W Unit
  rewrite_finalizers key change next =
      attempt (h.backups.get key)
        (λ vm_backup.
          h.backups.update (record vm_backup {
            object_meta = record (vm_backup.object_meta) {
              finalizers = change vm_backup.object_meta.finalizers;
            };
          })
          >> next vm_backup)
        ignore_not_found

  -- The second half of `Reconcile`, on the finalizer of the object that was read first.
  unfoldable pub reconcile_finalizer : NamespacedName → VirtualMachineBackup → M W Unit
  reconcile_finalizer key vm_backup =
      let present = has_finalizer vm_backup.object_meta.finalizers backup_controller_name in
      elim vm_backup.object_meta.deletion_timestamp [
        | none ↦
            if not present
            then rewrite_finalizers key (λ f. add_finalizer f backup_controller_name) (λ _. pure tt)
            else pure tt
        | some _ ↦
            if not present
            then pure tt
            else rewrite_finalizers key (λ f. remove_finalizer f backup_controller_name)
                (λ _. attempt (h.backups.get key) on_backup_remove ignore_not_found)
      ]

  unfoldable pub reconcile : NamespacedName → M W Unit
  reconcile key =
      attempt (h.backups.get key)
        (λ found. do
          now ← gets h.clock
          let vm_backup = record found {
            status = elim found.status [
              | none ↦ some (record empty_status { creation_time = some (now 0) })
              | some status ↦ some status
            ];
          }
          on_backup_change vm_backup
          reconcile_finalizer key vm_backup)
        ignore_not_found
