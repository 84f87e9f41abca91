-- ===== src/Restore/Reconcile.antt =====
-- The handlers of a restore: `Reconcile`, `OnRestoreChange`, `OnRestoreRemove`, and the writes of its
-- status (controllers/hci/virtualmachinerestore_controller.go).
pub mod Laws
use hci_controller_manager.Base.{
  Str, text, ℕ, suc, Bool, true, false, not, ◌&&◌, ◌||◌, Option, none, some, List, [], ◌∷◌, ◌++◌,
  ◌==◌, ◌!=◌, nat_eq, list_eq, if◌then◌else◌, elements, M, ok, err, panic, Outcome, Err,
  is_not_found, errorf, pure, fail, crash, deref, of_outcome, attempt, catch, ◌>>=◌, ◌>>◌, gets,
}
use hci_controller_manager.Api.{
  VirtualMachineBackup, VolumeBackup, VirtualMachineRestore, VirtualMachineRestoreStatus,
  VirtualMachine, NamespacedName, Time, ConditionStatus, condition_true, condition_false,
  restore_eq,
}
use hci_controller_manager.Env.{Env}
use hci_controller_manager.Pkg.Names.{construct_volume_snapshot_content_name}
use hci_controller_manager.Backup.State.{
  is_set, is_empty, new_ready_condition, new_progressing_condition,
}
use hci_controller_manager.Backup.Machine.{cluster_key}
use hci_controller_manager.Restore.State.{
  is_vm_restore_progressing, is_vm_restore_missing_volumes, update_restore_condition,
  config_vm_owner,
}
use hci_controller_manager.Restore.Volumes.{
  init_volumes_status, reconcile_volume_restores, mount_longhorn_volumes,
}
use hci_controller_manager.Restore.Machine.{
  get_vm_backup, reconcile_vm, reconcile_secret_backups, start_vm, delete_old_pvc,
}

-- The two conditions written one after the other, with their status, reason and message. `at i` is
-- the time that the code reads `i`-th.
unfoldable pub report :
    (ℕ → Str)
    → ConditionStatus
    → ConditionStatus
    → Str
    → Str
    → Str
    → VirtualMachineRestoreStatus
    → VirtualMachineRestoreStatus
report at progressing ready reason progress_message ready_message s =
    update_restore_condition
      (update_restore_condition s
        (new_progressing_condition progressing reason progress_message (at 0)))
      (new_ready_condition ready reason ready_message (at 1))

module _ {W : Type 0} (h : Env W) where
  -- The times of one call, rendered.
  abbrev pub times : W → ℕ → Str
  times w i = h.rfc3339 (h.clock w i)

  -- `if !reflect.DeepEqual(vmRestore, restoreCpy) { update }`
  unfoldable pub update_if_changed : VirtualMachineRestore → VirtualMachineRestore → M W Unit
  update_if_changed old new = if old == new then pure tt else h.restores.update new

  unfoldable pub init_status : VirtualMachineRestore → M W Unit
  init_status restore = do
    at ← gets times
    h.restores.update (record restore {
      status = some (record {
        volume_restores = none;
        restore_time = none;
        deleted_volumes = none;
        complete = some false;
        conditions =
            new_progressing_condition condition_true [] (text "Initializing VirtualMachineRestore")
              (at 0)
            ∷ new_ready_condition condition_false [] (text "Initializing VirtualMachineRestore")
                (at 1)
            ∷ [];
        target_uid = none;
      });
    })

  -- The error that was given is returned, unless the update fails.
  unfoldable pub update_status_error : VirtualMachineRestore → Err → Bool → M W Unit
  update_status_error restore e create_event = do
    status ← deref restore.status
    at ← gets times
    let restore' : VirtualMachineRestore = record restore {
      status =
          some
            (report at condition_false condition_false (text "Error") e.message e.message status);
    }
    if restore == restore'
        then pure tt
        else (if create_event
            then h.record_event (text "Warning") (text "VirtualMachineRestoreError")
                (text "VirtualMachineRestore encountered error " ++ e.message)
            else pure tt)
          >> h.restores.update restore'
    fail e

  unfoldable pub update_owner_ref_and_target_uid : VirtualMachineRestore → VirtualMachine → M W Unit
  update_owner_ref_and_target_uid vm_restore vm = do
    status ← deref vm_restore.status
    h.restores.update (record vm_restore {
      object_meta = record (vm_restore.object_meta) {
        owner_references = config_vm_owner h.kubevirt_api_version h.virtual_machine_kind vm;
      };
      status = some (record status {
        target_uid = elim status.target_uid [
          | none ↦ some vm.object_meta.uid
          | some uid ↦ some uid
        ];
      });
    })

  -- The end of a restore whose machine is ready.
  unfoldable pub finish : VirtualMachineRestore → VirtualMachineRestoreStatus → M W Unit
  finish vm_restore status =
      attempt (delete_old_pvc h vm_restore)
        (λ _. do
          h.record_event (text "Normal") (text "VirtualMachineRestoreComplete")
              (text "Successfully completed VirtualMachineRestore " ++ vm_restore.object_meta.name)
          now ← gets h.clock
          h.restores.update (record vm_restore {
            status = some (
                report (λ i. h.rfc3339 (now (suc i))) condition_false condition_true []
                  (text "Operation complete") (text "Operation complete")
                  (record status { restore_time = some (now 0); complete = some true }));
          }))
        (λ e.
          update_status_error vm_restore (errorf (text "error cleaning up, err:" ++ e.message))
            false)

  unfoldable pub update_status : VirtualMachineRestore → VirtualMachine → Bool → M W Unit
  update_status vm_restore vm volumes_ready = do
    status ← deref vm_restore.status
    at ← gets times
    if not volumes_ready
        then update_if_changed vm_restore (record vm_restore {
          status = some (
              report at condition_true condition_false [] (text "Creating new PVCs")
                (text "Waiting for new PVCs") status);
        })
        else attempt (start_vm h vm)
            (λ _. if vm.ready then finish vm_restore status else do
              at' ← gets times
              update_if_changed vm_restore (record vm_restore {
                status = some (
                    report at' condition_false condition_false []
                      (text "Waiting for target vm to be ready")
                      (text "Waiting for target vm to be ready") status);
              }))
            (λ e.
              update_status_error vm_restore (errorf (text "failed to start vm, err:" ++ e.message))
                false)

  unfoldable pub reconcile_resources :
      VirtualMachineRestore → VirtualMachineBackup → M W (VirtualMachine × Bool)
  reconcile_resources vm_restore vm_backup = do
    volumes_ready ← reconcile_volume_restores h vm_restore vm_backup
    vm ← reconcile_vm h vm_restore vm_backup
    reconcile_secret_backups h vm_restore vm_backup vm
    pure (vm, volumes_ready)

  -- `OnRestoreChange` behind the read of the backup.
  unfoldable pub advance_restore :
      VirtualMachineRestore → VirtualMachineRestoreStatus → VirtualMachineBackup → M W Unit
  advance_restore restore status vm_backup =
      if is_vm_restore_missing_volumes restore status
      then attempt (mount_longhorn_volumes h vm_backup)
          (λ _. init_volumes_status h restore vm_backup) (λ e. update_status_error restore e true)
      else attempt (reconcile_resources restore vm_backup)
          (λ (vm, volumes_ready).
            if is_empty restore.object_meta.owner_references
            then update_owner_ref_and_target_uid restore vm
            else update_status restore vm volumes_ready)
          (λ e. update_status_error restore e true)

  unfoldable pub on_restore_change : VirtualMachineRestore → M W Unit
  on_restore_change restore =
      if is_set restore.object_meta.deletion_timestamp || not (is_vm_restore_progressing restore)
      then pure tt
      else elim restore.status [
        | none ↦ init_status restore
        | some status ↦
            attempt (get_vm_backup h restore) (advance_restore restore status)
              (λ e. update_status_error restore e true)
      ]

  -- The loop of `OnRestoreRemove`: the snapshot contents that the restore has created.
  unfoldable pub remove_contents : VirtualMachineRestore → List VolumeBackup → M W Unit
  remove_contents restore [] = pure tt
  remove_contents restore (vb ∷ volume_backups) =
      let rest = remove_contents restore volume_backups in
      do
        volume_backup_name ← deref vb.name
        attempt
            (h.snapshot_contents.get (
              cluster_key (
                construct_volume_snapshot_content_name h.sha256_hex restore.object_meta.namespace
                  restore.object_meta.name volume_backup_name)))
            h.snapshot_contents.delete (λ e. if is_not_found e then pure tt else fail e)
        rest

  unfoldable pub on_restore_remove : VirtualMachineRestore → M W Unit
  on_restore_remove restore = elim restore.status [
    | none ↦ pure tt
    | some _ ↦ do
      vm_backup ← get_vm_backup h restore
      status ← deref vm_backup.status
      remove_contents restore (elements status.volume_backups)
  ]

  unfoldable pub reconcile : NamespacedName → M W Unit
  reconcile key =
      attempt (h.restores.get key)
        (λ restore.
          if is_set restore.object_meta.deletion_timestamp
          then on_restore_remove restore
          else on_restore_change restore)
        (λ e. if is_not_found e then pure tt else fail e)
