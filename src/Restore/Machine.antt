-- ===== src/Restore/Machine.antt =====
-- The target machine of a restore and its secrets (controllers/hci/virtualmachinerestore_controller.go).
pub mod Laws
use hci_controller_manager.Base.{
  Str, text, ℕ, Bool, true, false, not, ◌&&◌, ◌||◌, Option, none, some, List, [], ◌∷◌, ◌++◌, ◌==◌,
  ◌!=◌, nat_eq, list_eq, option_eq, if◌then◌else◌, elements, M, ok, err, panic, Outcome, Err,
  is_not_found, errorf, pure, fail, crash, deref, of_outcome, attempt, catch, ◌>>=◌, ◌>>◌, gets,
}
use hci_controller_manager.Base.Dict
use hci_controller_manager.Base.Dict.{Dict}
use hci_controller_manager.Api.{
  VirtualMachineBackup, VirtualMachineBackupStatus, VirtualMachineSourceSpec, SecretBackup,
  VirtualMachineRestore, VirtualMachineRestoreStatus, VirtualMachine, VirtualMachineSpec,
  VirtualMachineInstanceTemplateSpec, Interface, NamespacedName, OwnerReference, Secret, secret_eq,
  RunStrategy, always, rerun_on_failure, manual, halted, other_strategy, PersistentVolumeClaim,
  claim_other,
}
use hci_controller_manager.Env.{Env}
use hci_controller_manager.Pkg.Names.{get_secret_ref_name}
use hci_controller_manager.Backup.State.{is_set, key_of, is_backup_ready}
use hci_controller_manager.Backup.Objects.{empty_meta}
use hci_controller_manager.Restore.State.{
  get_restore_id, get_new_volumes, config_vm_owner, sanitize_virtual_machine_for_restore,
  sanitize_virtual_machine_annotations_for_restore, is_new_vm_or_has_retain_policy,
}
use hci_controller_manager.Restore.Objects.{restore_name_annotation}
use hci_controller_manager.Restore.NewVm.{
  annotation_volume_claim_templates, empty_claim, last_restore_annotation, new_vm,
  restored_annotations, with_new_volumes, without_mac_addresses,
}

module _ {W : Type 0} (h : Env W) where
  -- `none` for a machine that is not found.
  unfoldable pub get_vm : VirtualMachineRestore → M W (Option VirtualMachine)
  get_vm vm_restore =
      if vm_restore.spec.target.kind == h.virtual_machine_kind
      then attempt
          (h.virtual_machines.get (record {
            namespace = vm_restore.object_meta.namespace;
            name = vm_restore.spec.target.name;
          }))
          (λ vm. pure (some vm)) (λ e. if is_not_found e then pure none else fail e)
      else fail (errorf (text "unknown target"))

  unfoldable pub get_vm_backup : VirtualMachineRestore → M W VirtualMachineBackup
  get_vm_backup vm_restore = do
    vm_backup ← h.backups.get (record {
      namespace = vm_restore.spec.virtual_machine_backup_namespace;
      name = vm_restore.spec.virtual_machine_backup_name;
    })
    let name = vm_backup.object_meta.name
    if not (is_backup_ready vm_backup)
        then fail (errorf (text "VMBackup " ++ name ++ text " is not ready"))
        else do
          status ← deref vm_backup.status
          if not (is_set status.source_spec)
              then fail (errorf (text "empty vm backup source spec of " ++ name))
              else pure vm_backup

  -- The source of a backup: `*backup.Status.SourceSpec`
  unfoldable pub source_of : VirtualMachineBackup → M W VirtualMachineSourceSpec
  source_of vm_backup = do status ← deref vm_backup.status; deref status.source_spec

  unfoldable pub create_new_vm : VirtualMachineRestore → VirtualMachineBackup → M W VirtualMachine
  create_new_vm restore vm_backup = do
    source ← source_of vm_backup
    template ← deref source.spec.template
    new_annotations ← of_outcome (
        sanitize_virtual_machine_annotations_for_restore h.md5_hex restore.spec.target.name
          h.decode_ssh_key_names h.marshal_ssh_key_names
          (elements template.object_meta.annotations))
    let vm = new_vm h.md5_hex restore source.spec template new_annotations
    status ← deref restore.status
    spec ← deref (with_new_volumes vm.spec status)
    h.virtual_machines.create (record vm { spec = spec })
    h.virtual_machines.get (key_of vm.object_meta)

  -- The machine brought to the restored state, unless its annotation says that it is there.
  unfoldable pub apply_restore :
      VirtualMachineRestore → VirtualMachineBackup → VirtualMachine → M W VirtualMachine
  apply_restore vm_restore vm_backup vm =
      if Dict.lookup last_restore_annotation (elements vm.object_meta.annotations)
        == some (get_restore_id vm_restore)
      then pure vm
      else do
        source ← source_of vm_backup
        status ← deref vm_restore.status
        spec ← deref (with_new_volumes source.spec status)
        h.virtual_machines.update (record vm {
          spec = spec;
          object_meta = record (vm.object_meta) {
            annotations = some (restored_annotations vm_restore vm.object_meta.annotations);
          };
        })
        h.virtual_machines.get (key_of vm.object_meta)

  unfoldable pub reconcile_vm : VirtualMachineRestore → VirtualMachineBackup → M W VirtualMachine
  reconcile_vm vm_restore vm_backup = do
    found ← get_vm vm_restore
    vm ← elim found [ none ↦ create_new_vm vm_restore vm_backup | some vm ↦ pure vm ]
    apply_restore vm_restore vm_backup vm

  unfoldable pub create_or_update_secret : Str → Str → Dict Str → List OwnerReference → M W Unit
  create_or_update_secret namespace name contents owner_refs =
      attempt (h.secrets.get (record { namespace = namespace; name = name }))
        (λ secret.
          if secret == record secret { contents = contents }
          then pure tt
          else h.secrets.update (record secret { contents = contents }))
        λ e.
          if is_not_found e
          then h.secrets.create (record {
            object_meta = record empty_meta {
              name = name;
              namespace = namespace;
              owner_references = owner_refs;
            };
            contents = contents;
            string_data = none;
          })
          else fail e

  -- The name of a restored secret: its own, or a new one for a new machine.
  abbrev pub restored_secret_name : VirtualMachineRestore → Str → Str
  restored_secret_name vm_restore name =
      if vm_restore.spec.new_vm
      then get_secret_ref_name h.md5_hex vm_restore.spec.target.name name
      else name

  unfoldable pub reconcile_secrets :
      VirtualMachineRestore → List OwnerReference → List SecretBackup → M W Unit
  reconcile_secrets vm_restore owner_refs [] = pure tt
  reconcile_secrets vm_restore owner_refs (s ∷ secret_backups) =
      let rest = reconcile_secrets vm_restore owner_refs secret_backups in
      create_or_update_secret vm_restore.object_meta.namespace
        (restored_secret_name vm_restore s.name) s.contents owner_refs
      >> rest

  unfoldable pub reconcile_secret_backups :
      VirtualMachineRestore → VirtualMachineBackup → VirtualMachine → M W Unit
  reconcile_secret_backups vm_restore vm_backup vm = do
    status ← deref vm_backup.status
    reconcile_secrets vm_restore (config_vm_owner h.kubevirt_api_version h.virtual_machine_kind vm)
        status.secret_backups

  unfoldable pub start_vm : VirtualMachine → M W Unit
  start_vm vm = do
    strategy ← of_outcome (h.run_strategy vm)
    elim strategy [
      | always ↦ pure tt
      | rerun_on_failure ↦ pure tt
      | manual ↦ h.instance_running (key_of vm.object_meta) >>= λ running.
          if running then pure tt else h.start (key_of vm.object_meta)
      | halted ↦ h.start (key_of vm.object_meta)
      | other_strategy ↦ pure tt
    ]

  -- A claim that is not found leaves the object of the read empty, and that object is deleted.
  unfoldable pub delete_claims : Str → List Str → M W Unit
  delete_claims namespace [] = pure tt
  delete_claims namespace (vol_name ∷ names) =
      let rest = delete_claims namespace names in
      attempt (h.claims.get (record { namespace = namespace; name = vol_name })) h.claims.delete
        (λ e. if is_not_found e then h.claims.delete empty_claim else fail e)
      >> rest

  unfoldable pub delete_old_pvc : VirtualMachineRestore → M W Unit
  delete_old_pvc vm_restore =
      if is_new_vm_or_has_retain_policy vm_restore
      then pure tt
      else deref vm_restore.status >>= λ status.
          delete_claims vm_restore.object_meta.namespace (elements status.deleted_volumes)
