-- ===== src/Restore/Volumes.antt =====
-- The volumes of a restore: which ones to make, and the claims, snapshots and snapshot contents that
-- they come from (controllers/hci/virtualmachinerestore_controller.go).
pub mod Laws
use hci_controller_manager.Base.{
  Str, text, ℕ, zero, suc, Bool, true, false, not, ◌&&◌, ◌||◌, Option, none, some, List, [], ◌∷◌,
  ◌++◌, ◌==◌, ◌!=◌, nat_eq, list_eq, if◌then◌else◌, elements, get_elem?, M, ok, err, panic, Outcome,
  Err, is_not_found, errorf, pure, fail, crash, deref, of_outcome, attempt, catch, ◌>>=◌, ◌>>◌,
  gets,
}
use hci_controller_manager.Base.Dict
use hci_controller_manager.Base.Dict.{Dict}
use hci_controller_manager.Api.{
  VirtualMachineBackup, VirtualMachineBackupStatus, VolumeBackup, VirtualMachineRestore,
  VirtualMachineRestoreStatus, VolumeRestore, backup, VolumeSnapshot, VolumeSnapshotContent,
  PersistentVolumeClaim, PersistentVolumeClaimSpec, ClaimPhase, claim_pending, claim_bound,
  claim_other, content_retain, NamespacedName, OwnerReference,
}
use hci_controller_manager.Env.{Env}
use hci_controller_manager.Pkg.Names.{
  construct_volume_snapshot_name, construct_volume_snapshot_content_name,
}
use hci_controller_manager.Pkg.Strings.{has_prefix}
use hci_controller_manager.Backup.State.{is_set, key_of}
use hci_controller_manager.Backup.Source.{mount_volume}
use hci_controller_manager.Backup.Machine.{longhorn_system_namespace_name, cluster_key, slashed}
use hci_controller_manager.Backup.Objects.{empty_meta}
use hci_controller_manager.Restore.State.{is_new_vm_or_has_retain_policy, get_restore_pvc_name}
use hci_controller_manager.Restore.Plan.{
  claim_names, find_restore, get_volume_restores, new_volume_restore, nil_if_empty, prepend,
}
use hci_controller_manager.Restore.Objects.{
  kept_annotations, need_skip, restore_annotations_to_delete, restore_name_annotation,
  restore_owner, restored_claim,
}

-- The phase of a claim that was found: bound, to be waited for, or an error.
abbrev pub of_phase : {W : Type 0} → Err → ClaimPhase → M W Bool
of_phase e claim_pending = pure false
of_phase e claim_bound = pure true
of_phase e claim_other = fail e

module _ {W : Type 0} (h : Env W) where
  unfoldable pub init_volumes_status : VirtualMachineRestore → VirtualMachineBackup → M W Unit
  init_volumes_status vm_restore vm_backup = do
    status ← deref vm_restore.status
    backup_status ← deref vm_backup.status
    let volume_backups = elements backup_status.volume_backups
    volume_restores ← elim status.volume_restores [
      | some volume_restores ↦ pure (some volume_restores)
      | none ↦
          of_outcome (get_volume_restores vm_restore [] volume_backups) >>= λ made. pure (some made)
    ]
    h.restores.update (record vm_restore {
      status = some (record status {
        volume_restores = volume_restores;
        deleted_volumes =
            if not (is_new_vm_or_has_retain_policy vm_restore)
              && not (is_set status.deleted_volumes)
            then nil_if_empty (claim_names volume_backups)
            else status.deleted_volumes;
      });
    })

  unfoldable pub get_or_create_volume_snapshot_content :
      VirtualMachineRestore → VolumeBackup → M W VolumeSnapshotContent
  get_or_create_volume_snapshot_content vm_restore volume_backup = do
    volume_backup_name ← deref volume_backup.name
    let m = vm_restore.object_meta
    let content_name =
        construct_volume_snapshot_content_name h.sha256_hex m.namespace m.name volume_backup_name
    attempt (h.snapshot_contents.get (cluster_key content_name)) pure λ e.
        if not (is_not_found e) then fail e else do
          longhorn_name ← deref volume_backup.longhorn_backup_name
          lh_backup ←
              h.longhorn_backups.get
                (record { namespace = longhorn_system_namespace_name; name = longhorn_name })
          class ← gets h.volume_snapshot_class
          h.snapshot_contents.create (record {
            object_meta = record empty_meta {
              name = content_name;
              namespace = m.namespace;
              owner_references = restore_owner vm_restore none none ∷ [];
            };
            driver = text "driver.longhorn.io";
            deletion_policy = content_retain;
            snapshot_handle = some (
                text "bs://"
                ++ volume_backup.persistent_volume_claim.object_meta.name
                ++ b'/' ∷ lh_backup.object_meta.name);
            volume_snapshot_class_name = some class;
            volume_snapshot_ref = record {
              namespace = m.namespace;
              name = construct_volume_snapshot_name h.sha256_hex m.name volume_backup_name;
            };
          })
          h.snapshot_contents.get (record { namespace = m.namespace; name = content_name })

  unfoldable pub get_or_create_volume_snapshot :
      VirtualMachineRestore → VolumeBackup → M W VolumeSnapshot
  get_or_create_volume_snapshot vm_restore volume_backup = do
    volume_backup_name ← deref volume_backup.name
    let m = vm_restore.object_meta
    let snapshot_name = construct_volume_snapshot_name h.sha256_hex m.name volume_backup_name
    let key : NamespacedName = record { namespace = m.namespace; name = snapshot_name }
    attempt (h.snapshots.get key) pure λ e. if not (is_not_found e) then fail e else do
      content ← get_or_create_volume_snapshot_content vm_restore volume_backup
      class ← gets h.volume_snapshot_class
      h.snapshots.create (record {
        object_meta = record empty_meta {
          name = snapshot_name;
          namespace = m.namespace;
          owner_references = restore_owner vm_restore none (some true) ∷ [];
        };
        source_claim_name = none;
        source_content_name = some content.object_meta.name;
        volume_snapshot_class_name = some class;
        status = none;
      })
      h.snapshots.get key

  unfoldable pub create_restored_pvc :
      VirtualMachineRestore → VolumeBackup → VolumeRestore → M W Unit
  create_restored_pvc vm_restore volume_backup volume_restore = do
    name ← elim volume_backup.name [
      | none ↦ fail (errorf (text "missing VolumeSnapshot name"))
      | some name ↦ pure name
    ]
    data_source_name ←
        if vm_restore.object_meta.namespace
          != volume_backup.persistent_volume_claim.object_meta.namespace
        then (get_or_create_volume_snapshot vm_restore volume_backup >>= λ volume_snapshot.
            pure volume_snapshot.object_meta.name)
        else pure name
    h.claims.create (restored_claim vm_restore volume_backup volume_restore data_source_name)

  -- The loop body, for the `i`-th restored volume: is its claim bound?
  unfoldable pub reconcile_volume_restore :
      VirtualMachineRestore → List VolumeBackup → ℕ → VolumeRestore → M W Bool
  reconcile_volume_restore vm_restore volume_backups i volume_restore =
      attempt
        (h.claims.get (record {
          namespace = vm_restore.object_meta.namespace;
          name = volume_restore.persistent_volume_claim.object_meta.name;
        }))
        (λ pvc.
          of_phase
            (errorf (
              text "PVC "
              ++ slashed pvc.object_meta.namespace pvc.object_meta.name
              ++ text " in status"))
            pvc.phase)
        λ e.
          if is_not_found e
          then (deref (get_elem? volume_backups i) >>= λ volume_backup.
              create_restored_pvc vm_restore volume_backup volume_restore >> pure false)
          else fail e

  unfoldable pub reconcile_volumes_from :
      VirtualMachineRestore → List VolumeBackup → ℕ → Bool → List VolumeRestore → M W Bool
  reconcile_volumes_from vm_restore volume_backups i ready [] = pure ready
  reconcile_volumes_from vm_restore volume_backups i ready (vr ∷ volume_restores) =
      let rest = λ (bound : Bool).
        reconcile_volumes_from vm_restore volume_backups (suc i) (ready && bound) volume_restores in
      reconcile_volume_restore vm_restore volume_backups i vr >>= rest

  unfoldable pub reconcile_volume_restores : VirtualMachineRestore → VirtualMachineBackup → M W Bool
  reconcile_volume_restores vm_restore vm_backup = do
    status ← deref vm_restore.status
    backup_status ← deref vm_backup.status
    reconcile_volumes_from vm_restore (elements backup_status.volume_backups) 0 true
        (elements status.volume_restores)

  unfoldable pub mount_backup_volumes : List VolumeBackup → M W Unit
  mount_backup_volumes [] = pure tt
  mount_backup_volumes (vb ∷ volume_backups) =
      let rest = mount_backup_volumes volume_backups in
      let m = vb.persistent_volume_claim.object_meta in
      do
        pvc ← catch (h.claims.get (key_of m)) λ e. fail (
            errorf (
              text "failed to get pvc "
              ++ slashed m.namespace m.name
              ++ text ", error: "
              ++ e.message))
        volume ←
            catch
              (h.longhorn_volumes.get (record {
                namespace = longhorn_system_namespace_name;
                name = pvc.spec.volume_name;
              }))
              λ e. fail (
                errorf (
                  text "failed to get volume "
                  ++ slashed longhorn_system_namespace_name pvc.spec.volume_name
                  ++ text ", error: "
                  ++ e.message))
        mount_volume h volume
        rest

  -- Of the restore's controller: only for a backup of type snapshot.
  unfoldable pub mount_longhorn_volumes : VirtualMachineBackup → M W Unit
  mount_longhorn_volumes vm_backup = elim vm_backup.spec.type [
    | backup ↦ pure tt
    | _ ↦ deref vm_backup.status >>= λ status. mount_backup_volumes (elements status.volume_backups)
  ]
