-- ===== src/Backup/Snapshots.antt =====
-- The volume snapshots of a backup: creating them, reading their state, and deleting them by force
-- (controllers/hci/virtualmachinebackup_controller.go).
pub mod Laws
use hci_controller_manager.Base.{
  Str, text, ℕ, Bool, true, false, not, ◌&&◌, Option, none, some, List, [], ◌∷◌, ◌++◌, ◌==◌, ◌!=◌,
  nat_eq, list_eq, if◌then◌else◌, elements, M, ok, err, panic, Err, is_not_found, pure, fail, crash,
  deref, attempt, catch, ◌>>=◌, ◌>>◌,
}
use hci_controller_manager.Base.Dict
use hci_controller_manager.Base.Dict.{Dict}
use hci_controller_manager.Api.{
  VirtualMachineBackup, VirtualMachineBackupStatus, VolumeBackup, VolumeSnapshot,
  VolumeSnapshotStatus, VolumeSnapshotContent, VolumeSnapshotClass, PersistentVolumeClaim,
  NamespacedName, ObjectMeta, OwnerReference, content_delete, backup_status_eq,
}
use hci_controller_manager.Env.{Env}
use hci_controller_manager.Pkg.Names.{get_volume_snapshot_content_name}
use hci_controller_manager.Backup.State.{is_set, annotation, key_of, translate_error, or_empty}
use hci_controller_manager.Backup.Machine.{longhorn_system_namespace_name, cluster_key}
use hci_controller_manager.Backup.Objects.{
  ann_beta_storage_provisioner, ann_storage_provisioner, annotation_image_id,
  annotation_storage_class_name, annotation_storage_provisioner, backup_owner, copy_status,
  empty_content, empty_meta, get_provisioned_pvc_provisioner, insert_if_set,
}

-- What the loop over the volume backups comes to.
pub data SnapshotPass : Type 0 where
  requeue : SnapshotPass
  visited : List VolumeBackup → SnapshotPass

-- Puts a volume backup in front of those behind it.
abbrev pub visit : VolumeBackup → SnapshotPass → SnapshotPass
visit vb requeue = requeue
visit vb (visited volume_backups) = visited (vb ∷ volume_backups)

-- The object that `createVolumeSnapshot` hands to the API: name, owner, source and annotations.
abbrev pub new_snapshot :
    VirtualMachineBackup
    → Str
    → VolumeSnapshotClass
    → Option Str
    → Option Str
    → Dict Str
    → VolumeSnapshot
new_snapshot vm_backup name class claim content annotations = record {
  object_meta = record empty_meta {
    name = name;
    namespace = vm_backup.object_meta.namespace;
    owner_references = backup_owner vm_backup ∷ [];
    annotations = some annotations;
  };
  source_claim_name = claim;
  source_content_name = content;
  volume_snapshot_class_name = some class.object_meta.name;
  status = none;
}

-- The status with the visited volume backups; a nil slice stays nil.
abbrev pub with_volume_backups :
    VirtualMachineBackupStatus → List VolumeBackup → VirtualMachineBackupStatus
with_volume_backups status volume_backups = elim status.volume_backups [
  | none ↦ status
  | some _ ↦ record status { volume_backups = some volume_backups }
]

module _ {W : Type 0} (h : Env W) where
  unfoldable pub get_volume_snapshot : Str → Str → M W VolumeSnapshot
  get_volume_snapshot namespace name =
      h.snapshots.get (record { namespace = namespace; name = name })

  -- After a creation the object returned is the one that the failed read has left empty.
  unfoldable pub create_volume_snapshot_content :
      VirtualMachineBackup → VolumeBackup → VolumeSnapshotClass → M W VolumeSnapshotContent
  create_volume_snapshot_content vm_backup volume_backup snapshot_class = do
    volume_backup_name ← deref volume_backup.name
    let content_name = get_volume_snapshot_content_name volume_backup_name
    attempt (h.snapshot_contents.get (cluster_key content_name)) pure λ e.
        if not (is_not_found e) then fail e else do
          longhorn_name ← deref volume_backup.longhorn_backup_name
          lh_backup ←
              h.longhorn_backups.get
                (record { namespace = longhorn_system_namespace_name; name = longhorn_name })
          h.snapshot_contents.create (record {
            object_meta = record empty_meta {
              name = content_name;
              namespace = vm_backup.object_meta.namespace;
              owner_references = backup_owner vm_backup ∷ [];
            };
            driver = text "driver.longhorn.io";
            deletion_policy = content_delete;
            snapshot_handle = some (
                text "bs://"
                ++ volume_backup.persistent_volume_claim.object_meta.name
                ++ b'/' ∷ lh_backup.object_meta.name);
            volume_snapshot_class_name = some snapshot_class.object_meta.name;
            volume_snapshot_ref = record {
              namespace = vm_backup.object_meta.namespace;
              name = volume_backup_name;
            };
          })
          pure empty_content

  -- The snapshot to create where the volume has a Longhorn backup.
  unfoldable pub snapshot_from_backup :
      VirtualMachineBackup → VolumeBackup → Str → VolumeSnapshotClass → M W VolumeSnapshot
  snapshot_from_backup vm_backup volume_backup name class = do
    content ← create_volume_snapshot_content vm_backup volume_backup class
    pure (new_snapshot vm_backup name class none (some content.object_meta.name) [])

  -- The snapshot to create from the current claim.
  unfoldable pub snapshot_from_claim :
      VirtualMachineBackup → VolumeBackup → Str → VolumeSnapshotClass → M W VolumeSnapshot
  snapshot_from_claim vm_backup volume_backup name class = do
    let claim_meta = volume_backup.persistent_volume_claim.object_meta
    pvc ← h.claims.get (key_of claim_meta)
    storage_class ← deref pvc.spec.storage_class_name
    let annotations =
        insert_if_set annotation_storage_provisioner (get_provisioned_pvc_provisioner pvc) (
          insert_if_set annotation_image_id (annotation pvc.object_meta annotation_image_id)
            (insert_if_set annotation_storage_class_name storage_class []))
    pure (new_snapshot vm_backup name class (some claim_meta.name) none annotations)

  unfoldable pub snapshot_to_create :
      VirtualMachineBackup → VolumeBackup → Str → VolumeSnapshotClass → M W VolumeSnapshot
  snapshot_to_create vm_backup volume_backup name class =
      if is_set volume_backup.longhorn_backup_name
      then snapshot_from_backup vm_backup volume_backup name class
      else snapshot_from_claim vm_backup volume_backup name class

  unfoldable pub create_volume_snapshot :
      VirtualMachineBackup → VolumeBackup → VolumeSnapshotClass → M W VolumeSnapshot
  create_volume_snapshot vm_backup volume_backup class = do
    name ← deref volume_backup.name
    to_create ← snapshot_to_create vm_backup volume_backup name class
    h.snapshots.create to_create
    h.record_event (text "Normal") (text "VolumeSnapshotCreated")
        (text "Successfully created VolumeSnapshot " ++ name)
    h.snapshots.get (key_of to_create.object_meta)

  -- The snapshot of one volume backup: the one that exists, or a new one. `none` if it is being
  -- deleted.
  unfoldable pub ensure_volume_snapshot :
      VirtualMachineBackup
      → Dict VolumeSnapshotClass
      → VolumeBackup
      → Str
      → M W (Option VolumeSnapshot)
  ensure_volume_snapshot vm_backup classes volume_backup name =
      attempt (get_volume_snapshot vm_backup.object_meta.namespace name)
        (λ volume_snapshot. pure (
          if is_set volume_snapshot.object_meta.deletion_timestamp
          then none
          else some volume_snapshot))
        λ e. if not (is_not_found e) then fail e else do
          volume_snapshot ←
              create_volume_snapshot vm_backup volume_backup
                (elim (Dict.lookup volume_backup.csi_driver_name classes) [
                  | none ↦ record { object_meta = empty_meta }
                  | some class ↦ class
                ])
          pure (some volume_snapshot)

  -- The loop over the volume backups.
  unfoldable pub snapshot_loop :
      VirtualMachineBackup → Dict VolumeSnapshotClass → List VolumeBackup → M W SnapshotPass
  snapshot_loop vm_backup classes [] = pure (visited [])
  snapshot_loop vm_backup classes (vb ∷ volume_backups) =
      let rest = snapshot_loop vm_backup classes volume_backups in
      elim vb.name [
        | none ↦ rest >>= λ pass. pure (visit vb pass)
        | some name ↦ ensure_volume_snapshot vm_backup classes vb name >>= λ found. elim found [
          | none ↦ pure requeue
          | some volume_snapshot ↦
              rest >>= λ pass. pure (visit (copy_status volume_snapshot.status vb) pass)
        ]
      ]

  -- `true` for the result that asks for another run in 5 seconds, `false` for a nil result.
  unfoldable pub reconcile_volume_snapshots :
      VirtualMachineBackup → Dict VolumeSnapshotClass → M W Bool
  reconcile_volume_snapshots vm_backup classes = do
    status ← deref vm_backup.status
    pass ← snapshot_loop vm_backup classes (elements status.volume_backups)
    elim pass [
      | requeue ↦ pure true
      | visited volume_backups ↦
          let status' = with_volume_backups status volume_backups in
          if status == status'
          then pure false
          else h.backups.update (record vm_backup { status = some status' }) >> pure false
    ]

  -- The loop body of `forceDeleteVolumeSnapshotAndContent`. The finalizers are cleared on the object
  -- read, and the copy that was made before is the one updated and deleted.
  unfoldable pub force_delete_volume_snapshot : Str → VolumeBackup → M W Unit
  force_delete_volume_snapshot namespace volume_backup = do
    name ← deref volume_backup.name
    volume_snapshot ← get_volume_snapshot namespace name
    h.snapshots.update volume_snapshot
    h.snapshots.delete volume_snapshot
    elim volume_snapshot.status [
      | none ↦ pure tt
      | some status ↦ elim status.bound_volume_snapshot_content_name [
        | none ↦ pure tt
        | some content_name ↦
            attempt (h.snapshot_contents.get (cluster_key content_name))
              (λ content.
                let bare = record content {
                  object_meta = record (content.object_meta) { finalizers = [] };
                } in
                h.snapshot_contents.update bare >> h.snapshot_contents.delete bare)
              λ e. if is_not_found e then pure tt else fail e
      ]
    ]

  unfoldable pub force_delete_volume_snapshot_and_content : Str → List VolumeBackup → M W Unit
  force_delete_volume_snapshot_and_content namespace [] = pure tt
  force_delete_volume_snapshot_and_content namespace (vb ∷ volume_backups) =
      let rest = force_delete_volume_snapshot_and_content namespace volume_backups in
      force_delete_volume_snapshot namespace vb >> rest
