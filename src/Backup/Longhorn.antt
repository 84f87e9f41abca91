-- ===== src/Backup/Longhorn.antt =====
-- What a backup learns from Longhorn's backups and from the snapshots that it owns
-- (controllers/hci/backup_status.go).
pub mod Laws
use hci_controller_manager.Base.{
  Str, text, Bool, true, false, ◌||◌, Option, none, some, List, [], ◌∷◌, ◌==◌, ◌!=◌, nat_eq,
  list_eq, if◌then◌else◌, elements, M, Outcome, ok, err, panic, is_not_found, pure, fail, attempt,
  of_outcome, ◌>>=◌, ◌>>◌,
}
use hci_controller_manager.Api.{
  NamespacedName, VirtualMachineBackup, VirtualMachineBackupStatus, VolumeBackup, VolumeSnapshot,
  VolumeSnapshotContent, LonghornBackup, OwnerReference, backup_status_eq,
}
use hci_controller_manager.Env.{Env}
use hci_controller_manager.Pkg.Strings.{replace_first}
use hci_controller_manager.Backup.State.{is_set, is_true}
use hci_controller_manager.Backup.Machine.{cluster_key}
use hci_controller_manager.Backup.Reconcile.{reconcile}

-- `metav1.GetControllerOf`: the first owner that is marked as the controller.
unfoldable pub controller_of : List OwnerReference → Option OwnerReference
controller_of [] = none
controller_of (ref ∷ refs) = if is_true ref.controller then some ref else controller_of refs

-- Puts a volume backup in front of those behind it.
abbrev pub put_front : VolumeBackup → Outcome (List VolumeBackup) → Outcome (List VolumeBackup)
put_front vb (ok vbs) = ok (vb ∷ vbs)
put_front vb (err e) = err e
put_front vb panic = panic

-- The loop that records a Longhorn backup at the volumes of a snapshot. A nameless volume is a nil
-- dereference.
unfoldable pub set_longhorn_backup_name :
    Str → Str → List VolumeBackup → Outcome (List VolumeBackup)
set_longhorn_backup_name snapshot_name longhorn_name [] = ok []
set_longhorn_backup_name snapshot_name longhorn_name (vb ∷ volume_backups) =
    let rest = set_longhorn_backup_name snapshot_name longhorn_name volume_backups in
    elim vb.name [
      | none ↦ panic
      | some name ↦
          put_front
            (if name == snapshot_name
              then record vb { longhorn_backup_name = some longhorn_name }
              else vb)
            rest
    ]

module _ {W : Type 0} (h : Env W) where
  -- `none` for nil; any error of the read is nil, too.
  unfoldable pub resolve_vol_snapshot_ref : Str → OwnerReference → M W (Option VirtualMachineBackup)
  resolve_vol_snapshot_ref namespace ref =
      if ref.kind != text "VirtualMachineBackup"
      then pure none
      else attempt (h.backups.get (record { namespace = namespace; name = ref.name }))
          (λ found. pure (if found.object_meta.uid != ref.uid then none else some found))
          (λ e. pure none)

  -- The owner is reconciled, and what comes of it is dropped.
  unfoldable pub update_volume_snapshot_changed : VolumeSnapshot → M W Unit
  update_volume_snapshot_changed snapshot =
      if is_set snapshot.object_meta.deletion_timestamp
      then pure tt
      else elim (controller_of snapshot.object_meta.owner_references) [
        | none ↦ pure tt
        | some ref ↦ resolve_vol_snapshot_ref snapshot.object_meta.namespace ref >>= λ found.
            elim found [
              | none ↦ pure tt
              | some vm_backup ↦
                  attempt
                    (reconcile h (record {
                      namespace = vm_backup.object_meta.namespace;
                      name = vm_backup.object_meta.name;
                    }))
                    (λ _. pure tt) (λ e. pure tt)
            ]
      ]

  -- The end of `OnLHBackupChanged`, for a backup with a status and a target.
  unfoldable pub record_longhorn_backup :
      VirtualMachineBackup → VirtualMachineBackupStatus → Str → Str → M W Unit
  record_longhorn_backup vm_backup status snapshot_name longhorn_name =
      of_outcome
        (set_longhorn_backup_name snapshot_name longhorn_name (elements status.volume_backups))
      >>= λ volume_backups.
          let status' : VirtualMachineBackupStatus = elim status.volume_backups [
            | none ↦ status
            | some _ ↦ record status { volume_backups = some volume_backups }
          ] in
          if status == status'
          then pure tt
          else h.backups.update (record vm_backup { status = some status' })

  unfoldable pub on_lh_backup_changed : LonghornBackup → M W Unit
  on_lh_backup_changed lh_backup =
      if is_set lh_backup.object_meta.deletion_timestamp || lh_backup.snapshot_name == []
      then pure tt
      else attempt
          (h.snapshot_contents.get (
            cluster_key
              (replace_first (text "snapshot") (text "snapcontent") lh_backup.snapshot_name)))
          (λ content. h.snapshots.get content.volume_snapshot_ref >>= λ snapshot.
            elim (controller_of snapshot.object_meta.owner_references) [
              | none ↦ pure tt
              | some ref ↦ resolve_vol_snapshot_ref snapshot.object_meta.namespace ref >>= λ found.
                  elim found [
                    | none ↦ pure tt
                    | some vm_backup ↦ elim vm_backup.status [
                      | none ↦ pure tt
                      | some status ↦
                          if is_set status.backup_target
                          then record_longhorn_backup vm_backup status snapshot.object_meta.name
                              lh_backup.object_meta.name
                          else pure tt
                    ]
                  ]
            ])
          (λ e. if is_not_found e then pure tt else fail e)

  -- `Reconcile` of controllers/hci/longhorn_controller.go and of snapshot_controller.go
  unfoldable pub reconcile_longhorn_backup : NamespacedName → M W Unit
  reconcile_longhorn_backup key =
      attempt (h.longhorn_backups.get key) on_lh_backup_changed
        (λ e. if is_not_found e then pure tt else fail e)

  unfoldable pub reconcile_snapshot : NamespacedName → M W Unit
  reconcile_snapshot key =
      attempt (h.snapshots.get key) update_volume_snapshot_changed
        (λ e. if is_not_found e then pure tt else fail e)
