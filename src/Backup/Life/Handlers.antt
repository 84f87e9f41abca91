-- ===== src/Backup/Life/Handlers.antt =====
-- The handler of Longhorn's backups writes a backup by a step of its life, too
-- (OnLHBackupChanged of controllers/hci/backup_status.go, called by longhorn_controller.go), and the
-- handler of snapshots by those of Reconcile (updateVolumeSnapshotChanged, called by
-- snapshot_controller.go).
use hci_controller_manager.Base.{
  ◌≡◌, refl, true, false, none, some, Option, List, Str, arith, elements, Bool, pure, if◌then◌else◌,
  ok, text, ◌==◌, ◌!=◌, nat_eq, list_eq,
}
use hci_controller_manager.Base.Keeps.{
  Keeps, Any, Keeps-pure, Keeps-fail, Keeps-if, Keeps-bind, Keeps-Any, Keeps-attempt,
  Keeps-of_outcome, Quiet-attempt, Quiet-elim, Quiet-if, Quiet-bind, Quiet-pure,
}
use hci_controller_manager.Api.{
  VirtualMachineBackup, VirtualMachineBackupStatus, VolumeBackup, VolumeSnapshot, LonghornBackup,
  NamespacedName, OwnerReference, backup_status_eq,
}
use hci_controller_manager.Env.{Env}
use hci_controller_manager.Backup.State.{is_set}
use hci_controller_manager.Backup.Longhorn.{
  resolve_vol_snapshot_ref, record_longhorn_backup, on_lh_backup_changed,
  update_volume_snapshot_changed, reconcile_longhorn_backup, reconcile_snapshot, controller_of,
  set_longhorn_backup_name,
}
use hci_controller_manager.Backup.Life.{learn, with_status}
use hci_controller_manager.Backup.Life.Writes.{Observed}
use hci_controller_manager.Backup.Life.Refinement.{reconcile-Keeps}

-- The status behind the loop, at a list of volumes that is not nil.
abbrev told_status :
    VirtualMachineBackupStatus
    → Option (List VolumeBackup)
    → List VolumeBackup
    → VirtualMachineBackupStatus
told_status s old new = elim old [ none ↦ s | some _ ↦ record s { volume_backups = some new } ]

-- What a backup that is found has: it is known where there is one.
abbrev KnownIfFound : (VirtualMachineBackup → Type 0) → Option VirtualMachineBackup → Type 0
KnownIfFound Known none = Unit
KnownIfFound Known (some b) = Known b

module _ {W : Type 0} (h : Env W) {I : W → Type 0} {Known : VirtualMachineBackup → Type 0}
    (o : Observed h I Known) where
  told-Keeps :
      (b : VirtualMachineBackup) (s : VirtualMachineBackupStatus) (old : Option (List VolumeBackup))
      (snapshot_name longhorn_name : Str) (new : List VolumeBackup)
      → Known b
      → b.status ≡ some s
      → is_set s.backup_target ≡ true
      → s.volume_backups ≡ old
      → set_longhorn_backup_name snapshot_name longhorn_name (elements old) ≡ ok new
      → Keeps I Any (
          if s == told_status s old new
          then pure tt
          else h.backups.update (with_status b (told_status s old new)))
  told-Keeps b s none snapshot_name longhorn_name new k at target vbs told =
      Keeps-if (s == s) _ _ (λ e. Quiet-pure tt) (λ e. absurd (ground arith))
  told-Keeps b s (some old) snapshot_name longhorn_name new k at target vbs told =
      Quiet-if _ _ _ (Quiet-pure tt)
        (o.step_keeps b _ k (learn s snapshot_name longhorn_name old new at target vbs told))

  record_longhorn_backup-Keeps :
      (b : VirtualMachineBackup) (s : VirtualMachineBackupStatus)
      (snapshot_name longhorn_name : Str)
      → Known b
      → b.status ≡ some s
      → is_set s.backup_target ≡ true
      → Keeps I Any (record_longhorn_backup h b s snapshot_name longhorn_name)
  unfolding record_longhorn_backup
  record_longhorn_backup-Keeps b s snapshot_name longhorn_name k at target =
      Keeps-bind (Keeps-of_outcome _ (λ new told. told)) (λ new told.
        told-Keeps b s s.volume_backups snapshot_name longhorn_name new k at target refl told)

  found-Keeps :
      (b : VirtualMachineBackup) (other : Bool)
      → Known b
      → Keeps I (KnownIfFound Known) (pure {W = W} (if other then none else some b))
  found-Keeps b true k = Keeps-pure none tt
  found-Keeps b false k = Keeps-pure (some b) k

  resolve_vol_snapshot_ref-Keeps :
      (namespace : Str) (ref : OwnerReference)
      → Keeps I (KnownIfFound Known) (resolve_vol_snapshot_ref h namespace ref)
  unfolding resolve_vol_snapshot_ref
  resolve_vol_snapshot_ref-Keeps namespace ref =
      Keeps-if (ref.kind != text "VirtualMachineBackup") _ _ (λ e. Keeps-pure none tt)
        (λ e.
          Keeps-attempt (o.get_known _) (λ b k. found-Keeps b (b.object_meta.uid != ref.uid) k)
            (λ f. Keeps-pure none tt))

  status-Keeps :
      (b : VirtualMachineBackup) (v : Option VirtualMachineBackupStatus)
      (snapshot_name longhorn_name : Str)
      → Known b
      → b.status ≡ v
      → Keeps I Any (elim v [
        | none ↦ pure tt
        | some status ↦
            if is_set status.backup_target
            then record_longhorn_backup h b status snapshot_name longhorn_name
            else pure tt
      ])
  status-Keeps b none snapshot_name longhorn_name k at = Quiet-pure tt
  status-Keeps b (some s) snapshot_name longhorn_name k at =
      Keeps-if (is_set s.backup_target) _ _
        (record_longhorn_backup-Keeps b s snapshot_name longhorn_name k at) (λ e. Quiet-pure tt)

  found_status-Keeps :
      (found : Option VirtualMachineBackup) (snapshot_name longhorn_name : Str)
      → KnownIfFound Known found
      → Keeps I Any (elim found [
        | none ↦ pure tt
        | some vm_backup ↦ elim vm_backup.status [
          | none ↦ pure tt
          | some status ↦
              if is_set status.backup_target
              then record_longhorn_backup h vm_backup status snapshot_name longhorn_name
              else pure tt
        ]
      ])
  found_status-Keeps none snapshot_name longhorn_name k = Quiet-pure tt
  found_status-Keeps (some b) snapshot_name longhorn_name k =
      status-Keeps b b.status snapshot_name longhorn_name k refl

  on_lh_backup_changed-Keeps : (l : LonghornBackup) → Keeps I Any (on_lh_backup_changed h l)
  unfolding on_lh_backup_changed
  on_lh_backup_changed-Keeps l = Quiet-if _ _ _ (Quiet-pure tt) (
      Quiet-attempt (o.calm.snapshot_contents.get_keeps _)
        (λ content. Quiet-bind (o.calm.snapshots.get_keeps _) (λ snapshot.
          Quiet-elim (controller_of snapshot.object_meta.owner_references) _ _ (Quiet-pure tt)
            (λ ref. Keeps-bind (resolve_vol_snapshot_ref-Keeps _ ref) (λ found k.
              found_status-Keeps found snapshot.object_meta.name l.object_meta.name k))))
        (λ e. Quiet-if _ _ _ (Quiet-pure tt) (Keeps-fail e)))

  reconcile_longhorn_backup-Keeps :
      (key : NamespacedName) → Keeps I Any (reconcile_longhorn_backup h key)
  unfolding reconcile_longhorn_backup
  reconcile_longhorn_backup-Keeps key =
      Quiet-attempt (o.calm.longhorn_backups.get_keeps key) on_lh_backup_changed-Keeps
        (λ e. Quiet-if _ _ _ (Quiet-pure tt) (Keeps-fail e))

  update_volume_snapshot_changed-Keeps :
      (s : VolumeSnapshot) → Keeps I Any (update_volume_snapshot_changed h s)
  unfolding update_volume_snapshot_changed
  update_volume_snapshot_changed-Keeps s = Quiet-if _ _ _ (Quiet-pure tt) (
      Quiet-elim (controller_of s.object_meta.owner_references) _ _ (Quiet-pure tt) (λ ref.
        Quiet-bind (Keeps-Any (resolve_vol_snapshot_ref-Keeps s.object_meta.namespace ref))
          (λ found. Quiet-elim found _ _ (Quiet-pure tt) (λ b.
            Quiet-attempt (reconcile-Keeps h o _) (λ _. Quiet-pure tt) (λ e. Quiet-pure tt)))))

  reconcile_snapshot-Keeps : (key : NamespacedName) → Keeps I Any (reconcile_snapshot h key)
  unfolding reconcile_snapshot
  reconcile_snapshot-Keeps key =
      Quiet-attempt (o.calm.snapshots.get_keeps key) update_volume_snapshot_changed-Keeps
        (λ e. Quiet-if _ _ _ (Quiet-pure tt) (Keeps-fail e))

  -- The reconcilers of Longhorn's backups and of snapshots write a backup only by a step of its life
  -- from an object that was read: what each such write keeps, both calls keep, whatever their outcome.
  pub reconcile_handlers-BackupStep :
      (key : NamespacedName) (w : W)
      → I w
      → I (reconcile_longhorn_backup h key w).1 × I (reconcile_snapshot h key w).1
  reconcile_handlers-BackupStep key w i =
      (((reconcile_longhorn_backup-Keeps key).at w i).0, ((reconcile_snapshot-Keeps key).at w i).0)
