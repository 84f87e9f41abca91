-- ===== src/Backup/Longhorn/Laws.antt =====
-- The way back from a snapshot to its backup, and what is recorded there.
use hci_controller_manager.Base.{
  Str, ◌≡◌, ◌≢◌, refl, Option, some, List, [], ◌∷◌, ◌==◌, nat_eq, list_eq, if◌then◌else◌, arith,
  Outcome, ok, err, panic, Option-cases, inl, inr, ◌⊎◌, none, Bool, false, map, sym, ap, ◌∙◌,
}
use hci_controller_manager.Base.Dict.{Dict}
use hci_controller_manager.Api.{
  VirtualMachineBackup, VolumeBackup, VolumeSnapshotClass, OwnerReference,
}
use hci_controller_manager.Env.{Env}
use hci_controller_manager.Backup.State.{key_of}
use hci_controller_manager.Backup.Progress.{scan_volumes}
use hci_controller_manager.Backup.Target.{sanitize_volume_backups}
use hci_controller_manager.Backup.Snapshots.{new_snapshot}
use hci_controller_manager.Backup.Objects.{backup_owner}
use hci_controller_manager.Backup.Longhorn.{
  controller_of, resolve_vol_snapshot_ref, set_longhorn_backup_name, put_front,
}

-- A snapshot that `createVolumeSnapshot` makes for a backup leads back to it: its controller is
-- resolved to the backup stored under the same key, if that is still the one with the same UID.
resolve_vol_snapshot_ref-controller_of :
    {W : Type 0} (h : Env W) (vm_backup : VirtualMachineBackup) (name : Str)
    (class : VolumeSnapshotClass) (claim content : Option Str) (annotations : Dict Str) (w w' : W)
    (stored : VirtualMachineBackup)
    → h.backups.get (key_of vm_backup.object_meta) w ≡ (ok stored, w')
    → stored.object_meta.uid ≡ vm_backup.object_meta.uid
    → (ref : OwnerReference) × (controller_of
          (new_snapshot vm_backup name class claim content annotations).object_meta.owner_references
        ≡ some ref)
      × (resolve_vol_snapshot_ref h vm_backup.object_meta.namespace ref w ≡ (ok (some stored), w'))
unfolding controller_of resolve_vol_snapshot_ref
resolve_vol_snapshot_ref-controller_of h vm_backup name class claim content annotations w w' stored
      g u =
    (backup_owner vm_backup, refl, ground arith)

-- The volumes of that snapshot name the Longhorn backup, and the others are as they were.
abbrev pub Told : Str → Str → List VolumeBackup → List VolumeBackup → Type 0
Told snapshot_name longhorn_name [] [] = Unit
Told snapshot_name longhorn_name [] (y ∷ ys) = ⊥
Told snapshot_name longhorn_name (x ∷ xs) [] = ⊥
Told snapshot_name longhorn_name (x ∷ xs) (y ∷ ys) =
    ((x.name ≡ some snapshot_name) × (y ≡ record x { longhorn_backup_name = some longhorn_name })
      ⊎ (x.name ≢ some snapshot_name) × (y ≡ x))
    × Told snapshot_name longhorn_name xs ys

put_front-ok :
    (vb : VolumeBackup) (rest : Outcome (List VolumeBackup)) (vbs : List VolumeBackup)
    → put_front vb rest ≡ ok vbs
    → (tail : List VolumeBackup) × (rest ≡ ok tail) × (vbs ≡ vb ∷ tail)
put_front-ok vb (ok tail) vbs h = (tail, refl, cc)
put_front-ok vb (err e) vbs h = cc
put_front-ok vb panic vbs h = cc

-- Where the loop of `OnLHBackupChanged` ends, it has recorded the Longhorn backup at exactly the volumes
-- of the snapshot, each in its place.
pub set_longhorn_backup_name-Told :
    (snapshot_name longhorn_name : Str) (vbs vbs' : List VolumeBackup)
    → set_longhorn_backup_name snapshot_name longhorn_name vbs ≡ ok vbs'
    → Told snapshot_name longhorn_name vbs vbs'
unfolding set_longhorn_backup_name
set_longhorn_backup_name-Told snapshot_name longhorn_name [] vbs' h = ground arith
set_longhorn_backup_name-Told snapshot_name longhorn_name (vb ∷ vbs) vbs' h =
    elim (Option-cases vb.name) [
      | inl n ↦ absurd (ground arith)
      | inr (name, n) ↦
          let (tail, r, t) =
            put_front-ok
              (if name == snapshot_name
                then record vb { longhorn_backup_name = some longhorn_name }
                else vb)
              (set_longhorn_backup_name snapshot_name longhorn_name vbs) vbs'
              (rw (set_longhorn_backup_name, n) at h) in
          rw t (
            elim (list_eq.dec name snapshot_name) [
              | yes p ↦ inl (ground arith, ground arith)
              | no q ↦ inr (ground arith, ground arith)
            ],
            set_longhorn_backup_name-Told snapshot_name longhorn_name vbs tail r,
          )
    ]

-- The parts of a volume backup that OnLHBackupChanged leaves alone.
abbrev pub forget : VolumeBackup → VolumeBackup
forget vb = record vb { longhorn_backup_name = none }

pub Told-forget :
    (snapshot_name longhorn_name : Str) (vbs vbs' : List VolumeBackup)
    → Told snapshot_name longhorn_name vbs vbs'
    → map forget vbs' ≡ map forget vbs
Told-forget snapshot_name longhorn_name [] [] t = refl
Told-forget snapshot_name longhorn_name (x ∷ xs) (y ∷ ys) (inl (n, e), t) =
    rw (e, Told-forget snapshot_name longhorn_name xs ys t) refl
Told-forget snapshot_name longhorn_name (x ∷ xs) (y ∷ ys) (inr (n, e), t) =
    rw (e, Told-forget snapshot_name longhorn_name xs ys t) refl
Told-forget snapshot_name longhorn_name [] (y ∷ ys) t = absurd t
Told-forget snapshot_name longhorn_name (x ∷ xs) [] t = absurd t

sanitize_volume_backups_forgotten :
    (vbs : List VolumeBackup)
    → map forget (sanitize_volume_backups vbs) ≡ sanitize_volume_backups (map forget vbs)
unfolding sanitize_volume_backups
sanitize_volume_backups_forgotten [] = refl
sanitize_volume_backups_forgotten (vb ∷ vbs) = rw (sanitize_volume_backups_forgotten vbs) refl

pub sanitize_volume_backups-forget :
    (vbs vbs' : List VolumeBackup)
    → map forget vbs' ≡ map forget vbs
    → map forget (sanitize_volume_backups vbs') ≡ map forget (sanitize_volume_backups vbs)
sanitize_volume_backups-forget vbs vbs' e =
    sanitize_volume_backups_forgotten vbs'
    ∙ ap sanitize_volume_backups e
    ∙ sym (sanitize_volume_backups_forgotten vbs)

scan_volumes_forgotten :
    (ready : Bool) (vbs : List VolumeBackup)
    → scan_volumes ready (map forget vbs) ≡ scan_volumes ready vbs
unfolding scan_volumes
scan_volumes_forgotten ready [] = refl
scan_volumes_forgotten ready (vb ∷ vbs) =
    ground (arith, scan_volumes_forgotten ready vbs, scan_volumes_forgotten false vbs)

-- The loop of updateConditions does not read the names of Longhorn's backups.
pub scan_volumes-forget :
    (ready : Bool) (vbs vbs' : List VolumeBackup)
    → map forget vbs' ≡ map forget vbs
    → scan_volumes ready vbs' ≡ scan_volumes ready vbs
scan_volumes-forget ready vbs vbs' e =
    sym (scan_volumes_forgotten ready vbs')
    ∙ ap (scan_volumes ready) e
    ∙ scan_volumes_forgotten ready vbs
