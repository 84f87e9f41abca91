-- ===== src/Backup/Life/Kept.antt =====
-- What is kept of a backup in its life, and what of that a write is read back with.
use hci_controller_manager.Backup.Stored.{read_back, omit_empty}
use hci_controller_manager.Base.{
  Str, ℕ, ◌≡◌, refl, ◌∙◌, Bool, true, false, Option, none, some, List, [], Outcome, ok, err, panic,
  elements, arith, map, ◌∷◌, Option-cases, inl, inr, ap, sym,
}
use mathlib.Core.Path.{subst}
use hci_controller_manager.Base.Dict.{Dict}
use hci_controller_manager.Api.{
  VirtualMachineBackup, VirtualMachineBackupStatus, VolumeBackup, Condition, Time,
  VirtualMachineBackupMetadata, BackupTarget,
}
use hci_controller_manager.Backup.Target.{metadata_of, sanitize_volume_backups}
use hci_controller_manager.Backup.State.{
  is_backup_ready, is_backup_missing_status, update_backup_condition,
}
use hci_controller_manager.Backup.Progress.{
  scan_volumes, refresh, mark_progress, mark_complete, mark_error,
}
use hci_controller_manager.Backup.Longhorn.Laws.{forget, sanitize_volume_backups-forget}
use hci_controller_manager.Backup.Life.{with_status}

abbrev pub volumes_of : VirtualMachineBackup → List VolumeBackup
volumes_of b = elim b.status [ none ↦ [] | some s ↦ elements s.volume_backups ]

abbrev pub finds_ready : Outcome (Bool × Str) → Bool
finds_ready (ok (ready, message)) = ready
finds_ready (err e) = false
finds_ready panic = false

-- A backup that is ready knows its source and its volumes, and the loop of updateConditions finds
-- these ready.
abbrev pub IsSound : VirtualMachineBackup → Type 0
IsSound b =
    is_backup_ready b ≡ true
    → (is_backup_missing_status b ≡ false) × (finds_ready (scan_volumes true (volumes_of b)) ≡ true)

abbrev forget_names : VirtualMachineBackupMetadata → VirtualMachineBackupMetadata
forget_names m = record m { volume_backups = some (map forget (elements m.volume_backups)) }

-- What `uploadVMBackupMetadata` would write for the backup, without the names of Longhorn's backups. The
-- JSON of nil is that of an empty list of volumes.
abbrev metadata : VirtualMachineBackup → Option VirtualMachineBackupMetadata
metadata b = elim b.status [ none ↦ none | some s ↦ some (forget_names (metadata_of b s)) ]

abbrev conditions_of : VirtualMachineBackup → List Condition
conditions_of b = elim b.status [ none ↦ [] | some s ↦ s.conditions ]

-- `updateConditions` rewrites nothing but readiness, creation time, error and conditions.
pub refresh_same :
    (rfc3339 : Time → Str) (now : ℕ → Time) (ready : Bool) (message : Str)
    (s : VirtualMachineBackupStatus)
    → ((refresh rfc3339 now ready message s).volume_backups ≡ s.volume_backups)
      × ((refresh rfc3339 now ready message s).source_spec ≡ s.source_spec)
unfolding refresh mark_progress mark_complete mark_error update_backup_condition
refresh_same rfc3339 now ready message s = ground arith

-- What a ready backup keeps.
pub record KeepsBackup (b c : VirtualMachineBackup) : Type 0 where
  pub ready : is_backup_ready c ≡ true
  pub metadata_kept : metadata c ≡ metadata b
  pub volumes_kept : map forget (volumes_of c) ≡ map forget (volumes_of b)
  pub conditions_kept : conditions_of c ≡ conditions_of b

pub reclassified :
    (b : VirtualMachineBackup) (s : VirtualMachineBackupStatus) (names : Dict Str)
    (target : Option BackupTarget)
    → b.status ≡ some s
    → is_backup_ready b ≡ true
    → KeepsBackup b (
        with_status b
          (record s { csi_driver_volume_snapshot_class_names = names; backup_target = target }))
unfolding is_backup_ready metadata_of
reclassified b s names target at r = ground (arith, at, r)

pub learned :
    (b : VirtualMachineBackup) (s : VirtualMachineBackupStatus) (old new : List VolumeBackup)
    → b.status ≡ some s
    → s.volume_backups ≡ some old
    → map forget new ≡ map forget old
    → is_backup_ready b ≡ true
    → KeepsBackup b (with_status b (record s { volume_backups = some new }))
unfolding is_backup_ready metadata_of
learned b s old new at vbs told r =
    ground (arith, at, vbs, told, r, sanitize_volume_backups-forget old new told)

-- A backup as it is read has no empty list of volumes.
abbrev pub IsRead : VirtualMachineBackup → Type 0
IsRead b =
    (s : VirtualMachineBackupStatus)
    → b.status ≡ some s
    → omit_empty s.volume_backups ≡ s.volume_backups

omit_empty_twice : (vbs : Option (List VolumeBackup)) → omit_empty (omit_empty vbs) ≡ omit_empty vbs
omit_empty_twice none = refl
omit_empty_twice (some []) = refl
omit_empty_twice (some (vb ∷ vbs)) = refl

elements-omit_empty : (vbs : Option (List VolumeBackup)) → elements (omit_empty vbs) ≡ elements vbs
elements-omit_empty none = refl
elements-omit_empty (some []) = refl
elements-omit_empty (some (vb ∷ vbs)) = refl

pub read_back-IsRead : (b : VirtualMachineBackup) → IsRead (read_back b)
read_back-IsRead b = elim (Option-cases b.status) [
  | inl e ↦ λ s at. absurd (ground (arith, e))
  | inr (t, e) ↦ λ s at.
      let same : record t { volume_backups = omit_empty t.volume_backups } ≡ s =
        ground (arith, e) in
      rw (← same) (omit_empty_twice t.volume_backups)
]

-- A backup without an empty list of volumes is read as it was written.
read_back_same : (b : VirtualMachineBackup) → IsRead b → read_back b ≡ b
read_back_same b read = elim (Option-cases b.status) [
  | inl e ↦ ground (arith, e)
  | inr (s, e) ↦ ground (arith, e, read s e)
]

is_backup_ready-read_back :
    (b : VirtualMachineBackup) → is_backup_ready (read_back b) ≡ is_backup_ready b
unfolding is_backup_ready
is_backup_ready-read_back b = elim (Option-cases b.status) [
  | inl e ↦ rw e refl
  | inr (s, e) ↦ rw e refl
]

pub read_back-IsSound :
    (b : VirtualMachineBackup)
    → (is_backup_ready b ≡ true → IsRead b)
    → IsSound b
    → IsSound (read_back b)
read_back-IsSound b read sound = λ r.
    let r' : is_backup_ready b ≡ true = rw (is_backup_ready-read_back b) at r in
    subst IsSound (sym (read_back_same b (read r'))) sound r

metadata-read_back :
    (b : VirtualMachineBackup) (s : VirtualMachineBackupStatus) (v : Option (List VolumeBackup))
    → b.status ≡ some s
    → s.volume_backups ≡ v
    → metadata (read_back b) ≡ metadata b
unfolding metadata_of sanitize_volume_backups
metadata-read_back b s none at e = rw (at, e) refl
metadata-read_back b s (some []) at e = rw (at, e) refl
metadata-read_back b s (some (vb ∷ vbs)) at e = rw (at, e) refl

pub read_back-KeepsBackup :
    (b : VirtualMachineBackup) → is_backup_ready b ≡ true → KeepsBackup b (read_back b)
unfolding is_backup_ready
read_back-KeepsBackup b r = elim (Option-cases b.status) [
  | inl e ↦ absurd (ground (arith, e, r))
  | inr (s, e) ↦ record {
    ready = ground (arith, e, r);
    metadata_kept = metadata-read_back b s s.volume_backups e refl;
    volumes_kept = rw e (ap (map forget) (elements-omit_empty s.volume_backups));
    conditions_kept = rw e refl;
  }
]

pub KeepsBackup-trans :
    (a b c : VirtualMachineBackup) → KeepsBackup a b → KeepsBackup b c → KeepsBackup a c
KeepsBackup-trans a b c past last = record {
  ready = last.ready;
  metadata_kept = last.metadata_kept ∙ past.metadata_kept;
  volumes_kept = last.volumes_kept ∙ past.volumes_kept;
  conditions_kept = last.conditions_kept ∙ past.conditions_kept;
}

pub omit_empty-forget :
    (old new : List VolumeBackup)
    → map forget new ≡ map forget old
    → omit_empty (some old) ≡ some old
    → omit_empty (some new) ≡ some new
omit_empty-forget old (vb ∷ new) e read = refl
omit_empty-forget [] [] e read = read
omit_empty-forget (vb ∷ old) [] e read = absurd (cc)
