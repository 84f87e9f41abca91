-- ===== src/Backup/Life/Ends.antt =====
-- A backup in progress whose volumes are ready becomes ready.
use hci_controller_manager.Base.{
  ℕ, Str, ◌≡◌, ◌≢◌, refl, ap, true, false, none, some, List, [], ok, ◌==◌, arith,
}
use mathlib.Core.Logic.{ite}
use hci_controller_manager.Base.Dict.{Dict}
use hci_controller_manager.Api.{
  VirtualMachineBackup, VirtualMachineBackupStatus, VolumeBackup, VolumeSnapshotClass, Time,
  backup_status_eq,
}
use hci_controller_manager.Env.{Env}
use hci_controller_manager.Backup.State.{is_true, is_backup_ready}
use hci_controller_manager.Backup.Progress.{refresh, update_conditions}
use hci_controller_manager.Backup.Progress.Laws.{AllReady, scan_volumes_ready, refresh_completes}
use hci_controller_manager.Backup.Source.{get_csi_driver_map}
use hci_controller_manager.Backup.Snapshots.{snapshot_loop, visited, reconcile_volume_snapshots}
use hci_controller_manager.Backup.Reconcile.{continue_backup, on_backup_change}
use hci_controller_manager.Backup.Life.{InProgress, with_status}

-- The status with these volumes.
abbrev pub with_volumes :
    VirtualMachineBackupStatus → List VolumeBackup → VirtualMachineBackupStatus
with_volumes s vbs = record s { volume_backups = some vbs }

ite_yes : {P : Type 0} (d : Dec P) → P → ite d true false ≡ true
ite_yes (yes p) q = refl
ite_yes (no n) q = absurd (n q)

ite_no : {P : Type 0} (d : Dec P) → ¬ P → ite d true false ≡ false
ite_no (yes p) n = absurd (n p)
ite_no (no m) n = refl

eq_self : (s : VirtualMachineBackupStatus) → (s == s) ≡ true
eq_self s = ite_yes (backup_status_eq.dec s s) refl

eq_differs : (s t : VirtualMachineBackupStatus) → s ≢ t → (s == t) ≡ false
eq_differs s t d = ite_no (backup_status_eq.dec s t) d

refresh_differs :
    (rfc3339 : Time → Str) (now : ℕ → Time) (message : Str) (s : VirtualMachineBackupStatus)
    → is_true s.ready_to_use ≡ false
    → s ≢ refresh rfc3339 now true message s
unfolding refresh
refresh_differs rfc3339 now message s unready e =
    absurd
      (ground (arith, unready, ap (λ (t : VirtualMachineBackupStatus). is_true t.ready_to_use) e))

module _ {W : Type 0} (h : Env W) where
  snapshots_agree :
      (b : VirtualMachineBackup) (s : VirtualMachineBackupStatus) (vbs : List VolumeBackup)
      (classes : Dict VolumeSnapshotClass) (v u : W)
      → snapshot_loop h (with_status b (with_volumes s vbs)) classes vbs v ≡ (ok (visited vbs), u)
      → reconcile_volume_snapshots h (with_status b (with_volumes s vbs)) classes v ≡ (ok false, u)
  unfolding reconcile_volume_snapshots
  snapshots_agree b s vbs classes v u loop = rw (loop, eq_self (with_volumes s vbs)) refl

  conditions_conclude :
      (b : VirtualMachineBackup) (s : VirtualMachineBackupStatus) (vbs : List VolumeBackup) (u : W)
      → is_true s.ready_to_use ≡ false
      → AllReady vbs
      → update_conditions h (with_status b (with_volumes s vbs)) u
        ≡ h.backups.update
            (with_status b (refresh h.rfc3339 (h.clock u) true [] (with_volumes s vbs)))
            u
  unfolding update_conditions
  conditions_conclude b s vbs u unready all =
      let t = with_volumes s vbs in
      rw
        (
          (scan_volumes_ready vbs).1 all,
          eq_differs t (refresh h.rfc3339 (h.clock u) true [] t)
              (refresh_differs h.rfc3339 (h.clock u) [] t unready),
        )
        refl

  -- OnBackupChange on a backup in progress whose volumes are all ready and agree with their snapshots
  -- ends with the write of the same backup, ready and without an error, where the classes of its
  -- drivers are found.
  pub on_backup_change_ends :
      (b : VirtualMachineBackup) (s : VirtualMachineBackupStatus) (vbs : List VolumeBackup)
      (names : Dict Str) (classes : Dict VolumeSnapshotClass) (w v u : W)
      → let c = with_status b (with_volumes s vbs) in
        InProgress c (with_volumes s vbs)
        → AllReady vbs
        → get_csi_driver_map h c w ≡ (ok (names, classes), v)
        → snapshot_loop h c classes vbs v ≡ (ok (visited vbs), u)
        → (t : VirtualMachineBackupStatus) × (on_backup_change h c w
            ≡ h.backups.update (with_status c t) u)
          × (is_backup_ready (with_status c t) ≡ true)
          × (t.error ≡ none)
  unfolding on_backup_change continue_backup is_backup_ready
  on_backup_change_ends b s vbs names classes w v u p all found agree =
      let t = with_volumes s vbs in
      let done = refresh_completes h.rfc3339 (h.clock u) t [] p.open_backup.unready in
      (
        refresh h.rfc3339 (h.clock u) true [] t,
        rw
            (
              p.open_backup.kept,
              p.open_backup.unready,
              p.known,
              found,
              snapshots_agree b s vbs classes v u agree,
              conditions_conclude b s vbs u p.open_backup.unready all,
            )
            refl,
        unfold refresh in refl,
        done.1,
      )
