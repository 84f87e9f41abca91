-- ===== src/Backup/Reconcile/Laws.antt =====
-- On the handlers of a backup: their branches, errors and panics.
use hci_controller_manager.Base.{
  Str, ℕ, ◌≡◌, ◌≢◌, refl, true, false, Option, none, some, List, M, Outcome, ok, err, panic, Err,
  Option-cases, Bool-cases, inl, inr, bind-ok, crash, catch, cases, fail, ◌>>◌, cases-ok,
  bind_fail-ne-ok, deref, pure, list_eq, nat_eq, if◌then◌else◌, [], ◌∷◌,
}
use hci_controller_manager.Base.Dict.{Dict}
use hci_controller_manager.Api.{
  VirtualMachineBackup, VirtualMachineBackupStatus, VirtualMachine, VolumeBackup, SecretBackup,
  BackupTarget, VolumeSnapshotClass, Time,
}
use hci_controller_manager.Env.{Env}
use hci_controller_manager.Backup.State.{
  is_backup_ready, is_backup_missing_status, is_backup_progressing, update_backup_condition,
  get_vm_backup_error, is_empty,
}
use hci_controller_manager.Backup.Progress.{update_conditions}
use hci_controller_manager.Backup.Source.{
  get_csi_driver_map, get_volume_backups, get_secret_backups,
}
use hci_controller_manager.Backup.Snapshots.{reconcile_volume_snapshots}
use hci_controller_manager.Backup.Reconcile.{
  set_status_error, continue_backup, start_backup, on_backup_change, init_backup, recorded_target,
}
use hci_controller_manager.Backup.Stored.{read_back}
use hci_controller_manager.Backup.Initial.{error_status, initial_status}

-- The status that an error leaves has lost the source and the volumes.
error_status_missing :
    (rfc3339 : Time → Str) (now : ℕ → Time) (message : Str)
    → let s : VirtualMachineBackupStatus = error_status rfc3339 now message in
      (s.source_spec ≡ none) × (s.volume_backups ≡ none) × (s.ready_to_use ≡ none)
unfolding error_status update_backup_condition
error_status_missing rfc3339 now message = (refl, refl, refl)

crash-ne-ok :
    {W A B : Type 0} (o : Outcome A × W) (b : B) (v : W) → cases o (λ _. crash) fail ≢ (ok b, v)
crash-ne-ok (ok a, u) b v r = cc
crash-ne-ok (err f, u) b v r = cc
crash-ne-ok (panic, u) b v r = cc

catch-crash-ne-ok :
    {W B : Type 0} (m : M W Unit) (b : B) (w v : W)
    → (catch m (λ _. pure tt) >> crash) w ≢ (ok b, v)
catch-crash-ne-ok m b w v = crash-ne-ok (catch m (λ _. pure tt) w) b v

module _ {W : Type 0} (h : Env W) where
  -- The next change of a backup whose status is the one that `setStatusError` writes starts the
  -- backup from the beginning, unless it is deleted.
  pub on_backup_change_after_error :
      (vm_backup : VirtualMachineBackup) (now : ℕ → Time) (message : Str) (w : W)
      → vm_backup.object_meta.deletion_timestamp ≡ none
      → let failed : VirtualMachineBackup = record vm_backup {
        status = some (error_status h.rfc3339 now message);
      } in
        on_backup_change h failed w ≡ start_backup h failed w
  unfolding on_backup_change is_backup_ready is_backup_missing_status error_status
      update_backup_condition
  on_backup_change_after_error vm_backup now message w d = rw d refl

  set_status_error-ne-ok :
      (vm_backup : VirtualMachineBackup) (given : Option Err) (w w' : W)
      → set_status_error h vm_backup given w ≢ (ok tt, w')
  unfolding set_status_error
  set_status_error-ne-ok vm_backup given w w' r =
      let (status, v, _, r1) = bind-ok (deref vm_backup.status w) r in
      let (e, u, _, r2) = bind-ok (deref given v) r1 in
      bind_fail-ne-ok
        (h.backups.update
          (record vm_backup { status = some (error_status h.rfc3339 (h.clock u) e.message) }))
        e tt u w' r2

  -- A step of a backup in progress that succeeds has called getCSIDriverMap,
  -- reconcileVolumeSnapshots and updateConditions in this order, each with success, and
  -- reconcileVolumeSnapshots has not asked for another run.
  pub continue_backup_ok :
      (vm_backup : VirtualMachineBackup) (w w' : W)
      → continue_backup h vm_backup w ≡ (ok tt, w')
      → (names : Dict Str) × (classes : Dict VolumeSnapshotClass) × (v u : W) × (get_csi_driver_map
            h vm_backup w
          ≡ (ok (names, classes), v))
        × (reconcile_volume_snapshots h vm_backup classes v ≡ (ok false, u))
        × (update_conditions h vm_backup u ≡ (ok tt, w'))
  unfolding continue_backup
  continue_backup_ok vm_backup w w' r = elim (cases-ok (get_csi_driver_map h vm_backup w) r) [
    | inr (e, v, _, r1) ↦ absurd (set_status_error-ne-ok vm_backup (some e) v w' r1)
    | inl ((names, classes), v, g, r1) ↦
        elim (cases-ok (reconcile_volume_snapshots h vm_backup classes v) r1) [
          | inr (e, u, _, r2) ↦
              absurd (catch-crash-ne-ok (set_status_error h vm_backup (some e)) tt u w' r2)
          | inl (requeued, u, g2, r2) ↦ elim (Bool-cases requeued) [
            | inl y ↦ absurd (set_status_error-ne-ok vm_backup none u w' (rw y at r2))
            | inr n ↦ (names, classes, v, u, g, rw n at g2, rw n at r2)
          ]
        ]
  ]

  -- Where `getCSIDriverMap` succeeds and `reconcileVolumeSnapshots` asks for another run, the step
  -- of the backup panics.
  pub continue_backup_requeue_panics :
      (vm_backup : VirtualMachineBackup) (names : Dict Str) (classes : Dict VolumeSnapshotClass)
      (w v u : W)
      → get_csi_driver_map h vm_backup w ≡ (ok (names, classes), v)
      → reconcile_volume_snapshots h vm_backup classes v ≡ (ok true, u)
      → continue_backup h vm_backup w ≡ (panic, u)
  unfolding continue_backup set_status_error
  continue_backup_requeue_panics vm_backup names classes w v u g r =
      elim (Option-cases vm_backup.status) [
        | inl n ↦ rw (g, r, n) refl
        | inr (s, e) ↦ rw (g, r, e) refl
      ]

  -- The object that `initBackup` writes
  abbrev begun :
      VirtualMachineBackup
      → VirtualMachine
      → List VolumeBackup
      → List SecretBackup
      → Dict Str
      → Option BackupTarget
      → VirtualMachineBackup
  begun vm_backup vm volume_backups secret_backups names target = record vm_backup {
    status = some (record (initial_status vm volume_backups secret_backups) {
      csi_driver_volume_snapshot_class_names = names;
      backup_target = target;
    });
  }

  started :
      (vm_backup : VirtualMachineBackup) (vm : VirtualMachine) (volume_backups : List VolumeBackup)
      (secret_backups : List SecretBackup) (names : Dict Str) (target : Option BackupTarget) (u : W)
      → vm_backup.object_meta.deletion_timestamp ≡ none
      → let stored = read_back (begun vm_backup vm volume_backups secret_backups names target) in
        on_backup_change h stored u
        ≡ (if is_empty volume_backups then start_backup h stored u else continue_backup h stored u)
  unfolding on_backup_change is_backup_ready is_backup_missing_status initial_status
  started vm_backup vm [] secret_backups names target u d = rw d refl
  started vm_backup vm (vb ∷ volume_backups) secret_backups names target u d = rw d refl

  -- Where `initBackup` of a backup that is not being deleted succeeds, it has written the volumes that
  -- getVolumeBackups found, and what is read back is in progress. The next change of it continues the
  -- backup if there is a volume. For a machine without claims it starts the backup over, since the
  -- empty list of volumes is read back as nil.
  pub init_backup_continues :
      (vm_backup : VirtualMachineBackup) (vm : VirtualMachine) (w w' : W)
      → vm_backup.object_meta.deletion_timestamp ≡ none
      → init_backup h vm_backup vm w ≡ (ok tt, w')
      → (volume_backups : List VolumeBackup) × (written : VirtualMachineBackup) × (v1 v : W)
        × (get_volume_backups h vm_backup vm w ≡ (ok volume_backups, v1))
        × (h.backups.update written v ≡ (ok tt, w'))
        × (is_backup_progressing (read_back written) ≡ true)
        × ((u : W)
            → on_backup_change h (read_back written) u ≡ (
                if is_empty volume_backups
                then start_backup h (read_back written) u
                else continue_backup h (read_back written) u))
  unfolding init_backup
  init_backup_continues vm_backup vm w w' alive r =
      let (volume_backups, v1, found, r1) = bind-ok (get_volume_backups h vm_backup vm w) r in
      let (secret_backups, v2, _, r2) = bind-ok (get_secret_backups h vm v1) r1 in
      let status : VirtualMachineBackupStatus = initial_status vm volume_backups secret_backups in
      let ((names, _), v3, _, r3) =
        bind-ok (get_csi_driver_map h (record vm_backup { status = some status }) v2) r2 in
      let (target, v4, _, r4) = bind-ok (recorded_target h vm_backup v3) r3 in
      (
        volume_backups,
        begun vm_backup vm volume_backups secret_backups names target,
        v1,
        v4,
        found,
        r4,
        unfold is_backup_progressing get_vm_backup_error initial_status in refl,
        λ u. started vm_backup vm volume_backups secret_backups names target u alive,
      )
