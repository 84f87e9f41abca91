-- ===== src/Backup/Life/Laws.antt =====
-- What outlasts the life of a backup.
use hci_controller_manager.Backup.Stored.{read_back}
use hci_controller_manager.Base.{Str, ◌≡◌, refl, true, false, none, some, arith}
use hci_controller_manager.Api.{VirtualMachineBackup, Time}
use hci_controller_manager.Backup.Target.{metadata_of}
use hci_controller_manager.Backup.State.{
  is_backup_ready, is_backup_missing_status, update_backup_condition,
}
use hci_controller_manager.Backup.Progress.{scan_volumes, refresh}
use hci_controller_manager.Backup.Initial.{error_status, initial_status}
use hci_controller_manager.Backup.Longhorn.Laws.{
  Told-forget, scan_volumes-forget, set_longhorn_backup_name-Told,
}
use hci_controller_manager.Backup.Life.{
  BackupStep, start, give_up, observe, conclude, classify, retarget, learn, protect, release, Life,
  here, next,
}
use hci_controller_manager.Backup.Life.Kept.{
  IsRead, IsSound, KeepsBackup, KeepsBackup-trans, finds_ready, learned, omit_empty-forget,
  read_back-IsRead, read_back-IsSound, read_back-KeepsBackup, reclassified, refresh_same,
  volumes_of,
}

module _ {rfc3339 : Time → Str} where
  pub BackupStep-IsSound :
      {b c : VirtualMachineBackup} → BackupStep rfc3339 b c → IsSound b → IsSound c
  unfolding is_backup_ready is_backup_missing_status refresh error_status update_backup_condition
      initial_status
  BackupStep-IsSound (start vm vbs secrets names target unfinished missing) sound = ground arith
  BackupStep-IsSound (give_up now message unfinished) sound = ground arith
  BackupStep-IsSound (observe s vbs p same) sound =
      ground (arith, p.open_backup.unready, p.at_status)
  BackupStep-IsSound (conclude s now ready message p found) sound = λ yes.
      ground (arith, yes, found, p.known, p.at_status, refresh_same rfc3339 now ready message s)
  BackupStep-IsSound (classify s names ready at empty) sound = ground (arith, at)
  BackupStep-IsSound (retarget s target at annotated) sound = ground (arith, at)
  BackupStep-IsSound (learn s name longhorn old new at target vbs told) sound = ground (
    arith,
    at,
    vbs,
    scan_volumes-forget true old new (
        Told-forget name longhorn old new
          (set_longhorn_backup_name-Told name longhorn old new told)),
  )
  BackupStep-IsSound protect sound = sound
  BackupStep-IsSound release sound = sound

  -- A step to a ready backup from one that was read leaves no empty list of volumes.
  BackupStep-IsRead :
      {b c : VirtualMachineBackup}
      → BackupStep rfc3339 b c
      → IsRead b
      → is_backup_ready c ≡ true
      → IsRead c
  unfolding is_backup_ready error_status update_backup_condition initial_status
  BackupStep-IsRead (start vm vbs secrets names target unfinished missing) read r =
      absurd (ground arith)
  BackupStep-IsRead (give_up now message unfinished) read r = absurd (ground arith)
  BackupStep-IsRead (observe s vbs p same) read r =
      absurd (ground (arith, p.open_backup.unready, p.at_status, r))
  BackupStep-IsRead (conclude s now ready message p found) read r = λ t at.
      let same = (refresh_same rfc3339 now ready message s).0 in
      ground (arith, read s p.at_status, same, at)
  BackupStep-IsRead (classify s names ready at empty) read r =
      λ t at'. ground (arith, read s at, at')
  BackupStep-IsRead (retarget s target at annotated) read r =
      λ t at'. ground (arith, read s at, at')
  BackupStep-IsRead (learn s name longhorn old new at target vbs told) read r = λ t at'.
      let kept =
        omit_empty-forget old new
          (Told-forget name longhorn old new
            (set_longhorn_backup_name-Told name longhorn old new told))
          (rw vbs at (read s at)) in
      ground (arith, kept, at')
  BackupStep-IsRead protect read r = read
  BackupStep-IsRead release read r = read

  Life-IsSound :
      {b c : VirtualMachineBackup} → IsRead b → IsSound b → Life rfc3339 b c → IsRead c × IsSound c
  Life-IsSound read sound here = (read, sound)
  Life-IsSound read sound (next {d = d} life step) =
      let (read', sound') = Life-IsSound read sound life in
      (
        read_back-IsRead d,
        read_back-IsSound d (BackupStep-IsRead step read') (BackupStep-IsSound step sound'),
      )

  -- In the life of a backup that starts without a status, a ready backup has its source and its
  -- volumes, and the loop of updateConditions finds these volumes ready.
  pub Life-ready_sound :
      {b c : VirtualMachineBackup}
      → b.status ≡ none
      → Life rfc3339 b c
      → is_backup_ready c ≡ true
      → (is_backup_missing_status c ≡ false)
        × (finds_ready (scan_volumes true (volumes_of c)) ≡ true)
  unfolding is_backup_ready
  Life-ready_sound fresh life ready =
      (Life-IsSound (λ s at. absurd (ground (arith, fresh, at))) (λ r. ground (arith, fresh, r))
          life).1
        ready

  BackupStep-ready :
      {b c : VirtualMachineBackup}
      → BackupStep rfc3339 b c
      → is_backup_ready b ≡ true
      → KeepsBackup b c
  unfolding is_backup_ready metadata_of
  BackupStep-ready (start vm vbs secrets names target unfinished missing) r =
      ground (arith, unfinished.unready, r)
  BackupStep-ready (give_up now message unfinished) r = ground (arith, unfinished.unready, r)
  BackupStep-ready (observe s vbs p same) r = ground (arith, p.open_backup.unready, r)
  BackupStep-ready (conclude s now ready message p found) r =
      ground (arith, p.open_backup.unready, r)
  BackupStep-ready (classify s names ready at empty) r = reclassified _ s names s.backup_target at r
  BackupStep-ready (retarget s target at annotated) r =
      reclassified _ s s.csi_driver_volume_snapshot_class_names (some target) at r
  BackupStep-ready (learn s name longhorn old new at target vbs told) r =
      learned _ s old new at vbs
        (Told-forget name longhorn old new
          (set_longhorn_backup_name-Told name longhorn old new told))
        r
  BackupStep-ready protect r = record {
    ready = r;
    metadata_kept = refl;
    volumes_kept = refl;
    conditions_kept = refl;
  }
  BackupStep-ready release r = record {
    ready = r;
    metadata_kept = refl;
    volumes_kept = refl;
    conditions_kept = refl;
  }

  -- A backup that is ready stays so for the rest of its life, with the same conditions, and with the
  -- same volumes and metadata but for the names of Longhorn's backups in them.
  pub Life-stays_ready :
      {b c : VirtualMachineBackup} → is_backup_ready b ≡ true → Life rfc3339 b c → KeepsBackup b c
  Life-stays_ready ready here = record {
    ready = ready;
    metadata_kept = refl;
    volumes_kept = refl;
    conditions_kept = refl;
  }
  Life-stays_ready {b} ready (next {c} {d} life step) =
      let past = Life-stays_ready ready life in
      let last = BackupStep-ready step past.ready in
      KeepsBackup-trans b d (read_back d) (KeepsBackup-trans b c d past last)
        (read_back-KeepsBackup d last.ready)
