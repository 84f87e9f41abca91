-- ===== src/Backup/Life/Writes.antt =====
-- Every write of a backup by OnBackupChange is a step of its life.
use hci_controller_manager.Base.{
  true, false, not, none, some, ◌≡◌, refl, Option, List, Bool, ◌==◌, Err, M, elements, arith,
}
use hci_controller_manager.Base.Keeps.{
  Keeps, Any, Keeps-pure, Keeps-fail, Keeps-crash, Keeps-deref, Keeps-if, Keeps-bind, Keeps-then,
  Keeps-of_outcome, Quiet-attempt, Quiet-if, Quiet-bind, Quiet-then, Quiet-deref, Quiet-pure,
  Quiet-gets, Quiet-catch,
}
use hci_controller_manager.Base.Dict.{Dict}
use hci_controller_manager.Api.{
  VirtualMachineBackup, VirtualMachine, VolumeSnapshotClass, NamespacedName, Time, backup, snapshot,
  BackupType, VolumeBackup, backup_status_eq,
}
use hci_controller_manager.Env.{Env}
use hci_controller_manager.Env.Calm.{CalmEnv}
use hci_controller_manager.Backup.State.{
  is_empty, is_backup_ready, is_backup_missing_status, is_backup_target_on_annotation,
}
use hci_controller_manager.Backup.Progress.{update_conditions, scan_volumes, refresh}
use hci_controller_manager.Backup.Snapshots.{
  reconcile_volume_snapshots, SnapshotPass, requeue, visited,
}
use hci_controller_manager.Backup.Reconcile.{
  set_status_error, configure_csi_driver_volume_snapshot_class_names,
  configure_backup_target_on_status, handle_backup_ready, recorded_target, init_backup,
  start_backup, continue_backup, on_backup_change,
}
use hci_controller_manager.Backup.Initial.{empty_status}
use hci_controller_manager.Backup.Life.{
  BackupStep, start, give_up, observe, conclude, classify, retarget, IsOpen,
}
use hci_controller_manager.Backup.Life.Reads.{
  get_backup_source-Keeps, mount_longhorn_volumes-Keeps, get_volume_backups-Keeps,
  get_secret_backups-Keeps, get_csi_driver_map-Keeps,
}
use hci_controller_manager.Backup.Life.Snapshots.{snapshot_loop-SameVolumes}
use hci_controller_manager.Backup.Life.Upload.{get_target-Keeps, upload_vm_backup_metadata-Keeps}

-- What is asked of the world: a read of a backup yields a `Known` object, also with the status that
-- `Reconcile` puts where it has none, and `I` outlasts the write of a step from a `Known` object and
-- every call on objects of other kinds.
pub record Observed {W : Type 0} (h : Env W) (I : W → Type 0)
    (Known : VirtualMachineBackup → Type 0) : Type 0 where
  pub calm : CalmEnv I h
  pub get_known : (k : NamespacedName) → Keeps I Known (h.backups.get k)
  pub fill_known :
      (b : VirtualMachineBackup) (now : Time)
      → Known b
      → b.status ≡ none
      → Known (record b { status = some (record empty_status { creation_time = some now }) })
  pub step_keeps :
      (b c : VirtualMachineBackup)
      → Known b
      → BackupStep h.rfc3339 b c
      → Keeps I Any (h.backups.update c)

module _ {W : Type 0} (h : Env W) {I : W → Type 0} {Known : VirtualMachineBackup → Type 0}
    (o : Observed h I Known) where
  type-Keeps :
      {A : Type 0} {Q : A → Type 0} (t : BackupType) (m n : M W A)
      → Keeps I Q m
      → Keeps I Q n
      → Keeps I Q (elim t [ snapshot ↦ m | backup ↦ n ])
  type-Keeps snapshot m n km kn = km
  type-Keeps backup m n km kn = kn

  pass-Keeps :
      (p : SnapshotPass) (m : M W Bool) (f : List VolumeBackup → M W Bool)
      → Keeps I Any m
      → ((vbs : List VolumeBackup) → p ≡ visited vbs → Keeps I Any (f vbs))
      → Keeps I Any (elim p [ requeue ↦ m | visited vbs ↦ f vbs ])
  pass-Keeps requeue m f km kf = km
  pass-Keeps (visited vbs) m f km kf = kf vbs refl

  set_status_error-Keeps :
      (b : VirtualMachineBackup) (given : Option Err)
      → Known b
      → IsOpen b
      → Keeps I Any (set_status_error h b given)
  unfolding set_status_error
  set_status_error-Keeps b given k unfinished = Quiet-bind (Quiet-deref b.status) (λ s.
      Quiet-bind (Quiet-deref given) (λ e.
        Quiet-bind (Quiet-gets h.clock) (λ now.
          Quiet-then (o.step_keeps b _ k (give_up now e.message unfinished)) (Keeps-fail e))))

  recorded_target-Keeps : (b : VirtualMachineBackup) → Keeps I Any (recorded_target h b)
  unfolding recorded_target
  recorded_target-Keeps b =
      type-Keeps b.spec.type _ _ (Quiet-pure none)
        (Quiet-bind (get_target-Keeps h o.calm) (λ target. Quiet-pure _))

  init_backup-Keeps :
      (b : VirtualMachineBackup) (vm : VirtualMachine)
      → Known b
      → IsOpen b
      → is_backup_missing_status b ≡ true
      → Keeps I Any (init_backup h b vm)
  unfolding init_backup
  init_backup-Keeps b vm k unfinished missing =
      Quiet-bind (get_volume_backups-Keeps h o.calm b vm) (λ vbs.
        Quiet-bind (get_secret_backups-Keeps h o.calm vm) (λ secrets.
          Quiet-bind (get_csi_driver_map-Keeps h o.calm _) (λ (names, classes).
            Quiet-bind (recorded_target-Keeps b) (λ target.
              o.step_keeps b _ k (start vm vbs secrets names target unfinished missing)))))

  start_backup-Keeps :
      (b : VirtualMachineBackup)
      → Known b
      → IsOpen b
      → is_backup_missing_status b ≡ true
      → Keeps I Any (start_backup h b)
  unfolding start_backup
  start_backup-Keeps b k unfinished missing =
      Quiet-attempt (get_backup_source-Keeps h o.calm b)
        (λ vm.
          Quiet-if _ _ _
            (Quiet-attempt (mount_longhorn_volumes-Keeps h o.calm vm)
              (λ u. init_backup-Keeps b vm k unfinished missing)
              (λ e. set_status_error-Keeps b (some e) k unfinished))
            (init_backup-Keeps b vm k unfinished missing))
        (λ e. set_status_error-Keeps b (some e) k unfinished)

  reconcile_volume_snapshots-Keeps :
      (b : VirtualMachineBackup) (classes : Dict VolumeSnapshotClass)
      → Known b
      → IsOpen b
      → is_backup_missing_status b ≡ false
      → Keeps I Any (reconcile_volume_snapshots h b classes)
  unfolding reconcile_volume_snapshots
  reconcile_volume_snapshots-Keeps b classes k unfinished known =
      Keeps-bind (Keeps-deref b.status (λ s e. e)) (λ s at.
        Keeps-bind (snapshot_loop-SameVolumes h o.calm b classes (elements s.volume_backups))
          (λ pass same. pass-Keeps pass _ _ (Quiet-pure true) (λ vbs visits.
            Quiet-if _ _ _ (Quiet-pure false) (
              Quiet-then
                (o.step_keeps b _ k (
                  observe s vbs (record { open_backup = unfinished; known = known; at_status = at })
                    (same vbs visits)))
                (Quiet-pure false)))))

  update_conditions-Keeps :
      (b : VirtualMachineBackup)
      → Known b
      → IsOpen b
      → is_backup_missing_status b ≡ false
      → Keeps I Any (update_conditions h b)
  unfolding update_conditions
  update_conditions-Keeps b k unfinished known =
      Keeps-bind (Keeps-deref b.status (λ s e. e)) (λ s at. Quiet-bind (Quiet-gets h.clock) (λ now.
        Keeps-bind (Keeps-of_outcome (scan_volumes true (elements s.volume_backups)) (λ a e. e))
          (λ r found. Quiet-if (s == refresh h.rfc3339 now r.0 r.1 s) _ _ (Quiet-pure tt) (
            o.step_keeps b _ k (
              conclude s now r.0 r.1
                (record { open_backup = unfinished; known = known; at_status = at }) found)))))

  continue_backup-Keeps :
      (b : VirtualMachineBackup)
      → Known b
      → IsOpen b
      → is_backup_missing_status b ≡ false
      → Keeps I Any (continue_backup h b)
  unfolding continue_backup
  continue_backup-Keeps b k unfinished known =
      let failed = λ (e : Err). set_status_error-Keeps b (some e) k unfinished in
      Quiet-attempt (get_csi_driver_map-Keeps h o.calm b)
        (λ (names, classes).
          Quiet-attempt (reconcile_volume_snapshots-Keeps b classes k unfinished known)
            (λ requeued.
              Quiet-if requeued _ _ (set_status_error-Keeps b none k unfinished)
                (update_conditions-Keeps b k unfinished known))
            (λ e. Quiet-then (Quiet-catch (failed e) (λ _. Quiet-pure tt)) Keeps-crash))
        failed

  classify-Keeps :
      (b : VirtualMachineBackup)
      → Known b
      → is_backup_ready b ≡ true
      → Keeps I Known (configure_csi_driver_volume_snapshot_class_names h b)
  unfolding configure_csi_driver_volume_snapshot_class_names
  classify-Keeps b k ready = Keeps-bind (Keeps-deref b.status (λ s e. e)) (λ s at.
      Keeps-if (not (is_empty s.csi_driver_volume_snapshot_class_names)) _ _ (λ _. Keeps-pure b k)
        (λ empty. Keeps-bind (get_csi_driver_map-Keeps h o.calm b) (λ (names, classes) _.
          Keeps-then (o.step_keeps b _ k (classify s names ready at (ground (arith, empty))))
            (o.get_known _))))

  retarget-Keeps :
      (b : VirtualMachineBackup) → Known b → Keeps I Known (configure_backup_target_on_status h b)
  unfolding configure_backup_target_on_status
  retarget-Keeps b k =
      Keeps-if (not (is_backup_target_on_annotation b)) _ _ (λ _. Keeps-pure b k)
        (λ annotated. Keeps-bind (Keeps-deref b.status (λ s e. e)) (λ s at.
          Keeps-then (o.step_keeps b _ k (retarget s _ at (ground (arith, annotated))))
            (o.get_known _)))

  handle_backup_ready-Keeps :
      (b : VirtualMachineBackup)
      → Known b
      → is_backup_ready b ≡ true
      → Keeps I Any (handle_backup_ready h b)
  unfolding handle_backup_ready
  handle_backup_ready-Keeps b k ready = Keeps-bind (classify-Keeps b k ready) (λ c kc.
      type-Keeps c.spec.type _ _ (Quiet-pure tt)
        (Keeps-bind (retarget-Keeps c kc) (λ d _. upload_vm_backup_metadata-Keeps h o.calm d)))

  pub on_backup_change-Keeps :
      (b : VirtualMachineBackup) → Known b → Keeps I Any (on_backup_change h b)
  unfolding on_backup_change
  on_backup_change-Keeps b k =
      Keeps-if _ _ _ (λ _. Quiet-pure tt)
        (λ kept. Keeps-if _ _ _ (handle_backup_ready-Keeps b k) (λ unready.
          let unfinished : IsOpen b = record { kept = kept; unready = unready } in
          Keeps-if _ _ _ (start_backup-Keeps b k unfinished)
            (continue_backup-Keeps b k unfinished)))
