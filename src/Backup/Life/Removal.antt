-- ===== src/Backup/Life/Removal.antt =====
-- What OnBackupRemove does leaves the backups alone.
use hci_controller_manager.Base.{Str, some, List, [], ◌∷◌}
use hci_controller_manager.Base.Keeps.{
  Keeps, Any, Keeps-fail, Keeps-bind, Quiet-elim, Quiet-if, Quiet-bind, Quiet-then, Quiet-attempt,
  Quiet-deref, Quiet-pure,
}
use hci_controller_manager.Api.{VirtualMachineBackup, VolumeBackup, TargetSetting}
use hci_controller_manager.Env.{Env}
use hci_controller_manager.Env.Calm.{CalmEnv}
use hci_controller_manager.Backup.Target.{delete_vm_backup_metadata, is_default_backup_target}
use hci_controller_manager.Backup.Snapshots.{
  get_volume_snapshot, force_delete_volume_snapshot, force_delete_volume_snapshot_and_content,
}
use hci_controller_manager.Backup.Reconcile.{on_backup_remove}
use hci_controller_manager.Backup.Life.Upload.{open_driver-Keeps, get_target-Keeps}

module _ {W : Type 0} {I : W → Type 0} (h : Env W) (c : CalmEnv I h) where
  delete_vm_backup_metadata-Keeps :
      (b : VirtualMachineBackup) (t : TargetSetting)
      → Keeps I Any (delete_vm_backup_metadata h b (some t))
  unfolding delete_vm_backup_metadata
  delete_vm_backup_metadata-Keeps b t = Quiet-if (is_default_backup_target t) _ _ (Quiet-pure tt) (
      Quiet-bind (Quiet-deref b.status) (λ s. Quiet-bind (Quiet-deref s.backup_target) (λ bt.
        Quiet-if _ _ _ (Quiet-pure tt) (
          Keeps-bind (open_driver-Keeps h c t) (λ d k.
            Quiet-bind (k.file_exists_keeps _)
              (λ exists. Quiet-if exists _ _ (k.remove_keeps _) (Quiet-pure tt)))))))

  force_delete_volume_snapshot-Keeps :
      (n : Str) (vb : VolumeBackup) → Keeps I Any (force_delete_volume_snapshot h n vb)
  unfolding force_delete_volume_snapshot get_volume_snapshot
  force_delete_volume_snapshot-Keeps n vb = Quiet-bind (Quiet-deref vb.name) (λ name.
      Quiet-bind (c.snapshots.get_keeps _) (λ s. Quiet-then (c.snapshots.update_keeps s) (
        Quiet-then (c.snapshots.delete_keeps s) (
          Quiet-elim s.status _ _ (Quiet-pure tt) (λ status.
            Quiet-elim status.bound_volume_snapshot_content_name _ _ (Quiet-pure tt) (λ m.
              Quiet-attempt (c.snapshot_contents.get_keeps _)
                (λ content.
                  Quiet-then (c.snapshot_contents.update_keeps _)
                    (c.snapshot_contents.delete_keeps _))
                (λ e. Quiet-if _ _ _ (Quiet-pure tt) (Keeps-fail e))))))))

  force_delete-Keeps :
      (n : Str) (vbs : List VolumeBackup)
      → Keeps I Any (force_delete_volume_snapshot_and_content h n vbs)
  unfolding force_delete_volume_snapshot_and_content
  force_delete-Keeps n [] = Quiet-pure tt
  force_delete-Keeps n (vb ∷ vbs) =
      Quiet-then (force_delete_volume_snapshot-Keeps n vb) (force_delete-Keeps n vbs)

  pub on_backup_remove-Keeps : (b : VirtualMachineBackup) → Keeps I Any (on_backup_remove h b)
  unfolding on_backup_remove
  on_backup_remove-Keeps b = Quiet-elim b.status _ _ (Quiet-pure tt) (λ s.
      Quiet-elim s.backup_target _ _ (Quiet-pure tt) (λ bt.
        Quiet-bind (get_target-Keeps h c) (λ target.
          Quiet-then (delete_vm_backup_metadata-Keeps b target)
            (Quiet-if _ _ _ (force_delete-Keeps _ _) (Quiet-pure tt)))))
