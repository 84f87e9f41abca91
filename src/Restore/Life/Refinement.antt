-- ===== src/Restore/Life/Refinement.antt =====
-- The whole reconciler of restores refines the steps of a restore's life.
use hci_controller_manager.Base.{List, [], ◌∷◌}
use hci_controller_manager.Base.Keeps.{
  Keeps, Any, Keeps-fail, Keeps-attempt, Keeps-Any, Quiet-attempt, Quiet-elim, Quiet-if, Quiet-bind,
  Quiet-then, Quiet-deref, Quiet-pure,
}
use hci_controller_manager.Api.{VirtualMachineRestore, VolumeBackup, NamespacedName}
use hci_controller_manager.Env.{Env}
use hci_controller_manager.Restore.Reconcile.{remove_contents, on_restore_remove, reconcile}
use hci_controller_manager.Restore.Life.Calls.{get_vm_backup-ready}
use hci_controller_manager.Restore.Life.Writes.{Observed, on_restore_change-Keeps}

module _ {W : Type 0} (h : Env W) {I : W → Type 0} {Known : VirtualMachineRestore → Type 0}
    (o : Observed h I Known) where
  remove_contents-Keeps :
      (r : VirtualMachineRestore) (vbs : List VolumeBackup) → Keeps I Any (remove_contents h r vbs)
  unfolding remove_contents
  remove_contents-Keeps r [] = Quiet-pure tt
  remove_contents-Keeps r (vb ∷ vbs) = Quiet-bind (Quiet-deref vb.name) (λ name.
      Quiet-then
        (Quiet-attempt (o.calm.snapshot_contents.get_keeps _) o.calm.snapshot_contents.delete_keeps
          (λ e. Quiet-if _ _ _ (Quiet-pure tt) (Keeps-fail e)))
        (remove_contents-Keeps r vbs))

  on_restore_remove-Keeps : (r : VirtualMachineRestore) → Keeps I Any (on_restore_remove h r)
  unfolding on_restore_remove
  on_restore_remove-Keeps r = Quiet-elim r.status _ _ (Quiet-pure tt) (λ s.
      Quiet-bind (Keeps-Any (get_vm_backup-ready h o.calm o.backups r))
        (λ b. Quiet-bind (Quiet-deref b.status) (λ bs. remove_contents-Keeps r _)))

  reconcile-Keeps : (key : NamespacedName) → Keeps I Any (reconcile h key)
  unfolding reconcile
  reconcile-Keeps key =
      Keeps-attempt (o.get_known key)
        (λ r seen. Quiet-if _ _ _ (on_restore_remove-Keeps r) (on_restore_change-Keeps h o r seen))
        (λ e. Quiet-if _ _ _ (Quiet-pure tt) (Keeps-fail e))

  -- Reconcile, with OnRestoreChange and OnRestoreRemove, writes a restore only by a step of its life
  -- from the object that it has read: what each such write keeps, the whole call keeps, whatever its
  -- outcome.
  pub reconcile-RestoreStep : (key : NamespacedName) (w : W) → I w → I (reconcile h key w).1
  reconcile-RestoreStep key w i = ((reconcile-Keeps key).at w i).0
