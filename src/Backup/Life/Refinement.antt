-- ===== src/Backup/Life/Refinement.antt =====
-- The whole reconciler of backups refines the steps of a backup's life.
use hci_controller_manager.Base.{none, some, ◌≡◌, refl, sym, Option, List, Str, M}
use hci_controller_manager.Base.Keeps.{
  Keeps, Any, Keeps-fail, Keeps-attempt, Keeps-Any, Quiet-attempt, Quiet-elim, Quiet-if, Quiet-bind,
  Quiet-then, Quiet-pure, Quiet-gets,
}
use hci_controller_manager.Api.{
  VirtualMachineBackup, VirtualMachineBackupStatus, NamespacedName, Time,
}
use hci_controller_manager.Env.{Env}
use hci_controller_manager.Backup.Reconcile.{rewrite_finalizers, reconcile_finalizer, reconcile}
use hci_controller_manager.Backup.Initial.{empty_status}
use hci_controller_manager.Backup.Life.{BackupStep, protect, release}
use hci_controller_manager.Backup.Life.Removal.{on_backup_remove-Keeps}
use hci_controller_manager.Backup.Life.Writes.{Observed, on_backup_change-Keeps}

-- The object of `Reconcile`, with a status where it has none.
abbrev filled :
    VirtualMachineBackup → Time → Option VirtualMachineBackupStatus → VirtualMachineBackup
filled b now s = record b {
  status = elim s [
    | none ↦ some (record empty_status { creation_time = some now })
    | some status ↦ some status
  ];
}

module _ {W : Type 0} (h : Env W) {I : W → Type 0} {Known : VirtualMachineBackup → Type 0}
    (o : Observed h I Known) where
  rewrite_finalizers-Keeps :
      (key : NamespacedName) (change : List Str → List Str) (next : VirtualMachineBackup → M W Unit)
      → ((b : VirtualMachineBackup)
          → BackupStep h.rfc3339 b (record b {
            object_meta = record (b.object_meta) { finalizers = change b.object_meta.finalizers };
          }))
      → ((b : VirtualMachineBackup) → Keeps I Any (next b))
      → Keeps I Any (rewrite_finalizers h key change next)
  unfolding rewrite_finalizers
  rewrite_finalizers-Keeps key change next step kn =
      Keeps-attempt (o.get_known key) (λ b k. Quiet-then (o.step_keeps b _ k (step b)) (kn b))
        (λ e. Quiet-if _ _ _ (Quiet-pure tt) (Keeps-fail e))

  reconcile_finalizer-Keeps :
      (key : NamespacedName) (b : VirtualMachineBackup) → Keeps I Any (reconcile_finalizer h key b)
  unfolding reconcile_finalizer
  reconcile_finalizer-Keeps key b =
      Quiet-elim b.object_meta.deletion_timestamp _ _
        (Quiet-if _ _ _ (rewrite_finalizers-Keeps key _ _ (λ c. protect) (λ c. Quiet-pure tt))
          (Quiet-pure tt))
        (λ t. Quiet-if _ _ _ (Quiet-pure tt) (
          rewrite_finalizers-Keeps key _ _ (λ c. release)
            (λ c.
              Quiet-attempt (Keeps-Any (o.get_known key)) (on_backup_remove-Keeps h o.calm)
                (λ e. Quiet-if _ _ _ (Quiet-pure tt) (Keeps-fail e)))))

  filled_known :
      (b : VirtualMachineBackup) (now : Time) (s : Option VirtualMachineBackupStatus)
      → b.status ≡ s
      → Known b
      → Known (filled b now s)
  filled_known b now none e k = o.fill_known b now k e
  filled_known b now (some s) e k = rw (sym e) k

  pub reconcile-Keeps : (key : NamespacedName) → Keeps I Any (reconcile h key)
  unfolding reconcile
  reconcile-Keeps key =
      Keeps-attempt (o.get_known key)
        (λ b k. Quiet-bind (Quiet-gets h.clock) (λ now.
          Quiet-then (on_backup_change-Keeps h o _ (filled_known b (now 0) b.status refl k))
            (reconcile_finalizer-Keeps key (filled b (now 0) b.status))))
        (λ e. Quiet-if _ _ _ (Quiet-pure tt) (Keeps-fail e))

  -- Reconcile, with OnBackupChange and OnBackupRemove, writes a backup only by a step of its life from
  -- an object that it has read: what each such write keeps, the whole call keeps, whatever its outcome.
  pub reconcile-BackupStep : (key : NamespacedName) (w : W) → I w → I (reconcile h key w).1
  reconcile-BackupStep key w i = ((reconcile-Keeps key).at w i).0
