-- ===== src/Tests/RestoreLife.antt =====
-- The life of a restore in the small cluster.
use hci_controller_manager.Base.{
  ◌≡◌, refl, text, nat_eq, list_eq, true, false, none, some, [], ◌∷◌, Option, List, arith,
}
use hci_controller_manager.Base.Keeps.{Any, Post}
use hci_controller_manager.Api.{
  VirtualMachineRestore, VirtualMachineRestoreStatus, VirtualMachineBackup,
  VirtualMachineBackupStatus, VolumeRestore, condition_true, condition_false,
}
use hci_controller_manager.Env.Calm.{Calm}
use hci_controller_manager.Backup.State.{is_set, new_ready_condition, new_progressing_condition}
use hci_controller_manager.Restore.State.{
  is_vm_restore_progressing, is_vm_restore_missing_volumes, is_new_vm_or_has_retain_policy,
  config_vm_owner,
}
use hci_controller_manager.Restore.Plan.{new_volume_restore}
use hci_controller_manager.Restore.Reconcile.{reconcile, report}
use hci_controller_manager.Restore.Life.{
  give_up, complete, Life, here, next, IsPending, with_status,
}
use hci_controller_manager.Restore.Life.Writes.{Observed}
use hci_controller_manager.Restore.Life.Refinement.{reconcile-RestoreStep}
use hci_controller_manager.Restore.Life.Laws.{
  IsTied, step-IsTied, Life-keeps_volumes, has_volumes, volumes_of,
}
use hci_controller_manager.Tests.World.{World, start_world, cluster, found_or_missing}
use hci_controller_manager.Tests.Samples.{
  a_backup, a_vm, running_status, volume_backup, a_restore, restore_status,
}
use hci_controller_manager.Tests.Life.{cluster-Calm}

-- The restore that is stored, if any, is tied to its machine.
abbrev IsStoredTied : Option VirtualMachineRestore → Type 0
IsStoredTied none = Unit
IsStoredTied (some r) = IsTied r

abbrev StoredTied : World → Type 0
StoredTied w = IsStoredTied w.stored_restore

read-StoredTied :
    (o : Option VirtualMachineBackup) (w : World)
    → StoredTied w
    → StoredTied (found_or_missing o w).1 × Post Any (found_or_missing o w).0
read-StoredTied none w i = (i, tt)
read-StoredTied (some b) w i = (i, tt)

abbrev one_claim : List VolumeRestore
one_claim = new_volume_restore (a_restore none) (volume_backup (text "v")) (text "v") ∷ []

abbrev planned_status : VirtualMachineRestoreStatus
planned_status = record restore_status {
  volume_restores = some one_claim;
  deleted_volumes = some (text "pvc" ∷ []);
}

abbrev planned_restore : VirtualMachineRestore
planned_restore = a_restore (some planned_status)

planned-IsTied : IsTied planned_restore
unfolding is_vm_restore_progressing
planned-IsTied = record {
  free = λ e. refl;
  fresh = λ e. refl;
  owned = λ e. absurd (ground arith);
  finished = λ e. absurd (ground arith);
}

stored_backups-Calm : Calm StoredTied cluster.backups
stored_backups-Calm = record {
  get_keeps = λ k. record { at = λ w i. read-StoredTied w.stored_backup w i };
  create_keeps = λ b. record { at = λ w i. (i, tt) };
  update_keeps = λ b. record { at = λ w i. (i, tt) };
  delete_keeps = λ b. record { at = λ w i. (i, tt) };
}

found-StoredTied :
    (o : Option VirtualMachineRestore) (w : World)
    → StoredTied w
    → IsStoredTied o
    → StoredTied (found_or_missing o w).1 × Post IsTied (found_or_missing o w).0
found-StoredTied none w i t = (i, tt)
found-StoredTied (some r) w i t = (i, t)

cluster_restores-Observed : Observed cluster StoredTied IsTied
cluster_restores-Observed = record {
  calm = cluster-Calm;
  backups = stored_backups-Calm;
  get_known = λ k. record { at = λ w i. found-StoredTied w.stored_restore w i i };
  step_keeps = λ r q tied step. record { at = λ w i. (step-IsTied step tied, tt) };
}

abbrev ready_status : VirtualMachineBackupStatus
ready_status = record (running_status (volume_backup (text "v") ∷ [])) { ready_to_use = some true }

abbrev restoring : World
restoring = record start_world {
  stored_backup = some (a_backup (some ready_status));
  stored_restore = some planned_restore;
}

reconcile-RestoreStep_example :
    StoredTied (reconcile cluster (record { namespace = text "ns"; name = text "r" }) restoring).1
reconcile-RestoreStep_example =
    reconcile-RestoreStep cluster cluster_restores-Observed
      (record { namespace = text "ns"; name = text "r" }) restoring planned-IsTied

abbrev fresh_status : VirtualMachineRestoreStatus
fresh_status = record restore_status {
  conditions =
      new_progressing_condition condition_true [] (text "Initializing VirtualMachineRestore") []
      ∷ new_ready_condition condition_false [] (text "Initializing VirtualMachineRestore") []
      ∷ [];
}

abbrev listed_status : VirtualMachineRestoreStatus
listed_status = record fresh_status {
  volume_restores = some one_claim;
  deleted_volumes = some (text "v" ∷ []);
}

abbrev adopted_restore : VirtualMachineRestore
adopted_restore = record (a_restore (some (record listed_status { target_uid = some [] }))) {
  object_meta = record ((a_restore none).object_meta) {
    owner_references = config_vm_owner (text "kubevirt.io/v1") (text "VirtualMachine") a_vm;
  };
}

abbrev completed_restore : VirtualMachineRestore
completed_restore = with_status adopted_restore (
    report (λ i. []) condition_false condition_true [] (text "Operation complete")
      (text "Operation complete")
      (record listed_status { target_uid = some []; restore_time = some 7; complete = some true }))

pending :
    {r : VirtualMachineRestore}
    → is_set r.object_meta.deletion_timestamp ≡ false
    → is_vm_restore_progressing r ≡ true
    → IsPending r
pending k i = record { kept = k; incomplete = i }

abbrev failed : VirtualMachineRestore
failed = with_status planned_restore (
    report (λ i. []) condition_false condition_false (text "Error") (text "no backup")
      (text "no backup") planned_status)

Life-keeps_volumes_example :
    (has_volumes failed ≡ true) × (volumes_of failed ≡ volumes_of planned_restore)
unfolding is_vm_restore_progressing is_vm_restore_missing_volumes is_new_vm_or_has_retain_policy
Life-keeps_volumes_example =
    Life-keeps_volumes {r = planned_restore} {q = failed} refl
      (next here (give_up planned_status (λ i. []) (text "no backup") (pending refl refl) refl))
