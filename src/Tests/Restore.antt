-- ===== src/Tests/Restore.antt =====
-- Runs of a restore, and the theorems on restores at small inputs.
use hci_controller_manager.Base.{
  text, ◌≡◌, ◌↔◌, refl, true, none, some, List, [], ◌∷◌, ok, Err, Reason, map, elements, list_eq,
  nat_eq,
}
use hci_controller_manager.Api.{
  VirtualMachineBackup, VirtualMachineBackupStatus, VirtualMachineRestore,
  VirtualMachineRestoreStatus, VirtualMachine, VolumeRestore, condition_false, Volume,
}
use hci_controller_manager.Backup.State.{is_empty}
use hci_controller_manager.Restore.State.{
  get_new_volumes, is_vm_restore_missing_volumes, is_new_vm_or_has_retain_policy,
}
use hci_controller_manager.Restore.State.Laws.{rewired, get_new_volumes-map}
use hci_controller_manager.Restore.Volumes.{reconcile_volumes_from, init_volumes_status}
use hci_controller_manager.Restore.Plan.{
  get_volume_restores, find_restore, new_volume_restore, claim_names,
}
use hci_controller_manager.Restore.Volumes.Laws.{
  Aligned, get_volume_restores-Aligned, AllBound, reconcile_volumes_from_ready,
}
use hci_controller_manager.Restore.NewVm.{restored_annotations}
use hci_controller_manager.Restore.Reconcile.{report, update_status}
use hci_controller_manager.Restore.Reconcile.Laws.{init_volumes_status_leaves}
use hci_controller_manager.Tests.World.{World, start_world, cluster}
use hci_controller_manager.Tests.Samples.{
  a_backup, a_vm, running_status, volume_backup, restore_status, a_restore,
}

abbrev two_volumes : VirtualMachineBackupStatus
two_volumes = running_status (volume_backup (text "v") ∷ volume_backup (text "w") ∷ [])

abbrev ready_backup : VirtualMachineBackup
ready_backup = a_backup (some (record two_volumes { ready_to_use = some true }))

abbrev the_restore : VirtualMachineRestore
the_restore = a_restore (some restore_status)

abbrev two_restores : List VolumeRestore
two_restores =
    new_volume_restore the_restore (volume_backup (text "v")) (text "v")
    ∷ new_volume_restore the_restore (volume_backup (text "w")) (text "w")
    ∷ []

get_volume_restores-Aligned_example :
    Aligned (volume_backup (text "v") ∷ volume_backup (text "w") ∷ []) two_restores
unfolding get_volume_restores find_restore
get_volume_restores-Aligned_example =
    get_volume_restores-Aligned the_restore []
      (volume_backup (text "v") ∷ volume_backup (text "w") ∷ []) two_restores refl

reconcile_volumes_from_ready_example :
    (reconcile_volumes_from cluster the_restore [] 0 true two_restores start_world
      ≡ (ok true, start_world))
    ↔ (AllBound cluster the_restore start_world two_restores × (start_world ≡ start_world))
reconcile_volumes_from_ready_example =
    reconcile_volumes_from_ready cluster the_restore [] 0 two_restores start_world start_world
      (λ key u. refl)

abbrev with_backup : World
with_backup = record start_world { stored_backup = some ready_backup }

abbrev restored_vm : VirtualMachine
restored_vm = record a_vm {
  object_meta = record (a_vm.object_meta) {
    annotations = some (restored_annotations the_restore a_vm.object_meta.annotations);
  };
}

abbrev an_error : Err
an_error = record { reason = Reason.other; message = text "no backup" }

abbrev failed_restore : VirtualMachineRestore
failed_restore = a_restore (
    some (
      report (λ i. []) condition_false condition_false (text "Error") (text "no backup")
        (text "no backup") restore_status))

abbrev finished : World
finished = (update_status cluster the_restore a_vm true start_world).1

abbrev prepared : World
prepared = (init_volumes_status cluster the_restore ready_backup start_world).1

init_volumes_status_leaves_example :
    (restore' : VirtualMachineRestore) × (s' : VirtualMachineRestoreStatus)
    × (cluster.restores.update restore' start_world ≡ (ok tt, prepared))
    × (restore'.status ≡ some s')
    × (is_vm_restore_missing_volumes restore' s' ≡ is_empty (elements two_volumes.volume_backups))
unfolding init_volumes_status get_volume_restores find_restore is_new_vm_or_has_retain_policy
    claim_names
init_volumes_status_leaves_example =
    init_volumes_status_leaves cluster the_restore restore_status ready_backup
      (record two_volumes { ready_to_use = some true }) start_world prepared refl refl refl refl
      refl

abbrev old_disk : Volume
old_disk = record {
  name = text "v";
  persistent_volume_claim = some (text "old");
  cloud_init_no_cloud = none;
}

abbrev one_restore : List VolumeRestore
one_restore = new_volume_restore the_restore (volume_backup (text "v")) (text "v") ∷ []

get_new_volumes-map_example :
    get_new_volumes (old_disk ∷ []) one_restore ≡ map (rewired one_restore) (old_disk ∷ [])
get_new_volumes-map_example = get_new_volumes-map (old_disk ∷ []) one_restore (tt, tt)
