-- ===== src/Tests/Begin.antt =====
-- The beginning of a backup of a machine with one claim, and of a machine without claims.
use hci_controller_manager.Base.{
  text, ◌≡◌, refl, true, none, some, [], ◌∷◌, ok, list_eq, nat_eq, List, if◌then◌else◌,
}
use hci_controller_manager.Base.Dict
use hci_controller_manager.Api.{VirtualMachineBackup, VolumeBackup, VirtualMachine}
use hci_controller_manager.Env.{Env}
use hci_controller_manager.Backup.State.{
  is_backup_progressing, is_backup_ready, is_backup_missing_status, is_empty,
}
use hci_controller_manager.Backup.Stored.{read_back}
use hci_controller_manager.Backup.Source.{
  get_csi_driver_map, csi_driver_loop, get_volume_backups, volume_backups_of, get_volume_backup,
  get_backup_pvc, get_secret_backups, secret_backups_of,
}
use hci_controller_manager.Backup.Machine.{
  volume_to_pvc_mappings, put_claims, credential_secret_refs, volume_secret_refs,
}
use hci_controller_manager.Backup.Reconcile.{
  continue_backup, init_backup, recorded_target, on_backup_change, start_backup,
}
use hci_controller_manager.Backup.Initial.{initial_status}
use hci_controller_manager.Backup.Reconcile.Laws.{init_backup_continues}
use hci_controller_manager.Tests.World.{
  World, start_world, cluster, meta, always_there, bound_claim,
}
use hci_controller_manager.Tests.Samples.{a_backup, a_vm}

-- The cluster with a volume of Longhorn's driver for every claim.
abbrev with_volumes : Env World
with_volumes = record cluster {
  claims = always_there (record bound_claim {
    spec = record (bound_claim.spec) {
      volume_name = text "pv";
      storage_class_name = some (text "longhorn");
    };
  });
  volumes =
      always_there
        (record { object_meta = meta (text "pv"); csi = some (text "driver.longhorn.io") });
}

abbrev vm_with_claim : VirtualMachine
vm_with_claim = record a_vm {
  spec = record (a_vm.spec) {
    template = some (record {
      object_meta = meta (text "vm");
      spec = record {
        access_credentials = [];
        volumes =
            record {
              name = text "disk";
              persistent_volume_claim = some (text "pvc");
              cloud_init_no_cloud = none;
            }
            ∷ [];
        interfaces = [];
      };
    });
  };
}

abbrev begun : World
begun = (init_backup with_volumes (a_backup none) vm_with_claim start_world).1

init_backup_continues_example :
    (volume_backups : List VolumeBackup) × (written : VirtualMachineBackup) × (v1 v : World)
    × (get_volume_backups with_volumes (a_backup none) vm_with_claim start_world
        ≡ (ok volume_backups, v1))
    × (with_volumes.backups.update written v ≡ (ok tt, begun))
    × (is_backup_progressing (read_back written) ≡ true)
    × ((u : World)
        → on_backup_change with_volumes (read_back written) u ≡ (
            if is_empty volume_backups
            then start_backup with_volumes (read_back written) u
            else continue_backup with_volumes (read_back written) u))
unfolding init_backup get_volume_backups volume_backups_of get_volume_backup get_backup_pvc
    volume_to_pvc_mappings put_claims get_secret_backups secret_backups_of credential_secret_refs
    volume_secret_refs get_csi_driver_map csi_driver_loop recorded_target initial_status list_eq
    nat_eq text Dict.insert Dict.lookup
init_backup_continues_example =
    init_backup_continues with_volumes (a_backup none) vm_with_claim start_world begun refl refl

-- A machine without claims starts over.
without_claims_starts_over :
    (u : World)
    → let stored = read_back (a_backup (some (initial_status a_vm [] []))) in
      on_backup_change cluster stored u ≡ start_backup cluster stored u
unfolding on_backup_change is_backup_ready is_backup_missing_status initial_status
without_claims_starts_over u = refl
