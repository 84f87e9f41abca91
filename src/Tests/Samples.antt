-- ===== src/Tests/Samples.antt =====
-- Small backups, restores and machines to run the controllers on.
use hci_controller_manager.Base.{
  nat_eq, list_eq, Str, text, true, false, Option, none, some, List, [], ◌∷◌,
}
use hci_controller_manager.Tests.World.{meta}
use hci_controller_manager.Api.{
  VirtualMachineBackup, VirtualMachineBackupStatus, VolumeBackup, VirtualMachineRestore,
  VirtualMachineRestoreStatus, VirtualMachine, snapshot, delete, VirtualMachineInstanceSpec,
  namespaced_name_eq,
}
use hci_controller_manager.Backup.Objects.{empty_meta}
use hci_controller_manager.Backup.Initial.{empty_status}
use hci_controller_manager.Restore.NewVm.{empty_claim}

-- A volume backup of the name, without a snapshot yet.
abbrev pub volume_backup : Str → VolumeBackup
volume_backup name = record {
  name = some name;
  volume_name = name;
  csi_driver_name = text "driver.longhorn.io";
  creation_time = none;
  persistent_volume_claim = record { object_meta = meta name; spec = empty_claim.spec };
  longhorn_backup_name = none;
  ready_to_use = some false;
  error = none;
}

abbrev pub ready_volume : VolumeBackup
ready_volume = record (volume_backup (text "v")) { ready_to_use = some true }

-- A snapshot backup of a machine with the given status.
abbrev pub a_backup : Option VirtualMachineBackupStatus → VirtualMachineBackup
a_backup status = record {
  object_meta = meta (text "b");
  spec = record {
    source = record { kind = text "VirtualMachine"; name = text "vm" };
    type = snapshot;
  };
  status = status;
}

abbrev instance_spec : VirtualMachineInstanceSpec
instance_spec = record {
  access_credentials =
      record { ssh_public_key = some (record { secret = some (text "key") }); user_password = none }
      ∷ [];
  volumes =
      record {
        name = text "disk";
        persistent_volume_claim = none;
        cloud_init_no_cloud =
            some (record {
              user_data_secret_ref = some (text "data");
              network_data_secret_ref = none;
            });
      }
      ∷ [];
  interfaces = [];
}

-- A machine without disks that are claims, and without secrets.
abbrev pub a_vm : VirtualMachine
a_vm = record {
  object_meta = meta (text "vm");
  spec = record {
    run_strategy = none;
    template = some (record {
      object_meta = empty_meta;
      spec = record { access_credentials = []; volumes = []; interfaces = [] };
    });
  };
  ready = true;
  created = true;
}

-- A status that a started backup of this machine with the given volumes has.
abbrev pub running_status : List VolumeBackup → VirtualMachineBackupStatus
running_status volume_backups = record empty_status {
  ready_to_use = some false;
  source_spec = some (record { object_meta = empty_meta; spec = a_vm.spec });
  volume_backups = some volume_backups;
}

abbrev pub restore_status : VirtualMachineRestoreStatus
restore_status = record {
  volume_restores = none;
  restore_time = none;
  deleted_volumes = none;
  complete = some false;
  conditions = [];
  target_uid = none;
}

abbrev pub a_restore : Option VirtualMachineRestoreStatus → VirtualMachineRestore
a_restore status = record {
  object_meta = meta (text "r");
  spec = record {
    target = record { kind = text "VirtualMachine"; name = text "vm" };
    virtual_machine_backup_name = text "b";
    virtual_machine_backup_namespace = text "ns";
    new_vm = false;
    deletion_policy = delete;
  };
  status = status;
}
