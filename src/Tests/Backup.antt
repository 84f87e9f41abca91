-- ===== src/Tests/Backup.antt =====
-- Runs of a backup, and the theorems on backups at small inputs.
use hci_controller_manager.Base.{
  Str, text, ℕ, ◌≡◌, ◌↔◌, refl, true, false, none, some, [], ◌∷◌, ok, panic, list_eq, nat_eq,
}
use hci_controller_manager.Base.Dict
use hci_controller_manager.Base.Dict.{Dict}
use hci_controller_manager.Api.{
  VirtualMachineBackup, VirtualMachineBackupStatus, VolumeBackup, TargetSetting,
  VirtualMachineBackupMetadata, nfs, VolumeSnapshot, VolumeSnapshotClass, CsiDriverInfo,
  condition_true, condition_false, StatusError, Time, backup_status_eq,
}
use hci_controller_manager.Env.{Env}
use hci_controller_manager.Pkg.Finalizers.{construct_finalizer_key}
use hci_controller_manager.Backup.State.{
  new_ready_condition, new_progressing_condition, update_condition, update_backup_condition,
  translate_error,
}
use hci_controller_manager.Backup.State.Laws.{Says}
use hci_controller_manager.Backup.Progress.{
  refresh, scan_volumes, update_conditions, mark_progress, mark_complete, mark_error, reports,
}
use hci_controller_manager.Backup.Progress.Laws.{
  refresh_settles, refresh_completes, scan_volumes_ready, refresh-scan_volumes_stopped, AllReady,
}
use hci_controller_manager.Backup.Source.{get_csi_driver_map, csi_driver_loop}
use hci_controller_manager.Backup.Machine.{class_for}
use hci_controller_manager.Backup.Source.Laws.{AllNamed, get_csi_driver_map_Configured}
use hci_controller_manager.Backup.Snapshots.{
  snapshot_loop, reconcile_volume_snapshots, new_snapshot, ensure_volume_snapshot,
  get_volume_snapshot,
}
use hci_controller_manager.Backup.Snapshots.Laws.{snapshot_loop_same}
use hci_controller_manager.Backup.Target.{sanitize_volume_backups, metadata_of, default_target}
use hci_controller_manager.Backup.Reconcile.{continue_backup, on_backup_change, start_backup}
use hci_controller_manager.Backup.Initial.{error_status, backup_controller_name}
use hci_controller_manager.Backup.Reconcile.Laws.{
  continue_backup_ok, on_backup_change_after_error, continue_backup_requeue_panics,
}
use hci_controller_manager.Backup.Sync.{backup_of_metadata, with_default_namespace}
use hci_controller_manager.Backup.Sync.Laws.{metadata_of-backup_of_metadata}
use hci_controller_manager.Tests.World.{
  World, start_world, cluster, empty_metadata, meta, always_there,
}
use hci_controller_manager.Tests.Samples.{
  a_backup, a_vm, running_status, volume_backup, ready_volume,
}

abbrev clock : ℕ → Time
clock i = i

abbrev render : Time → Str
render t = t ∷ []

abbrev running_backup : VirtualMachineBackup
running_backup = a_backup (some (running_status []))

-- The cluster after one step of that backup.
abbrev continued : World
continued = (continue_backup cluster running_backup start_world).1

continue_backup_ok_example :
    (names : Dict Str) × (classes : Dict VolumeSnapshotClass) × (v u : World) × (get_csi_driver_map
        cluster running_backup start_world
      ≡ (ok (names, classes), v))
    × (reconcile_volume_snapshots cluster running_backup classes v ≡ (ok false, u))
    × (update_conditions cluster running_backup u ≡ (ok tt, continued))
unfolding continue_backup get_csi_driver_map csi_driver_loop reconcile_volume_snapshots
    snapshot_loop update_conditions scan_volumes refresh mark_progress mark_complete mark_error
    update_backup_condition update_condition new_ready_condition new_progressing_condition text
    list_eq nat_eq backup_status_eq
continue_backup_ok_example = continue_backup_ok cluster running_backup start_world continued refl

on_backup_change_after_error_example :
    on_backup_change cluster
      (a_backup (some (error_status render clock (text "no disk"))))
      start_world
    ≡ start_backup cluster
        (a_backup (some (error_status render clock (text "no disk"))))
        start_world
on_backup_change_after_error_example =
    on_backup_change_after_error cluster running_backup clock (text "no disk") start_world refl

-- A snapshot of the volume that is being deleted.
abbrev deleted_snapshot : VolumeSnapshot
deleted_snapshot = record {
  object_meta = record (meta (text "v")) { deletion_timestamp = some 1 };
  source_claim_name = none;
  source_content_name = none;
  volume_snapshot_class_name = none;
  status = none;
}

abbrev deleting_cluster : Env World
deleting_cluster = record cluster { snapshots = always_there deleted_snapshot }

continue_backup_requeue_panics_example :
    continue_backup deleting_cluster
      (a_backup (some (running_status (volume_backup (text "v") ∷ []))))
      start_world
    ≡ (panic, start_world)
unfolding get_csi_driver_map csi_driver_loop reconcile_volume_snapshots snapshot_loop
    ensure_volume_snapshot get_volume_snapshot text list_eq nat_eq Dict.lookup Dict.insert
continue_backup_requeue_panics_example =
    continue_backup_requeue_panics deleting_cluster
      (a_backup (some (running_status (volume_backup (text "v") ∷ []))))
      ((text "driver.longhorn.io", text "longhorn-snapshot") ∷ [])
      ((text "driver.longhorn.io", record { object_meta = meta (text "class") }) ∷ []) start_world
      start_world start_world refl refl

abbrev dying_backup : VirtualMachineBackup
dying_backup = record running_backup {
  object_meta = record (meta (text "b")) {
    finalizers = construct_finalizer_key backup_controller_name ∷ [];
    deletion_timestamp = some 1;
  };
}

refresh_settles_example :
    refresh render clock false [] (refresh render clock false [] (running_status []))
    ≡ refresh render clock false [] (running_status [])
refresh_settles_example = refresh_settles render clock clock false [] (running_status []) refl

refresh_completes_example :
    let s' : VirtualMachineBackupStatus = refresh render clock true [] (running_status []) in
    (s'.ready_to_use ≡ some true)
    × (s'.error ≡ none)
    × Says s'.conditions
        (new_progressing_condition condition_false [] (text "Operation complete") [])
    × Says s'.conditions (new_ready_condition condition_true [] (text "Operation complete") [])
refresh_completes_example = refresh_completes render clock (running_status []) [] refl

scan_volumes_ready_example :
    (scan_volumes true (ready_volume ∷ []) ≡ ok (true, [])) ↔ AllReady (ready_volume ∷ [])
scan_volumes_ready_example = scan_volumes_ready (ready_volume ∷ [])

abbrev an_error : StatusError
an_error = record { time = none; message = some (text "bad") }

-- A volume that is ready, one that is ready and has an error, and one that is not ready.
refresh-scan_volumes_stopped_example :
    (message : Str) × (scan_volumes true (
        ready_volume
        ∷ record ready_volume { error = some an_error }
        ∷ volume_backup (text "w")
        ∷ [])
      ≡ ok (true, message))
    × ((refresh render clock true message (running_status [])).ready_to_use ≡ some true)
    × (reports (refresh render clock true message (running_status [])).error message ≡ true)
    × Says
        (refresh render clock true message (running_status [])).conditions
        (new_progressing_condition condition_false (text "Error") message [])
    × Says
        (refresh render clock true message (running_status [])).conditions
        (new_ready_condition condition_false [] (text "Not Ready") [])
refresh-scan_volumes_stopped_example =
    refresh-scan_volumes_stopped (ready_volume ∷ []) (record ready_volume { error = some an_error })
      (volume_backup (text "w") ∷ []) render clock (running_status []) [] (refl, refl, tt) refl refl
      refl refl

abbrev driver_config : Dict CsiDriverInfo
driver_config =
    (
      text "driver.longhorn.io",
      record {
        volume_snapshot_class_name = text "longhorn-snapshot";
        backup_volume_snapshot_class_name = text "longhorn";
      },
    )
    ∷ []

abbrev driver_names : Dict Str
driver_names = (text "driver.longhorn.io", text "longhorn-snapshot") ∷ []

get_csi_driver_map_Configured_example :
    AllNamed driver_names (volume_backup (text "v") ∷ [])
    × ((driver class : Str)
        → Dict.lookup driver driver_names ≡ some class
        → (info : CsiDriverInfo) × (Dict.lookup driver driver_config ≡ some info)
          × (class ≡ class_for (a_backup none).spec.type info))
unfolding get_csi_driver_map csi_driver_loop text list_eq nat_eq Dict.lookup Dict.insert
get_csi_driver_map_Configured_example =
    get_csi_driver_map_Configured cluster
      (a_backup (some (running_status (volume_backup (text "v") ∷ []))))
      (running_status (volume_backup (text "v") ∷ [])) driver_config start_world start_world
      driver_names ((text "driver.longhorn.io", record { object_meta = meta (text "class") }) ∷ [])
      refl refl refl

abbrev ready_cluster : Env World
ready_cluster = record cluster {
  snapshots = always_there (record deleted_snapshot {
    object_meta = meta (text "v");
    status = some (record {
      bound_volume_snapshot_content_name = none;
      creation_time = none;
      ready_to_use = some true;
      error = none;
    });
  });
}

snapshot_loop_same_example :
    sanitize_volume_backups (record (volume_backup (text "v")) { ready_to_use = some true } ∷ [])
    ≡ sanitize_volume_backups (volume_backup (text "v") ∷ [])
unfolding snapshot_loop ensure_volume_snapshot get_volume_snapshot translate_error
snapshot_loop_same_example =
    snapshot_loop_same ready_cluster (a_backup none) [] (volume_backup (text "v") ∷ [])
      (record (volume_backup (text "v")) { ready_to_use = some true } ∷ []) start_world start_world
      refl

abbrev backed_up_volume : VolumeBackup
backed_up_volume = record (volume_backup (text "v")) { longhorn_backup_name = some (text "lhb") }

abbrev a_class : VolumeSnapshotClass
a_class = record { object_meta = meta (text "class") }

abbrev made_snapshot : VolumeSnapshot
made_snapshot = new_snapshot (a_backup none) (text "v") a_class none (some []) []

abbrev a_target : TargetSetting
a_target = record default_target { type = nfs; endpoint = text "host:/x" }

abbrev made_elsewhere : VirtualMachineBackup
made_elsewhere =
    backup_of_metadata (with_default_namespace (metadata_of running_backup (running_status [])))
      a_target

metadata_of-backup_of_metadata_example :
    (s : VirtualMachineBackupStatus) × (made_elsewhere.status ≡ some s)
    × (metadata_of made_elsewhere s ≡ metadata_of running_backup (running_status []))
metadata_of-backup_of_metadata_example =
    metadata_of-backup_of_metadata running_backup (running_status []) a_target

abbrev some_metadata : VirtualMachineBackupMetadata
some_metadata = record empty_metadata {
  vm_source_spec = some (record { object_meta = meta (text "vm"); spec = a_vm.spec });
  volume_backups = some [];
}

abbrev nfs_target : TargetSetting
nfs_target = record default_target { type = nfs }
