-- ===== src/Tests/Life.antt =====
-- The life of a backup in the small cluster.
use hci_controller_manager.Backup.Stored.{read_back}
use hci_controller_manager.Backup.Life.Handlers.{reconcile_handlers-BackupStep}
use hci_controller_manager.Backup.Longhorn.{
  set_longhorn_backup_name, reconcile_longhorn_backup, reconcile_snapshot,
}
use hci_controller_manager.Base.{
  ◌≡◌, refl, text, nat_eq, list_eq, true, false, none, some, [], ◌∷◌, Option, arith,
}
use hci_controller_manager.Base.Keeps.{Post, Quiet-pure, Keeps-pure, Keeps-fail}
use hci_controller_manager.Api.{
  VirtualMachineBackup, VirtualMachineBackupStatus, backup_status_eq, BackupTarget, VolumeBackup,
}
use hci_controller_manager.Env.Calm.{Calm, CalmEnv}
use hci_controller_manager.Backup.State.{is_backup_ready, is_backup_missing_status}
use hci_controller_manager.Backup.Progress.{scan_volumes, refresh}
use hci_controller_manager.Backup.Reconcile.{reconcile}
use hci_controller_manager.Backup.Initial.{initial_status}
use hci_controller_manager.Backup.Life.{
  start, conclude, classify, Life, here, next, with_status, learn,
}
use hci_controller_manager.Backup.Life.Writes.{Observed}
use hci_controller_manager.Backup.Life.Refinement.{reconcile-BackupStep}
use hci_controller_manager.Backup.Life.Laws.{BackupStep-IsSound, Life-ready_sound, Life-stays_ready}
use hci_controller_manager.Backup.Life.Kept.{IsSound, volumes_of, finds_ready, KeepsBackup}
use hci_controller_manager.Env.{Env}
use hci_controller_manager.Base.{Str}
use hci_controller_manager.Base.Dict
use hci_controller_manager.Base.Dict.{Dict}
use hci_controller_manager.Api.{VolumeSnapshotClass}
use hci_controller_manager.Backup.State.{translate_error}
use hci_controller_manager.Backup.Source.{get_csi_driver_map, csi_driver_loop}
use hci_controller_manager.Backup.Snapshots.{
  snapshot_loop, ensure_volume_snapshot, get_volume_snapshot,
}
use hci_controller_manager.Backup.Reconcile.{on_backup_change}
use hci_controller_manager.Backup.Life.Ends.{on_backup_change_ends}
use hci_controller_manager.Tests.World.{meta}
use hci_controller_manager.Tests.World.{
  World, start_world, cluster, nothing_there, always_there, found_or_missing,
}
use hci_controller_manager.Tests.Samples.{a_backup, running_status, ready_volume, a_vm}

-- The backup that is stored, if any, is sound.
abbrev IsStoredSound : Option VirtualMachineBackup → Type 0
IsStoredSound none = Unit
IsStoredSound (some b) = IsSound b

abbrev StoredSound : World → Type 0
StoredSound w = IsStoredSound w.stored_backup

module _ {I : World → Type 0} {A : Type 0} where
  pub nothing_there-Calm : Calm I (nothing_there {A = A})
  nothing_there-Calm = record {
    get_keeps = λ k. Keeps-fail _;
    create_keeps = λ a. Quiet-pure tt;
    update_keeps = λ a. Quiet-pure tt;
    delete_keeps = λ a. Quiet-pure tt;
  }

  always_there-Calm : (a : A) → Calm I (always_there a)
  always_there-Calm a = record {
    get_keeps = λ k. Quiet-pure a;
    create_keeps = λ b. Quiet-pure tt;
    update_keeps = λ b. Quiet-pure tt;
    delete_keeps = λ b. Quiet-pure tt;
  }

pub cluster-Calm : {I : World → Type 0} → CalmEnv I cluster
cluster-Calm = record {
  virtual_machines = nothing_there-Calm;
  claims = always_there-Calm _;
  volumes = nothing_there-Calm;
  storage_classes = nothing_there-Calm;
  secrets = nothing_there-Calm;
  snapshots = nothing_there-Calm;
  snapshot_contents = nothing_there-Calm;
  snapshot_classes = always_there-Calm _;
  longhorn_backups = always_there-Calm _;
  longhorn_volumes = nothing_there-Calm;
  settings = nothing_there-Calm;
  record_event_keeps = λ k r m. Quiet-pure tt;
  setenv_keeps = λ n v. Quiet-pure tt;
  instance_running_keeps = λ k. Quiet-pure false;
  start_keeps = λ k. Quiet-pure tt;
  driver_keeps = λ e. Keeps-pure _ (record {
    file_exists_keeps = λ p. Quiet-pure true;
    read_keeps = λ p. Quiet-pure [];
    write_keeps = λ p c. Quiet-pure tt;
    remove_keeps = λ p. Quiet-pure tt;
  });
}

read-StoredSound :
    (o : Option VirtualMachineBackup) (w : World)
    → StoredSound w
    → IsStoredSound o
    → StoredSound (found_or_missing o w).1 × Post IsSound (found_or_missing o w).0
read-StoredSound none w i s = (i, tt)
read-StoredSound (some b) w i s = (i, s)

cluster-Observed : Observed cluster StoredSound IsSound
unfolding is_backup_ready
cluster-Observed = record {
  calm = cluster-Calm;
  get_known = λ k. record { at = λ w i. read-StoredSound w.stored_backup w i i };
  fill_known = λ b now sound e r. ground arith;
  step_keeps = λ b c sound step. record { at = λ w i. (BackupStep-IsSound step sound, tt) };
}

abbrev unfinished_backup : VirtualMachineBackup
unfinished_backup = a_backup (some (running_status (ready_volume ∷ [])))

abbrev unfinished_world : World
unfinished_world = record start_world { stored_backup = some unfinished_backup }

unfinished-IsSound : IsSound unfinished_backup
unfolding is_backup_ready
unfinished-IsSound = λ r. ground arith

reconcile-BackupStep_example :
    StoredSound
      (reconcile cluster (record { namespace = text "ns"; name = text "b" }) unfinished_world).1
reconcile-BackupStep_example =
    reconcile-BackupStep cluster cluster-Observed
      (record { namespace = text "ns"; name = text "b" }) unfinished_world unfinished-IsSound

abbrev started_backup : VirtualMachineBackup
started_backup = with_status (a_backup none) (record (initial_status a_vm (ready_volume ∷ []) []) {
  csi_driver_volume_snapshot_class_names = [];
  backup_target = none;
})

abbrev finished_backup : VirtualMachineBackup
finished_backup = read_back (
    with_status started_backup (
      refresh cluster.rfc3339 (λ i. i) true []
        (record (initial_status a_vm (ready_volume ∷ []) []) {
          csi_driver_volume_snapshot_class_names = [];
          backup_target = none;
        })))

finished-Life : Life cluster.rfc3339 (a_backup none) finished_backup
unfolding is_backup_ready is_backup_missing_status scan_volumes initial_status
finished-Life =
    next
      (next here
        (start a_vm (ready_volume ∷ []) [] [] none (record { kept = refl; unready = refl }) refl))
      (conclude _ (λ i. i) true []
        (record {
          open_backup = record { kept = refl; unready = refl };
          known = refl;
          at_status = refl;
        })
        refl)

finished-ready : is_backup_ready finished_backup ≡ true
unfolding is_backup_ready refresh
finished-ready = refl

Life-ready_sound_example :
    (is_backup_missing_status finished_backup ≡ false)
    × (finds_ready (scan_volumes true (volumes_of finished_backup)) ≡ true)
Life-ready_sound_example = Life-ready_sound refl finished-Life finished-ready

abbrev a_target : BackupTarget
a_target = record { endpoint = []; bucket_name = text "b"; bucket_region = [] }

abbrev ready_status : VirtualMachineBackupStatus
ready_status = record (running_status (ready_volume ∷ [])) {
  ready_to_use = some true;
  backup_target = some a_target;
}

abbrev ready_backup : VirtualMachineBackup
ready_backup = a_backup (some ready_status)

abbrev classes : Dict Str
classes = (text "driver.longhorn.io", text "longhorn-snapshot") ∷ []

abbrev classified_status : VirtualMachineBackupStatus
classified_status = record ready_status { csi_driver_volume_snapshot_class_names = classes }

abbrev told_volume : VolumeBackup
told_volume = record ready_volume { longhorn_backup_name = some (text "backup-1") }

abbrev told_backup : VirtualMachineBackup
told_backup =
    with_status ready_backup (record classified_status { volume_backups = some (told_volume ∷ []) })

Life-stays_ready_example : KeepsBackup ready_backup told_backup
unfolding is_backup_ready set_longhorn_backup_name list_eq text nat_eq
Life-stays_ready_example =
    Life-stays_ready {rfc3339 = cluster.rfc3339} {b = ready_backup} {c = told_backup} refl (
      next (next here (classify ready_status classes refl refl refl)) (
        learn classified_status (text "v") (text "backup-1") (ready_volume ∷ []) (told_volume ∷ [])
          refl refl refl refl))

reconcile_handlers-BackupStep_example :
    StoredSound
      (reconcile_longhorn_backup cluster
        (record { namespace = text "ns"; name = text "l" })
        unfinished_world).1
    × StoredSound
        (reconcile_snapshot cluster
          (record { namespace = text "ns"; name = text "l" })
          unfinished_world).1
reconcile_handlers-BackupStep_example =
    reconcile_handlers-BackupStep cluster cluster-Observed
      (record { namespace = text "ns"; name = text "l" }) unfinished_world unfinished-IsSound

-- The cluster with a snapshot that is ready under every name.
abbrev snapshotted : Env World
snapshotted = record cluster {
  snapshots = always_there (record {
    object_meta = meta (text "v");
    source_claim_name = none;
    source_content_name = none;
    volume_snapshot_class_name = none;
    status = some (record {
      bound_volume_snapshot_content_name = none;
      creation_time = none;
      ready_to_use = some true;
      error = none;
    });
  });
}

abbrev found_classes : Dict Str × Dict VolumeSnapshotClass
found_classes = (
  (text "driver.longhorn.io", text "longhorn-snapshot") ∷ [],
  (text "driver.longhorn.io", record { object_meta = meta (text "class") }) ∷ [],
)

on_backup_change_ends_example :
    (t : VirtualMachineBackupStatus) × (on_backup_change snapshotted unfinished_backup
        unfinished_world
      ≡ snapshotted.backups.update (with_status unfinished_backup t) unfinished_world)
    × (is_backup_ready (with_status unfinished_backup t) ≡ true)
    × (t.error ≡ none)
unfolding is_backup_ready is_backup_missing_status get_csi_driver_map csi_driver_loop Dict.lookup
    Dict.insert snapshot_loop ensure_volume_snapshot get_volume_snapshot translate_error list_eq
    text nat_eq
on_backup_change_ends_example =
    on_backup_change_ends snapshotted unfinished_backup (running_status []) (ready_volume ∷ [])
      found_classes.0 found_classes.1 unfinished_world unfinished_world unfinished_world
      (record {
        open_backup = record { kept = refl; unready = refl };
        known = refl;
        at_status = refl;
      })
      (refl, refl, tt) refl refl
