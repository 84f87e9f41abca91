-- ===== src/Tests/World.antt =====
-- A small cluster to run the controllers in: one stored backup, one stored restore, one class of
-- volumes that is always bound, and nothing else.
use hci_controller_manager.Base.{
  ◌==◌, nat_eq, list_eq, if◌then◌else◌, Str, text, ℕ, true, false, Option, none, some, [], ◌∷◌,
  ◌++◌, M, ok, Err, Reason, pure, fail,
}
use hci_controller_manager.Api.{
  ObjectMeta, VirtualMachineBackup, VirtualMachineRestore, snapshot, PersistentVolumeClaim,
  claim_bound, other_strategy, VirtualMachineBackupMetadata, LonghornSetting, NamespacedName,
  namespaced_name_eq,
}
use hci_controller_manager.Backup.Setting.Laws.{longhorn_setting_key}
use hci_controller_manager.Env.{Env, Resource, Driver}
use hci_controller_manager.Backup.Objects.{empty_meta}
use hci_controller_manager.Backup.Target.{default_target}
use hci_controller_manager.Restore.NewVm.{empty_claim}

pub record World : Type 0 where
  pub stored_backup : Option VirtualMachineBackup
  pub stored_restore : Option VirtualMachineRestore
  pub longhorn : NamespacedName → Option LonghornSetting
  pub writes : ℕ

abbrev pub start_world : World
start_world = record {
  stored_backup = none;
  stored_restore = none;
  longhorn = λ k. none;
  writes = 0;
}

abbrev pub missing : Err
missing = record { reason = Reason.not_found; message = text "not found" }

abbrev pub found_or_missing : {A : Type 0} → Option A → M World A
found_or_missing none = fail missing
found_or_missing (some a) = pure a

-- Nothing of this kind is there, and every write is taken.
abbrev pub nothing_there : {A : Type 0} → Resource World A
nothing_there = record {
  get = λ key. fail missing;
  create = λ a. pure tt;
  update = λ a. pure tt;
  delete = λ a. pure tt;
}

-- One object of this kind is there under every key.
abbrev pub always_there : {A : Type 0} → A → Resource World A
always_there a = record {
  get = λ key. pure a;
  create = λ a. pure tt;
  update = λ a. pure tt;
  delete = λ a. pure tt;
}

abbrev pub stored_backups : Resource World VirtualMachineBackup
stored_backups = record {
  get = λ key w. found_or_missing w.stored_backup w;
  create = λ b w. (ok tt, record w { stored_backup = some b });
  update = λ b w. (ok tt, record w { stored_backup = some b });
  delete = λ b w. (ok tt, record w { stored_backup = none });
}

abbrev stored_restores : Resource World VirtualMachineRestore
stored_restores = record {
  get = λ key w. found_or_missing w.stored_restore w;
  create = λ r w. (ok tt, record w { stored_restore = some r });
  update = λ r w. (ok tt, record w { stored_restore = some r });
  delete = λ r w. (ok tt, record w { stored_restore = none });
}

-- Longhorn's settings: what stands under a key counts if it is its own.
abbrev pub at_key : NamespacedName → Option LonghornSetting → Option LonghornSetting
at_key k none = none
at_key k (some s) = if longhorn_setting_key s == k then some s else none

abbrev pub view_longhorn : World → NamespacedName → Option LonghornSetting
view_longhorn w k = at_key k (w.longhorn k)

abbrev pub put_longhorn : LonghornSetting → World → World
put_longhorn s w = record w {
  longhorn = λ k. if k == longhorn_setting_key s then some s else w.longhorn k;
}

abbrev pub stored_longhorn_settings : Resource World LonghornSetting
stored_longhorn_settings = record {
  get = λ key w. found_or_missing (view_longhorn w key) w;
  create = λ s w. (ok tt, put_longhorn s w);
  update = λ s w. (ok tt, put_longhorn s w);
  delete = λ s w. (ok tt, w);
}

abbrev pub meta : Str → ObjectMeta
meta name = record empty_meta { name = name; namespace = text "ns" }

abbrev pub bound_claim : PersistentVolumeClaim
bound_claim = record empty_claim { object_meta = meta (text "pvc"); phase = claim_bound }

abbrev pub empty_metadata : VirtualMachineBackupMetadata
empty_metadata = record {
  name = [];
  namespace = [];
  backup_spec = record { source = record { kind = []; name = [] }; type = snapshot };
  vm_source_spec = none;
  volume_backups = none;
  secret_backups = [];
}

abbrev no_driver : Driver World
no_driver = record {
  file_exists = λ f. pure true;
  read = λ f. pure [];
  write = λ f s. pure tt;
  remove = λ f. pure tt;
  list = λ f. pure [];
}

abbrev pub cluster : Env World
cluster = record {
  backups = stored_backups;
  restores = stored_restores;
  virtual_machines = nothing_there;
  claims = always_there bound_claim;
  volumes = nothing_there;
  storage_classes = nothing_there;
  secrets = nothing_there;
  snapshots = nothing_there;
  snapshot_contents = nothing_there;
  snapshot_classes = always_there (record { object_meta = meta (text "class") });
  longhorn_backups = always_there (record { object_meta = meta (text "lhb"); snapshot_name = [] });
  longhorn_volumes = nothing_there;
  settings = nothing_there;
  longhorn_settings = stored_longhorn_settings;
  images = nothing_there;
  backing_images = nothing_there;
  namespaces = nothing_there;
  clock = λ w i. i;
  rfc3339 = λ t. t ∷ [];
  record_event = λ kind reason message. pure tt;
  csi_driver_config = λ w. [];
  decode_csi_driver_config = λ s. ok (
      (
        text "driver.longhorn.io",
        record {
          volume_snapshot_class_name = text "longhorn-snapshot";
          backup_volume_snapshot_class_name = text "longhorn";
        },
      )
      ∷ []);
  volume_snapshot_class = λ w. text "longhorn";
  decode_target = λ s. ok default_target;
  marshal_target = λ t. ok [];
  additional_ca = λ w. [];
  http_proxy = λ w. text "{}";
  decode_http_proxy_config = λ s. ok (record { http_proxy = []; https_proxy = []; no_proxy = [] });
  marshal_metadata = λ m. ok [];
  decode_metadata = λ s. ok empty_metadata;
  decode_ssh_key_names = λ s. ok [];
  marshal_ssh_key_names = λ m. ok [];
  setenv = λ k v. pure tt;
  get_backup_store_driver = λ s. pure no_driver;
  md5_hex = λ s. s;
  sha256_hex = λ s. s;
  run_strategy = λ vm. ok other_strategy;
  instance_running = λ key. pure false;
  start = λ key. pure tt;
  kubevirt_api_version = text "kubevirt.io/v1";
  virtual_machine_kind = text "VirtualMachine";
  longhorn_driver_name = text "driver.longhorn.io";
  head = λ url. pure (record { status_code = 200; content_length = some 7 });
  add_finalizer = λ finalizers name. finalizers ++ (name ∷ []);
  remove_finalizer = λ finalizers name. [];
  download_url_parameter = text "url";
  volume_name_parameter = text "volume-name";
  export_type_parameter = text "export-type";
  export_type_raw = text "raw";
  decode_claims = λ s. ok [];
  claims_by_machine = λ key. pure [];
  add_to_index = λ claim. pure tt;
  change_indexed = λ claim. pure tt;
  key_pairs = nothing_there;
  fingerprint = λ key. ok (text "aa:bb");
}
