-- ===== src/Env.antt =====
-- What the controllers call and do not implement: the client of the Kubernetes API, the clock, the
-- recorder of events, JSON, the backup store and the hash functions. `W` is everything outside a
-- controller; a call may change it, so caches and other clients are covered too.
pub mod Store
pub mod Calm
use hci_controller_manager.Base.{Str, ℕ, Bool, List, M, Outcome}
use hci_controller_manager.Base.Dict.{Dict}
use hci_controller_manager.Api.{
  Time, NamespacedName, VirtualMachine, PersistentVolumeClaim, PersistentVolume, StorageClass,
  Secret, VolumeSnapshot, VolumeSnapshotContent, VolumeSnapshotClass, LonghornBackup,
  LonghornVolume, VirtualMachineBackup, VirtualMachineRestore, VirtualMachineBackupMetadata,
  Setting, TargetSetting, CsiDriverInfo, RunStrategy, Namespace, LonghornSetting, HttpProxyConfig,
  VirtualMachineImage, BackingImage, Response, KeyPair,
}

-- `client.Client` at one kind of object.
pub record Resource (W A : Type 0) : Type 0 where
  pub get : NamespacedName → M W A
  pub create : A → M W Unit
  pub update : A → M W Unit
  pub delete : A → M W Unit

-- `backupstore.BackupStoreDriver`
pub record Driver (W : Type 0) : Type 0 where
  pub file_exists : Str → M W Bool
  pub read : Str → M W Str
  pub write : Str → Str → M W Unit
  pub remove : Str → M W Unit
  pub list : Str → M W (List Str)

pub record Env (W : Type 0) : Type 0 where
  pub backups : Resource W VirtualMachineBackup
  pub restores : Resource W VirtualMachineRestore
  pub virtual_machines : Resource W VirtualMachine
  pub claims : Resource W PersistentVolumeClaim
  pub volumes : Resource W PersistentVolume
  pub storage_classes : Resource W StorageClass
  pub secrets : Resource W Secret
  pub snapshots : Resource W VolumeSnapshot
  pub snapshot_contents : Resource W VolumeSnapshotContent
  pub snapshot_classes : Resource W VolumeSnapshotClass
  pub longhorn_backups : Resource W LonghornBackup
  pub longhorn_volumes : Resource W LonghornVolume
  pub settings : Resource W Setting
  pub longhorn_settings : Resource W LonghornSetting
  pub images : Resource W VirtualMachineImage
  pub backing_images : Resource W BackingImage
  pub namespaces : Resource W Namespace
  -- The times that the readings of the clock in one call yield, numbered by their place in it.
  pub clock : W → ℕ → Time
  -- `Time.Format(time.RFC3339)`
  pub rfc3339 : Time → Str
  -- `Recorder.Eventf`: kind, reason and message of an event
  pub record_event : Str → Str → Str → M W Unit
  -- `settings.CSIDriverConfig.Get()` and its JSON
  pub csi_driver_config : W → Str
  pub decode_csi_driver_config : Str → Outcome (Dict CsiDriverInfo)
  -- `settings.VolumeSnapshotClass.Get()`
  pub volume_snapshot_class : W → Str
  -- the JSON of the setting `backup-target`
  pub decode_target : Str → Outcome TargetSetting
  pub marshal_target : TargetSetting → Outcome Str
  -- `settings.AdditionalCA.Get()`, `settings.HTTPProxy.Get()` and the JSON of the latter
  pub additional_ca : W → Str
  pub http_proxy : W → Str
  pub decode_http_proxy_config : Str → Outcome HttpProxyConfig
  pub marshal_metadata : VirtualMachineBackupMetadata → Outcome Str
  pub decode_metadata : Str → Outcome VirtualMachineBackupMetadata
  pub decode_ssh_key_names : Str → Outcome (Dict (List Str))
  pub marshal_ssh_key_names : Dict (List Str) → Outcome Str
  pub setenv : Str → Str → M W Unit
  pub get_backup_store_driver : Str → M W (Driver W)
  -- `hex.EncodeToString` of `md5.Sum` and of `sha256.Sum256`
  pub md5_hex : Str → Str
  pub sha256_hex : Str → Str
  -- `VirtualMachine.RunStrategy` of KubeVirt
  pub run_strategy : VirtualMachine → Outcome RunStrategy
  -- is the virtual machine's instance found, and neither final nor of unknown or unset phase
  pub instance_running : NamespacedName → M W Bool
  -- the REST call of the subresource `start`
  pub start : NamespacedName → M W Unit
  -- KubeVirt's `SchemeGroupVersion.String()` and `VirtualMachineGroupVersionKind.Kind`, and
  -- Longhorn's `LonghornDriverName`
  pub kubevirt_api_version : Str
  pub virtual_machine_kind : Str
  pub longhorn_driver_name : Str
  -- `http.Client.Head`
  pub head : Str → M W Response
  -- controller-runtime's `AddFinalizer` and `RemoveFinalizer`, on the list of finalizers
  pub add_finalizer : List Str → Str → List Str
  pub remove_finalizer : List Str → Str → List Str
  -- Longhorn's names of the parameters of a backing image, and its raw type of export
  pub download_url_parameter : Str
  pub volume_name_parameter : Str
  pub export_type_parameter : Str
  pub export_type_raw : Str
  -- the JSON of the annotation with templates of claims
  pub decode_claims : Str → Outcome (List PersistentVolumeClaim)
  -- the indexer of claims: `GetByIndex` at the machine's key, `Add`, and a change of an object that
  -- the indexer shares
  pub claims_by_machine : Str → M W (List PersistentVolumeClaim)
  pub add_to_index : PersistentVolumeClaim → M W Unit
  pub change_indexed : PersistentVolumeClaim → M W Unit
  pub key_pairs : Resource W KeyPair
  -- `ssh.ParseAuthorizedKey` and `ssh.FingerprintLegacyMD5`
  pub fingerprint : Str → Outcome Str
