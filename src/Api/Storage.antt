-- ===== src/Api/Storage.antt =====
-- The parts of volume claims, volume snapshots, secrets and Longhorn's objects that are used.
use hci_controller_manager.Base.{Str, Bool, Option, List}
use hci_controller_manager.Base.Dict.{Dict}
use hci_controller_manager.Api.Meta.{ObjectMeta, Time, NamespacedName, TypedLocalObjectReference}

pub record PersistentVolumeClaimSpec : Type 0 where
  pub access_modes : List Str
  pub resources : Str
  pub storage_class_name : Option Str
  pub volume_mode : Option Str
  pub volume_name : Str
  pub data_source : Option TypedLocalObjectReference

pub data ClaimPhase : Type 0 where
  claim_pending claim_bound claim_other : ClaimPhase

pub record PersistentVolumeClaim : Type 0 where
  pub object_meta : ObjectMeta
  pub spec : PersistentVolumeClaimSpec
  pub phase : ClaimPhase

-- `csi` is the driver of `Spec.PersistentVolumeSource.CSI`, where that may be nil.
pub record PersistentVolume : Type 0 where
  pub object_meta : ObjectMeta
  pub csi : Option Str

pub record StorageClass : Type 0 where
  pub object_meta : ObjectMeta
  pub provisioner : Str
  pub parameters : Dict Str
  pub reclaim_policy : Option Str
  pub allow_volume_expansion : Option Bool
  pub volume_binding_mode : Option Str

-- `contents` is `Data`; `string_data` is `none` where `StringData` is nil, as it is in what is read.
pub record Secret : Type 0 where
  pub object_meta : ObjectMeta
  pub contents : Dict Str
  pub string_data : Option (Dict Str)

-- Longhorn's `Setting`
pub record LonghornSetting : Type 0 where
  pub object_meta : ObjectMeta
  pub value : Str

pub record VolumeSnapshotError : Type 0 where
  pub time : Option Time
  pub message : Option Str

pub record VolumeSnapshotStatus : Type 0 where
  pub bound_volume_snapshot_content_name : Option Str
  pub creation_time : Option Time
  pub ready_to_use : Option Bool
  pub error : Option VolumeSnapshotError

pub record VolumeSnapshot : Type 0 where
  pub object_meta : ObjectMeta
  pub source_claim_name : Option Str
  pub source_content_name : Option Str
  pub volume_snapshot_class_name : Option Str
  pub status : Option VolumeSnapshotStatus

pub data DeletionPolicyOfContent : Type 0 where
  content_delete content_retain : DeletionPolicyOfContent

pub record VolumeSnapshotContent : Type 0 where
  pub object_meta : ObjectMeta
  pub driver : Str
  pub deletion_policy : DeletionPolicyOfContent
  pub snapshot_handle : Option Str
  pub volume_snapshot_class_name : Option Str
  pub volume_snapshot_ref : NamespacedName

pub record VolumeSnapshotClass : Type 0 where
  pub object_meta : ObjectMeta

pub record LonghornBackup : Type 0 where
  pub object_meta : ObjectMeta
  pub snapshot_name : Str

pub data VolumeState : Type 0 where
  detached detaching other_state : VolumeState

pub record LonghornVolume : Type 0 where
  pub object_meta : ObjectMeta
  pub node_id : Str
  pub state : VolumeState
  pub owner_id : Str

pub record Namespace : Type 0 where
  pub object_meta : ObjectMeta
