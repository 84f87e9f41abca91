-- ===== src/Api/Image.antt =====
-- apis/hci/v1beta1/virtualmachineimage_types.go, and the used fields of Longhorn's backing images.
-- Progress and sizes are numbers that are not negative.
use hci_controller_manager.Base.{Str, ℕ, Option, List}
use hci_controller_manager.Base.Dict.{Dict}
use hci_controller_manager.Api.Meta.{ObjectMeta, Condition}

-- The three types that the CRD allows.
pub data SourceType : Type 0 where
  download upload export_from_volume : SourceType

pub record VirtualMachineImageSpec : Type 0 where
  pub source_type : SourceType
  pub pvc_name : Str
  pub pvc_namespace : Str
  pub url : Str
  pub checksum : Str
  pub storage_class_parameters : Dict Str

pub record VirtualMachineImageStatus : Type 0 where
  pub applied_url : Str
  pub progress : ℕ
  pub size : ℕ
  pub storage_class_name : Str
  pub conditions : List Condition

pub record VirtualMachineImage : Type 0 where
  pub object_meta : ObjectMeta
  pub spec : VirtualMachineImageSpec
  pub status : VirtualMachineImageStatus

pub data BackingImageState : Type 0 where
  state_failed state_ready state_ready_for_transfer : BackingImageState
  other_state : Str → BackingImageState

pub record DiskFileStatus : Type 0 where
  pub state : BackingImageState
  pub progress : ℕ
  pub message : Str

pub record BackingImage : Type 0 where
  pub object_meta : ObjectMeta
  pub source_type : SourceType
  pub source_parameters : Dict Str
  pub checksum : Str
  pub disk_file_status_map : Dict DiskFileStatus
  pub size : ℕ

-- The used parts of `http.Response`; a length that is unknown, and negative in Go, is `none`.
pub record Response : Type 0 where
  pub status_code : ℕ
  pub content_length : Option ℕ
