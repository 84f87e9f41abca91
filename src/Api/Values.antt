-- ===== src/Api/Values.antt =====
-- apis/hci/v1beta1/setting_types.go, and the values of two settings (pkg/settings/settings.go).
use hci_controller_manager.Base.{Str, Bool, List}
use hci_controller_manager.Api.Meta.{ObjectMeta, Condition}

pub record Setting : Type 0 where
  pub object_meta : ObjectMeta
  pub value : Str
  pub conditions : List Condition

-- `unset` is the empty text.
pub data TargetType : Type 0 where
  s3 nfs unset : TargetType
  other_type : Str → TargetType

-- `settings.BackupTarget`, the value of the setting `backup-target`.
pub record TargetSetting : Type 0 where
  pub type : TargetType
  pub endpoint : Str
  pub access_key_id : Str
  pub secret_access_key : Str
  pub bucket_name : Str
  pub bucket_region : Str
  pub cert : Str
  pub virtual_hosted_style : Bool

-- `util.HTTPProxyConfig` (pkg/util/proxy.go), the value of the setting `http-proxy`.
pub record HttpProxyConfig : Type 0 where
  pub http_proxy : Str
  pub https_proxy : Str
  pub no_proxy : Str

-- apis/hci/v1beta1/keypair_types.go, the specification and the status in one
pub record KeyPair : Type 0 where
  pub object_meta : ObjectMeta
  pub public_key : Str
  pub finger_print : Str
  pub conditions : List Condition

pub record CsiDriverInfo : Type 0 where
  pub volume_snapshot_class_name : Str
  pub backup_volume_snapshot_class_name : Str
