-- ===== src/Api/Meta.antt =====
-- apis/hci/v1beta1/common.go, and the parts of Kubernetes' object metadata that are used.
use hci_controller_manager.Base.{Str, ℕ, Bool, Option, List}
use hci_controller_manager.Base.Dict.{Dict}

-- An instant; only equality and the rendering of instants matter here.
abbrev pub Time : Type 0
Time = ℕ

pub record NamespacedName : Type 0 where
  pub namespace : Str
  pub name : Str

pub record OwnerReference : Type 0 where
  pub api_version : Str
  pub kind : Str
  pub name : Str
  pub uid : Str
  pub controller : Option Bool
  pub block_owner_deletion : Option Bool

-- `none` for nil annotations; a write to those panics.
pub record ObjectMeta : Type 0 where
  pub name : Str
  pub namespace : Str
  pub uid : Str
  pub annotations : Option (Dict Str)
  pub labels : Dict Str
  pub finalizers : List Str
  pub owner_references : List OwnerReference
  pub deletion_timestamp : Option Time

-- A reference within a namespace, by kind and name.
pub record TypedLocalObjectReference : Type 0 where
  pub kind : Str
  pub name : Str

pub data ConditionStatus : Type 0 where
  condition_true condition_false condition_unknown : ConditionStatus

pub record Condition : Type 0 where
  pub type : Str
  pub status : ConditionStatus
  pub last_update_time : Str
  pub last_transition_time : Str
  pub reason : Str
  pub message : Str
