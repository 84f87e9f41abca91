-- ===== src/Backup/State.antt =====
-- The state of a backup as controllers/hci/util.go reads it, and its list of conditions.
pub mod Laws
use hci_controller_manager.Base.{
  Str, text, Bool, true, false, not, ◌&&◌, ◌||◌, Option, none, some, List, [], ◌∷◌, ◌==◌, ◌!=◌,
  nat_eq, list_eq, if◌then◌else◌, elements,
}
use hci_controller_manager.Base.Dict.{lookup}
use hci_controller_manager.Api.{
  VirtualMachineBackup, VirtualMachineBackupStatus, BackupTarget, TargetSetting, StatusError,
  Condition, ConditionStatus, condition_status_eq, VolumeSnapshotError, ObjectMeta, NamespacedName,
}

-- `p != nil`
abbrev pub is_set {ℓ} : {A : Type ℓ} → Option A → Bool
is_set none = false
is_set (some a) = true

-- `p != nil && *p`
abbrev pub is_true : Option Bool → Bool
is_true none = false
is_true (some b) = b

-- `len(m) == 0`
abbrev pub is_empty {ℓ} : {A : Type ℓ} → List A → Bool
is_empty [] = true
is_empty (x ∷ xs) = false

-- `m[k]` of a map that may be nil, with the zero value for a missing key
abbrev pub or_empty : Option Str → Str
or_empty none = []
or_empty (some v) = v

abbrev pub annotation : ObjectMeta → Str → Str
annotation m k = or_empty (lookup k (elements m.annotations))

abbrev pub key_of : ObjectMeta → NamespacedName
key_of m = record { namespace = m.namespace; name = m.name }

-- The functions below are told the status, where the source passes the object.
abbrev pub is_ready_status : VirtualMachineBackupStatus → Bool
is_ready_status s = is_true s.ready_to_use

unfoldable pub is_backup_ready : VirtualMachineBackup → Bool
is_backup_ready b = elim b.status [ none ↦ false | some s ↦ is_ready_status s ]

unfoldable pub get_vm_backup_error : VirtualMachineBackup → Option StatusError
get_vm_backup_error b = elim b.status [ none ↦ none | some s ↦ s.error ]

unfoldable pub is_backup_progressing : VirtualMachineBackup → Bool
unfolding get_vm_backup_error
is_backup_progressing b =
    not (is_set (get_vm_backup_error b))
    && elim b.status [ none ↦ true | some s ↦ not (is_ready_status s) ]

unfoldable pub is_backup_missing_status : VirtualMachineBackup → Bool
is_backup_missing_status b = elim b.status [
  | none ↦ true
  | some s ↦ not (is_set s.source_spec) || not (is_set s.volume_backups)
]

unfoldable pub is_backup_target_same : BackupTarget → TargetSetting → Bool
is_backup_target_same vm_backup_target target =
    vm_backup_target.endpoint == target.endpoint
    && vm_backup_target.bucket_name == target.bucket_name
    && vm_backup_target.bucket_region == target.bucket_region

abbrev pub backup_target_annotation : Str
backup_target_annotation = text "backup.hci.wjyl.com/backup-target"

abbrev pub backup_bucket_name_annotation : Str
backup_bucket_name_annotation = text "backup.hci.wjyl.com/bucket-name"

abbrev pub backup_bucket_region_annotation : Str
backup_bucket_region_annotation = text "backup.hci.wjyl.com/bucket-region"

unfoldable pub is_backup_target_on_annotation : VirtualMachineBackup → Bool
is_backup_target_on_annotation b =
    is_set b.object_meta.annotations
    && (annotation b.object_meta backup_target_annotation != []
        || annotation b.object_meta backup_bucket_name_annotation != []
        || annotation b.object_meta backup_bucket_region_annotation != [])

abbrev pub backup_condition_ready : Str
backup_condition_ready = text "Ready"

abbrev pub backup_condition_progressing : Str
backup_condition_progressing = text "InProgress"

-- The last argument is the current time as the code renders it.
unfoldable pub new_ready_condition : ConditionStatus → Str → Str → Str → Condition
new_ready_condition status reason message now = record {
  type = backup_condition_ready;
  status = status;
  last_update_time = [];
  last_transition_time = now;
  reason = reason;
  message = message;
}

unfoldable pub new_progressing_condition : ConditionStatus → Str → Str → Str → Condition
new_progressing_condition status reason message now = record {
  type = backup_condition_progressing;
  status = status;
  last_update_time = [];
  last_transition_time = now;
  reason = reason;
  message = message;
}

unfoldable pub update_condition : List Condition → Condition → List Condition
update_condition [] c = c ∷ []
update_condition (x ∷ conditions) c =
    let rest = update_condition conditions c in
    if x.type == c.type
    then (if x.status != c.status || x.reason != c.reason || x.message != c.message then c else x)
      ∷ conditions
    else x ∷ rest

unfoldable pub update_backup_condition :
    VirtualMachineBackupStatus → Condition → VirtualMachineBackupStatus
update_backup_condition s c = record s { conditions = update_condition s.conditions c }

unfoldable pub translate_error : Option VolumeSnapshotError → Option StatusError
translate_error none = none
translate_error (some e) = some (record { message = e.message; time = e.time })
