-- ===== src/Api/Equality.antt =====
-- `reflect.DeepEqual` on the objects that are compared before an update.
use native.Mathlib.Decide.{ℕ_discrete}
use hci_controller_manager.Base.{Eq}
use hci_controller_manager.Api.Meta.{
  ObjectMeta, NamespacedName, OwnerReference, ConditionStatus, Condition,
}
use hci_controller_manager.Api.Kubevirt.{VirtualMachineInstanceTemplateSpec}
use hci_controller_manager.Api.Storage.{
  PersistentVolumeClaimSpec, Secret, LonghornVolume, LonghornSetting,
}
use hci_controller_manager.Api.Backup.{
  VirtualMachineSourceSpec, BackupType, VolumeBackup, PersistentVolumeClaimSourceSpec,
  VirtualMachineBackupStatus,
}
use hci_controller_manager.Api.Values.{TargetSetting, TargetType}
use hci_controller_manager.Api.Metadata.{VirtualMachineBackupMetadata}
use hci_controller_manager.Api.Image.{SourceType, VirtualMachineImage}
use hci_controller_manager.Api.Restore.{VolumeRestore, VirtualMachineRestore}

OwnerReference-discrete : Discrete OwnerReference
OwnerReference-discrete = hlevel ℕ_discrete

ObjectMeta-discrete : Discrete ObjectMeta
unfolding OwnerReference-discrete
ObjectMeta-discrete = hlevel (ℕ_discrete, OwnerReference-discrete)

ConditionStatus-discrete : Discrete ConditionStatus
ConditionStatus-discrete = hlevel

Condition-discrete : Discrete Condition
unfolding ConditionStatus-discrete
Condition-discrete = hlevel (ℕ_discrete, ConditionStatus-discrete)

PersistentVolumeClaimSpec-discrete : Discrete PersistentVolumeClaimSpec
PersistentVolumeClaimSpec-discrete = hlevel ℕ_discrete

PersistentVolumeClaimSourceSpec-discrete : Discrete PersistentVolumeClaimSourceSpec
unfolding ObjectMeta-discrete PersistentVolumeClaimSpec-discrete
PersistentVolumeClaimSourceSpec-discrete =
    hlevel (ObjectMeta-discrete, PersistentVolumeClaimSpec-discrete)

VolumeBackup-discrete : Discrete VolumeBackup
unfolding PersistentVolumeClaimSourceSpec-discrete
VolumeBackup-discrete = hlevel (ℕ_discrete, PersistentVolumeClaimSourceSpec-discrete)

VirtualMachineInstanceTemplateSpec-discrete : Discrete VirtualMachineInstanceTemplateSpec
unfolding ObjectMeta-discrete
VirtualMachineInstanceTemplateSpec-discrete = hlevel (ℕ_discrete, ObjectMeta-discrete)

VirtualMachineSourceSpec-discrete : Discrete VirtualMachineSourceSpec
unfolding ObjectMeta-discrete VirtualMachineInstanceTemplateSpec-discrete
VirtualMachineSourceSpec-discrete =
    hlevel (ObjectMeta-discrete, VirtualMachineInstanceTemplateSpec-discrete)

VirtualMachineBackupStatus-discrete : Discrete VirtualMachineBackupStatus
unfolding Condition-discrete VolumeBackup-discrete VirtualMachineSourceSpec-discrete
VirtualMachineBackupStatus-discrete =
    hlevel
      (ℕ_discrete, VirtualMachineSourceSpec-discrete, VolumeBackup-discrete, Condition-discrete)

VolumeRestore-discrete : Discrete VolumeRestore
unfolding PersistentVolumeClaimSourceSpec-discrete
VolumeRestore-discrete = hlevel (ℕ_discrete, PersistentVolumeClaimSourceSpec-discrete)

VirtualMachineRestore-discrete : Discrete VirtualMachineRestore
unfolding ObjectMeta-discrete Condition-discrete VolumeRestore-discrete
VirtualMachineRestore-discrete =
    hlevel (ℕ_discrete, ObjectMeta-discrete, VolumeRestore-discrete, Condition-discrete)

Secret-discrete : Discrete Secret
unfolding ObjectMeta-discrete
Secret-discrete = hlevel (ℕ_discrete, ObjectMeta-discrete)

LonghornVolume-discrete : Discrete LonghornVolume
unfolding ObjectMeta-discrete
LonghornVolume-discrete = hlevel (ℕ_discrete, ObjectMeta-discrete)

BackupType-discrete : Discrete BackupType
BackupType-discrete = hlevel

TargetType-discrete : Discrete TargetType
TargetType-discrete = hlevel ℕ_discrete

TargetSetting-discrete : Discrete TargetSetting
unfolding TargetType-discrete
TargetSetting-discrete = hlevel (ℕ_discrete, TargetType-discrete)

VirtualMachineBackupMetadata-discrete : Discrete VirtualMachineBackupMetadata
unfolding VirtualMachineSourceSpec-discrete VolumeBackup-discrete BackupType-discrete
VirtualMachineBackupMetadata-discrete =
    hlevel
      (ℕ_discrete, VirtualMachineSourceSpec-discrete, VolumeBackup-discrete, BackupType-discrete)

instance unfoldable pub target_setting_eq : Eq TargetSetting
unfolding TargetSetting-discrete
target_setting_eq = record { dec = TargetSetting-discrete }

instance unfoldable pub metadata_eq : Eq VirtualMachineBackupMetadata
unfolding VirtualMachineBackupMetadata-discrete
metadata_eq = record { dec = VirtualMachineBackupMetadata-discrete }

instance unfoldable pub condition_status_eq : Eq ConditionStatus
unfolding ConditionStatus-discrete
condition_status_eq = record { dec = ConditionStatus-discrete }

instance unfoldable pub backup_status_eq : Eq VirtualMachineBackupStatus
unfolding VirtualMachineBackupStatus-discrete
backup_status_eq = record { dec = VirtualMachineBackupStatus-discrete }

instance unfoldable pub restore_eq : Eq VirtualMachineRestore
unfolding VirtualMachineRestore-discrete
restore_eq = record { dec = VirtualMachineRestore-discrete }

instance unfoldable pub secret_eq : Eq Secret
unfolding Secret-discrete
secret_eq = record { dec = Secret-discrete }

instance unfoldable pub longhorn_volume_eq : Eq LonghornVolume
unfolding LonghornVolume-discrete
longhorn_volume_eq = record { dec = LonghornVolume-discrete }

instance unfoldable pub backup_type_eq : Eq BackupType
unfolding BackupType-discrete
backup_type_eq = record { dec = BackupType-discrete }

LonghornSetting-discrete : Discrete LonghornSetting
unfolding ObjectMeta-discrete
LonghornSetting-discrete = hlevel (ℕ_discrete, ObjectMeta-discrete)

instance unfoldable pub longhorn_setting_eq : Eq LonghornSetting
unfolding LonghornSetting-discrete
longhorn_setting_eq = record { dec = LonghornSetting-discrete }

SourceType-discrete : Discrete SourceType
SourceType-discrete = hlevel

VirtualMachineImage-discrete : Discrete VirtualMachineImage
unfolding ObjectMeta-discrete Condition-discrete SourceType-discrete
VirtualMachineImage-discrete =
    hlevel (ℕ_discrete, ObjectMeta-discrete, Condition-discrete, SourceType-discrete)

instance unfoldable pub image_eq : Eq VirtualMachineImage
unfolding VirtualMachineImage-discrete
image_eq = record { dec = VirtualMachineImage-discrete }

NamespacedName-discrete : Discrete NamespacedName
NamespacedName-discrete = hlevel ℕ_discrete

instance unfoldable pub namespaced_name_eq : Eq NamespacedName
unfolding NamespacedName-discrete
namespaced_name_eq = record { dec = NamespacedName-discrete }
