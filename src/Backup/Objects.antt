-- ===== src/Backup/Objects.antt =====
-- The objects that a backup creates and reads (controllers/hci/virtualmachinebackup_controller.go),
-- and the provisioner of a claim (pkg/util/volume.go).
use hci_controller_manager.Base.{
  Str, text, true, Option, none, some, [], ◌!=◌, nat_eq, list_eq, if◌then◌else◌, elements,
}
use hci_controller_manager.Base.Dict
use hci_controller_manager.Base.Dict.{Dict}
use hci_controller_manager.Api.{
  VirtualMachineBackup, VolumeBackup, VolumeSnapshotStatus, VolumeSnapshotContent,
  PersistentVolumeClaim, ObjectMeta, OwnerReference, content_delete, backup_status_eq,
}
use hci_controller_manager.Backup.State.{annotation, translate_error}

-- pkg/util/volume.go
abbrev pub ann_storage_provisioner : Str
ann_storage_provisioner = text "volume.kubernetes.io/storage-provisioner"

abbrev pub ann_beta_storage_provisioner : Str
ann_beta_storage_provisioner = text "volume.beta.kubernetes.io/storage-provisioner"

pub get_provisioned_pvc_provisioner : PersistentVolumeClaim → Str
get_provisioned_pvc_provisioner pvc =
    elim (Dict.lookup ann_beta_storage_provisioner (elements pvc.object_meta.annotations)) [
      | none ↦ annotation pvc.object_meta ann_storage_provisioner
      | some provisioner ↦ provisioner
    ]

abbrev pub annotation_storage_class_name : Str
annotation_storage_class_name = text "hci.wjyl.com/storageClassName"

abbrev pub annotation_image_id : Str
annotation_image_id = text "hci.wjyl.com/imageId"

abbrev pub annotation_storage_provisioner : Str
annotation_storage_provisioner = text "hci.wjyl.com/storageProvisioner"

-- The zero value of an object's metadata.
abbrev pub empty_meta : ObjectMeta
empty_meta = record {
  name = [];
  namespace = [];
  uid = [];
  annotations = none;
  labels = [];
  finalizers = [];
  owner_references = [];
  deletion_timestamp = none;
}

-- `&VolumeSnapshotContent{}`
abbrev pub empty_content : VolumeSnapshotContent
empty_content = record {
  object_meta = empty_meta;
  driver = [];
  deletion_policy = content_delete;
  snapshot_handle = none;
  volume_snapshot_class_name = none;
  volume_snapshot_ref = record { namespace = []; name = [] };
}

-- The owner of what a backup creates.
abbrev pub backup_owner : VirtualMachineBackup → OwnerReference
backup_owner vm_backup = record {
  api_version = text "hci.wjyl.com/v1beta1";
  kind = text "VirtualMachineBackup";
  name = vm_backup.object_meta.name;
  uid = vm_backup.object_meta.uid;
  controller = some true;
  block_owner_deletion = none;
}

-- `if v != "" { annotations[k] = v }`
abbrev pub insert_if_set : Str → Str → Dict Str → Dict Str
insert_if_set k v annotations = if v != [] then Dict.insert k v annotations else annotations

-- The fields of a volume backup that follow its snapshot's status.
abbrev pub copy_status : Option VolumeSnapshotStatus → VolumeBackup → VolumeBackup
copy_status none vb = vb
copy_status (some status) vb = record vb {
  ready_to_use = status.ready_to_use;
  creation_time = status.creation_time;
  error = translate_error status.error;
}
