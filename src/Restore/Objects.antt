-- ===== src/Restore/Objects.antt =====
-- The claim that a restore creates
-- (controllers/hci/virtualmachinerestore_controller.go).
use hci_controller_manager.Base.{
  Str, text, Bool, true, false, Option, some, List, [], ◌∷◌, nat_eq, list_eq, if◌then◌else◌,
  elements,
}
use hci_controller_manager.Base.Dict
use hci_controller_manager.Base.Dict.{Dict}
use hci_controller_manager.Api.{
  VolumeBackup, VirtualMachineRestore, VolumeRestore, PersistentVolumeClaim, claim_other,
  OwnerReference,
}
use hci_controller_manager.Pkg.Strings.{has_prefix}
use hci_controller_manager.Backup.Objects.{empty_meta}

abbrev pub restore_name_annotation : Str
restore_name_annotation = text "restore.hci.wjyl.com/name"

abbrev pub restore_annotations_to_delete : List Str
restore_annotations_to_delete = text "pv.kubernetes.io" ∷ text "hci.wjyl.com/owned-by" ∷ []

-- Does one of the prefixes to delete begin the key?
unfoldable pub need_skip : List Str → Str → Bool
need_skip [] key = false
need_skip (prefix ∷ prefixes) key = if has_prefix key prefix then true else need_skip prefixes key

unfoldable pub kept_annotations : Dict Str → Dict Str → Dict Str
kept_annotations annotations [] = annotations
kept_annotations annotations ((key, value) ∷ entries) =
    kept_annotations
      (if need_skip restore_annotations_to_delete key
        then annotations
        else Dict.insert key value annotations)
      entries

-- The owner of what a restore creates.
abbrev pub restore_owner : VirtualMachineRestore → Option Bool → Option Bool → OwnerReference
restore_owner vm_restore controller block = record {
  api_version = text "hci.wjyl.com/v1beta1";
  kind = text "VirtualMachineRestore";
  name = vm_restore.object_meta.name;
  uid = vm_restore.object_meta.uid;
  controller = controller;
  block_owner_deletion = block;
}

-- The claim that `createRestoredPVC` hands to the API.
unfoldable pub restored_claim :
    VirtualMachineRestore → VolumeBackup → VolumeRestore → Str → PersistentVolumeClaim
restored_claim vm_restore volume_backup volume_restore data_source_name =
    let claim = volume_backup.persistent_volume_claim in
    record {
      object_meta = record empty_meta {
        name = volume_restore.persistent_volume_claim.object_meta.name;
        namespace = vm_restore.object_meta.namespace;
        labels = claim.object_meta.labels;
        annotations = some (
            Dict.insert restore_name_annotation vm_restore.object_meta.name
              (kept_annotations [] (elements claim.object_meta.annotations)));
        owner_references = restore_owner vm_restore (some true) (some true) ∷ [];
      };
      spec = record {
        access_modes = claim.spec.access_modes;
        resources = claim.spec.resources;
        storage_class_name = claim.spec.storage_class_name;
        volume_mode = claim.spec.volume_mode;
        volume_name = [];
        data_source = some (record { kind = text "VolumeSnapshot"; name = data_source_name });
      };
      phase = claim_other;
    }
