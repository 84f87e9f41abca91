-- ===== src/Restore/NewVm.antt =====
-- The machine that a restore creates or rewrites
-- (controllers/hci/virtualmachinerestore_controller.go).
use hci_controller_manager.Base.{
  Str, text, false, Option, none, some, List, [], ◌∷◌, nat_eq, list_eq, option_eq, elements,
}
use hci_controller_manager.Base.Dict
use hci_controller_manager.Base.Dict.{Dict}
use hci_controller_manager.Api.{
  VirtualMachineRestore, VirtualMachineRestoreStatus, VirtualMachine, VirtualMachineSpec,
  VirtualMachineInstanceTemplateSpec, Interface, secret_eq, rerun_on_failure, PersistentVolumeClaim,
  claim_other,
}
use hci_controller_manager.Backup.Objects.{empty_meta}
use hci_controller_manager.Restore.State.{
  get_restore_id, get_new_volumes, sanitize_virtual_machine_for_restore,
}
use hci_controller_manager.Restore.Objects.{restore_name_annotation}

abbrev pub last_restore_annotation : Str
last_restore_annotation = text "restore.hci.wjyl.com/last-restore-uid"

abbrev pub annotation_volume_claim_templates : Str
annotation_volume_claim_templates = text "hci.wjyl.com/volumeClaimTemplates"

unfoldable pub without_mac_addresses : List Interface → List Interface
without_mac_addresses [] = []
without_mac_addresses (i ∷ interfaces) =
    record i { mac_address = [] } ∷ without_mac_addresses interfaces

-- The machine that `createNewVM` hands to the API, but for its volumes' claims. The template and its
-- annotations are those of the backup.
unfoldable pub new_vm :
    (Str → Str)
    → VirtualMachineRestore
    → VirtualMachineSpec
    → VirtualMachineInstanceTemplateSpec
    → Dict Str
    → VirtualMachine
new_vm md5 restore source template new_annotations =
    let vm_name = restore.spec.target.name in
    let spec = sanitize_virtual_machine_for_restore md5 vm_name template.spec in
    record {
      object_meta = record empty_meta {
        name = vm_name;
        namespace = restore.object_meta.namespace;
        annotations = some (
            (last_restore_annotation, get_restore_id restore)
            ∷ (restore_name_annotation, restore.object_meta.name)
            ∷ []);
      };
      spec = record {
        run_strategy = elim source.run_strategy [
          | none ↦ some rerun_on_failure
          | some strategy ↦ some strategy
        ];
        template = some (record {
          object_meta = record empty_meta {
            annotations = some new_annotations;
            labels =
                (text "hci.wjyl.com/creator", text "hci")
                ∷ (text "hci.wjyl.com/vmName", vm_name)
                ∷ [];
          };
          spec = record spec { interfaces = without_mac_addresses spec.interfaces };
        });
      };
      ready = false;
      created = false;
    }

-- The machine with the volumes of its template rewritten to the restored ones; `none` is a nil
-- template.
unfoldable pub with_new_volumes :
    VirtualMachineSpec → VirtualMachineRestoreStatus → Option VirtualMachineSpec
with_new_volumes spec status = elim spec.template [
  | none ↦ none
  | some template ↦ some (record spec {
    template = some (record template {
      spec = record (template.spec) {
        volumes = get_new_volumes template.spec.volumes (elements status.volume_restores);
      };
    });
  })
]

-- The annotations of a machine that a restore has been applied to.
unfoldable pub restored_annotations : VirtualMachineRestore → Option (Dict Str) → Dict Str
restored_annotations vm_restore annotations = Dict.erase annotation_volume_claim_templates (
    Dict.insert restore_name_annotation vm_restore.object_meta.name
      (Dict.insert last_restore_annotation (get_restore_id vm_restore) (elements annotations)))

-- `&PersistentVolumeClaim{}`
abbrev pub empty_claim : PersistentVolumeClaim
empty_claim = record {
  object_meta = empty_meta;
  spec = record {
    access_modes = [];
    resources = [];
    storage_class_name = none;
    volume_mode = none;
    volume_name = [];
    data_source = none;
  };
  phase = claim_other;
}
