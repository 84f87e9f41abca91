-- ===== src/Restore/State.antt =====
-- The state of a restore, its names, and the parts of a machine that it rewrites
-- (controllers/hci/util.go).
pub mod Laws
use hci_controller_manager.Base.{
  Str, text, Bool, true, false, not, ◌&&◌, ◌||◌, Option, none, some, List, [], ◌∷◌, ◌++◌, ◌==◌,
  ◌!=◌, nat_eq, list_eq, if◌then◌else◌, elements, Outcome, ok, err, panic,
}
use hci_controller_manager.Base.Dict
use hci_controller_manager.Base.Dict.{Dict}
use hci_controller_manager.Api.{
  VirtualMachineRestore, VirtualMachineRestoreStatus, VolumeRestore, DeletionPolicy, retain, Volume,
  AccessCredential, CredentialSource, CloudInitNoCloudSource, VirtualMachineInstanceSpec,
  VirtualMachine, OwnerReference, Condition, VirtualMachineInstanceTemplateSpec,
}
use hci_controller_manager.Pkg.Names.{get_secret_ref_name}
use hci_controller_manager.Backup.State.{is_set, is_true, is_empty, update_condition}

unfoldable pub is_vm_restore_progressing : VirtualMachineRestore → Bool
is_vm_restore_progressing vm_restore = elim vm_restore.status [
  | none ↦ true
  | some s ↦ not (is_true s.complete)
]

unfoldable pub is_new_vm_or_has_retain_policy : VirtualMachineRestore → Bool
is_new_vm_or_has_retain_policy vm_restore =
    vm_restore.spec.new_vm || elim vm_restore.spec.deletion_policy [ retain ↦ true | _ ↦ false ]

-- The status is the restore's own, which the source dereferences.
unfoldable pub is_vm_restore_missing_volumes :
    VirtualMachineRestore → VirtualMachineRestoreStatus → Bool
is_vm_restore_missing_volumes vm_restore s =
    is_empty (elements s.volume_restores)
    || (not (is_new_vm_or_has_retain_policy vm_restore) && is_empty (elements s.deleted_volumes))

unfoldable pub update_restore_condition :
    VirtualMachineRestoreStatus → Condition → VirtualMachineRestoreStatus
update_restore_condition s c = record s { conditions = update_condition s.conditions c }

unfoldable pub get_restore_id : VirtualMachineRestore → Str
get_restore_id vm_restore = vm_restore.object_meta.name ++ b'-' ∷ vm_restore.object_meta.uid

unfoldable pub get_restore_pvc_name : VirtualMachineRestore → Str → Str
get_restore_pvc_name vm_restore name =
    text "restore-"
    ++ vm_restore.spec.virtual_machine_backup_name
    ++ b'-' ∷ (vm_restore.object_meta.uid ++ b'-' ∷ name)

-- The claim of a volume after the loop over the restores: the last restore of that name wins.
unfoldable pub new_claim : Str → Str → List VolumeRestore → Str
new_claim volume_name claim [] = claim
new_claim volume_name claim (vr ∷ volume_restores) =
    new_claim volume_name
      (if vr.volume_name != volume_name then claim else vr.persistent_volume_claim.object_meta.name)
      volume_restores

-- Of a machine's volumes and a restore's volumes.
unfoldable pub get_new_volumes : List Volume → List VolumeRestore → List Volume
get_new_volumes [] volume_restores = []
get_new_volumes (vol ∷ volumes) volume_restores =
    record vol {
      persistent_volume_claim = elim vol.persistent_volume_claim [
        | none ↦ none
        | some claim ↦ some (new_claim vol.name claim volume_restores)
      ];
    }
    ∷ get_new_volumes volumes volume_restores

-- KubeVirt's API version and kind of a machine come first.
unfoldable pub config_vm_owner : Str → Str → VirtualMachine → List OwnerReference
config_vm_owner api_version kind vm =
    record {
      api_version = api_version;
      kind = kind;
      name = vm.object_meta.name;
      uid = vm.object_meta.uid;
      controller = some true;
      block_owner_deletion = some true;
    }
    ∷ []

abbrev pub dynamic_ssh_key_names_annotation : Str
dynamic_ssh_key_names_annotation = text "hci.wjyl.com/dynamic-ssh-key-names"

module _ (md5 : Str → Str) (target_name : Str) where
  abbrev renamed_secret : Option Str → Option Str
  renamed_secret none = none
  renamed_secret (some secret_name) = some (get_secret_ref_name md5 target_name secret_name)

  abbrev renamed_source : Option CredentialSource → Option CredentialSource
  renamed_source none = none
  renamed_source (some source) = some (record { secret = renamed_secret source.secret })

  abbrev renamed_credential : AccessCredential → AccessCredential
  renamed_credential credential = record {
    ssh_public_key = renamed_source credential.ssh_public_key;
    user_password = renamed_source credential.user_password;
  }

  abbrev renamed_cloud_init : Option CloudInitNoCloudSource → Option CloudInitNoCloudSource
  renamed_cloud_init none = none
  renamed_cloud_init (some c) = some (record {
    user_data_secret_ref = renamed_secret c.user_data_secret_ref;
    network_data_secret_ref = renamed_secret c.network_data_secret_ref;
  })

  unfoldable pub sanitize_credentials : List AccessCredential → List AccessCredential
  sanitize_credentials [] = []
  sanitize_credentials (credential ∷ credentials) =
      renamed_credential credential ∷ sanitize_credentials credentials

  unfoldable pub sanitize_volumes : List Volume → List Volume
  sanitize_volumes [] = []
  sanitize_volumes (volume ∷ volumes) =
      record volume { cloud_init_no_cloud = renamed_cloud_init volume.cloud_init_no_cloud }
      ∷ sanitize_volumes volumes

  unfoldable pub sanitize_virtual_machine_for_restore :
      VirtualMachineInstanceSpec → VirtualMachineInstanceSpec
  sanitize_virtual_machine_for_restore spec = record spec {
    access_credentials = sanitize_credentials spec.access_credentials;
    volumes = sanitize_volumes spec.volumes;
  }

  -- The new map of key names, filled over the old one.
  unfoldable pub rename_secrets : Dict (List Str) → Dict (List Str) → Dict (List Str)
  rename_secrets renamed [] = renamed
  rename_secrets renamed ((secret_name, ssh_key_names) ∷ entries) =
      rename_secrets
        (Dict.insert (get_secret_ref_name md5 target_name secret_name) ssh_key_names renamed)
        entries

  module _ (decode : Str → Outcome (Dict (List Str)))
      (marshal : Dict (List Str) → Outcome Str) where
    -- The annotations with the key names rewritten, by the JSON of the two functions.
    abbrev rewrite_key_names : Dict Str → Str → Outcome (Dict Str)
    rewrite_key_names annotations value = elim (decode value) [
      | err e ↦ err e
      | panic ↦ panic
      | ok dynamic_ssh_key_names ↦ elim (marshal (rename_secrets [] dynamic_ssh_key_names)) [
        | err e ↦ err e
        | panic ↦ panic
        | ok new_value ↦ ok (Dict.insert dynamic_ssh_key_names_annotation new_value annotations)
      ]
    ]

    unfoldable pub sanitize_virtual_machine_annotations_for_restore : Dict Str → Outcome (Dict Str)
    sanitize_virtual_machine_annotations_for_restore annotations =
        elim (Dict.lookup dynamic_ssh_key_names_annotation annotations) [
          | none ↦ ok annotations
          | some value ↦ if value == [] then ok annotations else rewrite_key_names annotations value
        ]
