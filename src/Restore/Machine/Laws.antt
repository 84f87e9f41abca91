-- ===== src/Restore/Machine/Laws.antt =====
-- On the machine of a restore: its backup, its secrets, and its annotations.
use hci_controller_manager.Base.{
  Str, text, ◌≡◌, ◌≢◌, refl, ap, true, Option, none, some, List, [], ◌∷◌, ◌++◌, nat_eq, list_eq,
  option_eq, elements, length, map, bind-ok, deref-ok, pure-ok, deref, ok, arith, Bool-cases, inl,
  inr,
}
use hci_controller_manager.Base.Dict
use hci_controller_manager.Base.Dict.{Dict}
use hci_controller_manager.Api.{
  VirtualMachineBackup, VirtualMachineBackupStatus, VirtualMachineRestore, VirtualMachine,
  AccessCredential, Volume, VirtualMachineInstanceSpec,
}
use hci_controller_manager.Env.{Env}
use hci_controller_manager.Pkg.Names.{get_secret_ref_name}
use hci_controller_manager.Backup.State.{is_set, is_backup_ready}
use hci_controller_manager.Backup.Machine.{credential_secret_refs, volume_secret_refs}
use hci_controller_manager.Restore.State.{
  get_restore_id, sanitize_credentials, sanitize_volumes, sanitize_virtual_machine_for_restore,
}
use hci_controller_manager.Restore.Objects.{restore_name_annotation}
use hci_controller_manager.Restore.Machine.{get_vm_backup, apply_restore}
use hci_controller_manager.Restore.NewVm.{
  restored_annotations, last_restore_annotation, annotation_volume_claim_templates,
}

module _ (md5 : Str → Str) (target : Str) where
  credential_secret_refs-sanitize :
      (credentials : List AccessCredential)
      → credential_secret_refs (sanitize_credentials md5 target credentials)
        ≡ map (get_secret_ref_name md5 target) (credential_secret_refs credentials)
  unfolding credential_secret_refs sanitize_credentials
  credential_secret_refs-sanitize [] = refl
  credential_secret_refs-sanitize (c ∷ credentials) =
      ground (arith, credential_secret_refs-sanitize credentials)

  volume_secret_refs-sanitize :
      (volumes : List Volume)
      → volume_secret_refs (sanitize_volumes md5 target volumes)
        ≡ map (get_secret_ref_name md5 target) (volume_secret_refs volumes)
  unfolding volume_secret_refs sanitize_volumes
  volume_secret_refs-sanitize [] = refl
  volume_secret_refs-sanitize (v ∷ volumes) = ground (arith, volume_secret_refs-sanitize volumes)

last-ne-name : restore_name_annotation ≢ last_restore_annotation
unfolding text
last-ne-name e = omega (arith, ap length e)

templates-ne-last : annotation_volume_claim_templates ≢ last_restore_annotation
unfolding text
templates-ne-last e = omega (arith, ap length e)

map-append : {A B : Type 0} (f : A → B) (xs ys : List A) → map f (xs ++ ys) ≡ map f xs ++ map f ys
map-append f [] ys = refl
map-append f (x ∷ xs) ys = ap (◌∷◌ (f x)) (map-append f xs ys)

-- A machine that is sanitized for a restore refers to exactly the secrets of the backup's machine, each
-- under the name that `reconcileSecretBackups` gives it for a new machine, in the same order.
secret_refs-sanitize_virtual_machine_for_restore :
    (md5 : Str → Str) (target : Str) (spec : VirtualMachineInstanceSpec)
    → let spec' : VirtualMachineInstanceSpec =
        sanitize_virtual_machine_for_restore md5 target spec in
      credential_secret_refs spec'.access_credentials ++ volume_secret_refs spec'.volumes
      ≡ map
          (get_secret_ref_name md5 target)
          (credential_secret_refs spec.access_credentials ++ volume_secret_refs spec.volumes)
unfolding sanitize_virtual_machine_for_restore
secret_refs-sanitize_virtual_machine_for_restore md5 target spec =
    rw
      (
        credential_secret_refs-sanitize md5 target spec.access_credentials,
        volume_secret_refs-sanitize md5 target spec.volumes,
        map-append (get_secret_ref_name md5 target) (credential_secret_refs spec.access_credentials)
            (volume_secret_refs spec.volumes),
      )
      refl

-- The restored annotations name the restore, and no volume claim templates.
pub restored_annotations-lookup :
    (vm_restore : VirtualMachineRestore) (annotations : Option (Dict Str))
    → let new : Dict Str = restored_annotations vm_restore annotations in
      (Dict.lookup last_restore_annotation new ≡ some (get_restore_id vm_restore))
      × (Dict.lookup annotation_volume_claim_templates new ≡ none)
unfolding restored_annotations
restored_annotations-lookup vm_restore annotations = ground (
  arith,
  Dict.lookup-erase last_restore_annotation annotation_volume_claim_templates (
      Dict.insert restore_name_annotation vm_restore.object_meta.name
        (Dict.insert last_restore_annotation (get_restore_id vm_restore) (elements annotations))),
  Dict.lookup-erase annotation_volume_claim_templates annotation_volume_claim_templates (
      Dict.insert restore_name_annotation vm_restore.object_meta.name
        (Dict.insert last_restore_annotation (get_restore_id vm_restore) (elements annotations))),
  Dict.lookup-insert last_restore_annotation restore_name_annotation vm_restore.object_meta.name
      (Dict.insert last_restore_annotation (get_restore_id vm_restore) (elements annotations)),
  Dict.lookup-insert last_restore_annotation last_restore_annotation (get_restore_id vm_restore)
      (elements annotations),
  last-ne-name,
  templates-ne-last,
)

module _ {W : Type 0} (h : Env W) where
  -- The backup of a restore, where `getVMBackup` returns one, is ready and has its source.
  get_vm_backup_complete :
      (vm_restore : VirtualMachineRestore) (w w' : W) (vm_backup : VirtualMachineBackup)
      → get_vm_backup h vm_restore w ≡ (ok vm_backup, w')
      → (is_backup_ready vm_backup ≡ true)
        × ((status : VirtualMachineBackupStatus) × (vm_backup.status ≡ some status)
            × (is_set status.source_spec ≡ true))
  unfolding get_vm_backup
  get_vm_backup_complete vm_restore w w' vm_backup e =
      let (found, v, _, r) = bind-ok (h.backups.get _ w) e in
      elim (Bool-cases (is_backup_ready found)) [
        | inr n ↦ absurd (ground arith)
        | inl ready ↦
            let (status, u, d, r') = bind-ok (deref found.status v) (rw ready at r) in
            elim (Bool-cases (is_set status.source_spec)) [
              | inr n ↦ absurd (ground arith)
              | inl s ↦
                  rw (← (pure-ok (rw s at r')).0) (ready, (status, (deref-ok found.status d).0, s))
            ]
      ]

  -- A machine with the annotations of a restore is left as it is when the restore is applied again.
  apply_restore_once :
      (vm_restore : VirtualMachineRestore) (vm_backup : VirtualMachineBackup) (vm : VirtualMachine)
      (w : W)
      → let restored : VirtualMachine = record vm {
        object_meta = record (vm.object_meta) {
          annotations = some (restored_annotations vm_restore vm.object_meta.annotations);
        };
      } in
        apply_restore h vm_restore vm_backup restored w ≡ (ok restored, w)
  unfolding apply_restore
  apply_restore_once vm_restore vm_backup vm w =
      rw (restored_annotations-lookup vm_restore vm.object_meta.annotations).0 (ground arith)
