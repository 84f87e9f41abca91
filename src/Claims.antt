-- ===== src/Claims.antt =====
-- controllers/hci/vm_controller.go and pvc_controller.go: the claims of a machine, and the machine
-- that owns a claim. A reconciler returns the restore that it reconciles five seconds later, if any.
-- What is only logged is left out.
pub mod Laws
use hci_controller_manager.Base.{
  Str, text, Bool, true, false, not, ◌&&◌, ◌||◌, Option, none, some, List, [], ◌∷◌, ◌++◌, ◌==◌,
  ◌!=◌, nat_eq, list_eq, if◌then◌else◌, elements, M, ok, err, panic, errorf, is_not_found, pure,
  fail, crash, deref, of_outcome, attempt, catch, ◌>>=◌, ◌>>◌,
}
use hci_controller_manager.Base.Dict
use hci_controller_manager.Base.Dict.{Dict}
use hci_controller_manager.Api.{
  NamespacedName, ObjectMeta, PersistentVolumeClaim, VirtualMachine, VirtualMachineInstanceSpec,
  Volume,
}
use hci_controller_manager.Env.{Env}
use hci_controller_manager.Pkg.Owners.Sets.{StringSet}
use hci_controller_manager.Pkg.Ref.{construct}
use hci_controller_manager.Pkg.Strings.{split, contains_string}
use hci_controller_manager.Backup.State.{annotation}
use hci_controller_manager.Restore.Objects.{restore_name_annotation}
use hci_controller_manager.Restore.NewVm.{annotation_volume_claim_templates}

-- `indexer.PVCByVMIndex`
abbrev pub pvc_by_vm_index : Str
pvc_by_vm_index = text "hci.wjyl.com/owned-by"

abbrev pub removed_pvcs_annotation_key : Str
removed_pvcs_annotation_key = text "hci.wjyl.com/removedPersistentVolumeClaims"

-- `vm.Namespace+"/"+vm.Name`
abbrev pub owner_key : VirtualMachine → Str
owner_key vm = vm.object_meta.namespace ++ b'/' ∷ vm.object_meta.name

abbrev pub with_annotations : Option (Dict Str) → PersistentVolumeClaim → PersistentVolumeClaim
with_annotations annotations pvc = record pvc {
  object_meta = record pvc.object_meta { annotations = annotations };
}

-- `delete(annotations, PVCByVMIndex)`, which leaves nil annotations nil.
abbrev pub without_owner : Option (Dict Str) → Option (Dict Str)
without_owner none = none
without_owner (some annotations) = some (Dict.erase pvc_by_vm_index annotations)

unfoldable pub get_removed_pvcs : VirtualMachine → List Str
unfolding split
get_removed_pvcs vm = split b',' (annotation vm.object_meta removed_pvcs_annotation_key)

module _ {S : Type 0} (sets : StringSet S) where
  unfoldable pub put_pvc_names : S → List Volume → S
  put_pvc_names pvc_names [] = pvc_names
  put_pvc_names pvc_names (volume ∷ volumes) =
      put_pvc_names
        (elim volume.persistent_volume_claim [
          | none ↦ pvc_names
          | some claim_name ↦
              if claim_name != [] then sets.insert claim_name pvc_names else pvc_names
        ])
        volumes

  unfoldable pub get_pvc_names : VirtualMachineInstanceSpec → S
  unfolding put_pvc_names
  get_pvc_names spec = put_pvc_names sets.empty spec.volumes

module _ {W : Type 0} (h : Env W) where
  -- An error that is only logged.
  abbrev pub ignoring : M W Unit → M W Unit
  ignoring call = catch call (λ e. pure tt)

  -- The claim with its owner, whose annotations must not be nil.
  abbrev pub write_owner : PersistentVolumeClaim → Option (Dict Str) → Str → M W Unit
  write_owner pvc none owner = crash
  write_owner pvc (some annotations) owner =
      h.claims.update (with_annotations (some (Dict.insert pvc_by_vm_index owner annotations)) pvc)

  unfoldable pub set_ownerless_pvc_reference : PersistentVolumeClaim → VirtualMachine → M W Unit
  set_ownerless_pvc_reference pvc vm =
      let owner = annotation pvc.object_meta pvc_by_vm_index in
      let write = write_owner pvc pvc.object_meta.annotations (owner_key vm) in
      elim pvc.object_meta.deletion_timestamp [
        | some t ↦ pure tt
        | none ↦
            if (owner != []) && (owner != owner_key vm)
            then fail (errorf (text "the volume has been used by other vm"))
            else write
      ]

  unfoldable pub unset_bounded_pvc_reference : PersistentVolumeClaim → M W Unit
  unset_bounded_pvc_reference pvc = elim pvc.object_meta.deletion_timestamp [
    | some t ↦ pure tt
    | none ↦ h.claims.update (with_annotations (without_owner pvc.object_meta.annotations) pvc)
  ]

  -- The restore named by an annotation, which is reconciled later.
  unfoldable pub later_restore : ObjectMeta → M W (Option NamespacedName)
  later_restore meta = elim (Dict.lookup restore_name_annotation (elements meta.annotations)) [
    | none ↦ pure none
    | some restore_name ↦ pure (some (record { namespace = meta.namespace; name = restore_name }))
  ]

  unfoldable pub on_claim_change : PersistentVolumeClaim → M W (Option NamespacedName)
  on_claim_change pvc = elim pvc.object_meta.deletion_timestamp [
    | some t ↦ pure none
    | none ↦
        (if annotation pvc.object_meta pvc_by_vm_index != [] then h.add_to_index pvc else pure tt)
        >> later_restore pvc.object_meta
  ]

  unfoldable pub reconcile_claim : NamespacedName → M W (Option NamespacedName)
  reconcile_claim key =
      attempt (h.claims.get key) on_claim_change (λ e. if is_not_found e then pure none else fail e)

  -- Any error of the read makes the claim be created.
  unfoldable pub create_pvcs : Str → List PersistentVolumeClaim → M W Unit
  create_pvcs namespace [] = pure tt
  create_pvcs namespace (pvc ∷ pvcs) =
      let template = record pvc {
        object_meta = record pvc.object_meta { namespace = namespace };
      } in
      attempt (h.claims.get (record { namespace = namespace; name = pvc.object_meta.name }))
        (λ found. pure tt) (λ e. h.claims.create template)
      >> create_pvcs namespace pvcs

  unfoldable pub create_pvcs_from_annotation : VirtualMachine → M W Unit
  create_pvcs_from_annotation vm =
      let templates = annotation vm.object_meta annotation_volume_claim_templates in
      if templates == []
      then pure tt
      else of_outcome (h.decode_claims templates) >>= create_pvcs vm.object_meta.namespace

  -- The claims that the index gives, less those that are still attached. The annotations are shared
  -- with the index, so the owner goes from there too.
  unfoldable pub release_claims : (Str → Bool) → List PersistentVolumeClaim → M W Unit
  release_claims is_attached [] = pure tt
  release_claims is_attached (pvc ∷ attached) =
      let released = with_annotations (without_owner pvc.object_meta.annotations) pvc in
      (if is_attached pvc.object_meta.name
        then pure tt
        else h.change_indexed released >> ignoring (h.claims.update released))
      >> release_claims is_attached attached

  unfoldable pub own_claims : VirtualMachine → List Str → M W Unit
  own_claims vm [] = pure tt
  own_claims vm (name ∷ names) =
      attempt (h.claims.get (record { namespace = vm.object_meta.namespace; name = name }))
        (λ pvc. ignoring (set_ownerless_pvc_reference pvc vm)) (λ e. pure tt)
      >> own_claims vm names

  unfoldable pub disown_claims : VirtualMachine → List Str → M W Unit
  disown_claims vm [] = pure tt
  disown_claims vm (name ∷ names) =
      attempt (h.claims.get (record { namespace = vm.object_meta.namespace; name = name }))
        (λ pvc.
          ignoring (unset_bounded_pvc_reference pvc)
          >> (if contains_string (get_removed_pvcs vm) name
              then ignoring (h.claims.delete pvc)
              else pure tt))
        (λ e. pure tt)
      >> disown_claims vm names

  module _ {S : Type 0} (sets : StringSet S) where
    unfoldable pub set_owner_of_pvcs : VirtualMachine → M W Unit
    set_owner_of_pvcs vm = elim vm.spec.template [
      | none ↦ pure tt
      | some template ↦
          let pvc_names = get_pvc_names sets template.spec in
          catch (h.claims_by_machine (construct vm.object_meta.namespace vm.object_meta.name)) (λ e.
            fail (record e {
              message = text "failed to get attached PVCs by VM index: " ++ e.message;
            }))
          >>= λ attached.
              release_claims (sets.has pvc_names) attached >> own_claims vm (sets.list pvc_names)
    ]

    unfoldable pub unset_owner_of_pvcs : VirtualMachine → M W Unit
    unset_owner_of_pvcs vm = deref vm.spec.template >>= λ template.
        disown_claims vm (sets.list (get_pvc_names sets template.spec))

    unfoldable pub on_machine_change : VirtualMachine → M W (Option NamespacedName)
    on_machine_change vm = elim vm.object_meta.deletion_timestamp [
      | some t ↦ pure none
      | none ↦
          elim (Dict.lookup removed_pvcs_annotation_key (elements vm.object_meta.annotations)) [
            | some removed ↦ unset_owner_of_pvcs vm
            | none ↦ create_pvcs_from_annotation vm >> set_owner_of_pvcs vm
          ]
          >> later_restore vm.object_meta
    ]

    unfoldable pub reconcile_machine : NamespacedName → M W (Option NamespacedName)
    reconcile_machine key =
        attempt (h.virtual_machines.get key) on_machine_change
          (λ e. if is_not_found e then pure none else fail e)
