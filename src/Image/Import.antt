-- ===== src/Image/Import.antt =====
-- controllers/hci/backingimage_controller.go: the state of Longhorn's backing image is carried over
-- to the image that it was made for.
pub mod Laws
pub mod Phases
use hci_controller_manager.Base.{
  Str, text, ℕ, zero, suc, Bool, true, false, not, ◌||◌, Option, none, some, List, [], ◌∷◌, ◌==◌,
  ◌!=◌, nat_eq, list_eq, if◌then◌else◌, length, M, ok, err, panic, Err, is_not_found, pure, fail,
  attempt,
}
use hci_controller_manager.Base.Dict.{Dict}
use hci_controller_manager.Api.{
  NamespacedName, ConditionStatus, Condition, condition_true, condition_false, condition_unknown,
  VirtualMachineImage, VirtualMachineImageStatus, BackingImage, BackingImageState, state_failed,
  state_ready, state_ready_for_transfer, other_state, DiskFileStatus, image_eq,
}
use hci_controller_manager.Env.{Env}
use hci_controller_manager.Pkg.Condition.{set_status, set_message, set_reason, is_true, is_unknown}
use hci_controller_manager.Pkg.Ref.{parse}
use hci_controller_manager.Backup.State.{annotation}
use hci_controller_manager.Backup.Objects.{annotation_image_id}
use hci_controller_manager.Image.Controller.{stamps}
use hci_controller_manager.Image.Objects.{image_imported, image_initialized}

-- The three writes to the condition `Imported`.
unfoldable pub tell_import :
    (ℕ → Str) → ConditionStatus → Str → Str → List Condition → List Condition
unfolding set_status set_message set_reason
tell_import now status reason message conditions =
    set_message image_imported (now 1) message
      (set_reason image_imported reason (set_status image_imported (now 0) status conditions))

-- The body of the loop.
unfoldable pub apply_disk_status :
    (ℕ → Str) → ℕ → DiskFileStatus → VirtualMachineImage → VirtualMachineImage
unfolding tell_import
apply_disk_status now size disk image =
    let s = image.status in
    let failed = record image {
      status = record s {
        conditions =
            tell_import now condition_false (text "ImportFailed") disk.message s.conditions;
        progress = disk.progress;
      };
    } in
    let done = record image {
      status = record s {
        conditions = tell_import now condition_true (text "Imported") disk.message s.conditions;
        progress = disk.progress;
        size = size;
      };
    } in
    let importing =
      if disk.progress != s.progress
      then record image {
        status = record s {
          conditions =
              tell_import now condition_unknown (text "Importing") disk.message s.conditions;
          progress = if disk.progress == 100 then 99 else disk.progress;
        };
      }
      else image in
    elim disk.state [
      | state_failed ↦ failed
      | state_ready ↦ done
      | state_ready_for_transfer ↦ done
      | other_state name ↦ importing
    ]

-- The loop over the map, which has one entry where it is run.
unfoldable pub apply_disk_statuses :
    (ℕ → Str) → ℕ → Dict DiskFileStatus → VirtualMachineImage → VirtualMachineImage
unfolding apply_disk_status
apply_disk_statuses now size [] image = image
apply_disk_statuses now size ((k, disk) ∷ disks) image =
    apply_disk_statuses now size disks (apply_disk_status now size disk image)

module _ {W : Type 0} (h : Env W) where
  -- The image found, which is written if it changes.
  unfoldable pub carry_over : BackingImage → VirtualMachineImage → M W Unit
  carry_over backing_image vm_image w =
      let to_update =
        apply_disk_statuses (stamps h w) backing_image.size backing_image.disk_file_status_map
          vm_image in
      let write = h.images.update to_update w in
      if not (is_true image_initialized vm_image.status.conditions)
        || not (is_unknown image_imported vm_image.status.conditions)
      then pure tt w
      else if vm_image != to_update
      then write
      else pure tt w

  unfoldable pub on_backing_image_change : BackingImage → M W Unit
  unfolding parse
  on_backing_image_change backing_image =
      let id = annotation backing_image.object_meta annotation_image_id in
      let rest =
        attempt (h.images.get (record { namespace = (parse id).0; name = (parse id).1 }))
          (carry_over backing_image) (λ e. if is_not_found e then pure tt else fail e) in
      elim backing_image.object_meta.deletion_timestamp [
        | some t ↦ pure tt
        | none ↦
            if (id == []) || (length backing_image.disk_file_status_map != 1) then pure tt else rest
      ]

  unfoldable pub reconcile_backing_image : NamespacedName → M W Unit
  reconcile_backing_image key =
      attempt (h.backing_images.get key) on_backing_image_change
        (λ e. if is_not_found e then pure tt else fail e)
