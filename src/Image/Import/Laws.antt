-- ===== src/Image/Import/Laws.antt =====
-- On carrying the state of a backing image over to its image.
use hci_controller_manager.Base.{Str, text, ℕ, ◌≡◌, refl, List, nat_eq, list_eq, arith, ap, ◌∙◌}
use hci_controller_manager.Api.{
  Condition, ConditionStatus, condition_true, condition_false, condition_unknown,
  condition_status_eq, VirtualMachineImage, BackingImageState, state_failed, state_ready,
  state_ready_for_transfer, other_state, DiskFileStatus, image_eq,
}
use hci_controller_manager.Pkg.Condition.{
  change_cond, write_status, write_message, set_status, set_message, set_reason,
}
use hci_controller_manager.Pkg.Condition.Laws.{write_status-type}
use hci_controller_manager.Pkg.Condition.Change.{change_cond_twice, change_cond_idem}
use hci_controller_manager.Image.Objects.{image_imported}
use hci_controller_manager.Image.Import.{tell_import, apply_disk_status}

abbrev pub write_import : (ℕ → Str) → ConditionStatus → Str → Str → Condition → Condition
write_import now status reason message c =
    write_message (now 1) message (record (write_status (now 0) status c) { reason = reason })

pub write_import-type :
    (now : ℕ → Str) (status : ConditionStatus) (reason message : Str) (c : Condition)
    → (write_import now status reason message c).type ≡ c.type
write_import-type now status reason message c = ground (arith, write_status-type (now 0) status c)

pub tell_import_lem :
    (now : ℕ → Str) (status : ConditionStatus) (reason message : Str) (conditions : List Condition)
    → tell_import now status reason message conditions
      ≡ change_cond (write_import now status reason message) image_imported conditions
unfolding tell_import set_status set_message set_reason
tell_import_lem now status reason message conditions =
    ap (change_cond (write_message (now 1) message) image_imported) (
      change_cond_twice (write_status (now 0) status) (λ c. record c { reason = reason })
        image_imported conditions (write_status-type (now 0) status))
    ∙ change_cond_twice (λ c. record (write_status (now 0) status c) { reason = reason })
        (write_message (now 1) message) image_imported conditions (write_status-type (now 0) status)

tell_import_twice :
    (now now' : ℕ → Str) (status : ConditionStatus) (reason message : Str)
    (conditions : List Condition)
    → tell_import now' status reason message (tell_import now status reason message conditions)
      ≡ tell_import now status reason message conditions
tell_import_twice now now' status reason message conditions =
    rw
      (
        tell_import_lem now status reason message conditions,
        tell_import_lem now' status reason message,
      )
      (change_cond_idem (write_import now status reason message)
        (write_import now' status reason message) image_imported conditions
        (write_import-type now status reason message) (λ c. ground arith))

settles_at :
    (now now' : ℕ → Str) (size : ℕ) (disk : DiskFileStatus) (image : VirtualMachineImage)
    (state : BackingImageState)
    → disk.state ≡ state
    → apply_disk_status now' size disk (apply_disk_status now size disk image)
      ≡ apply_disk_status now size disk image
unfolding apply_disk_status
settles_at now now' size disk image state_failed e = rw e (
    ap
      (λ cs. record image {
        status = record image.status { conditions = cs; progress = disk.progress };
      })
      (tell_import_twice now now' condition_false (text "ImportFailed") disk.message
        image.status.conditions))
settles_at now now' size disk image state_ready e = rw e (
    ap
      (λ cs. record image {
        status = record image.status { conditions = cs; progress = disk.progress; size = size };
      })
      (tell_import_twice now now' condition_true (text "Imported") disk.message
        image.status.conditions))
settles_at now now' size disk image state_ready_for_transfer e = rw e (
    ap
      (λ cs. record image {
        status = record image.status { conditions = cs; progress = disk.progress; size = size };
      })
      (tell_import_twice now now' condition_true (text "Imported") disk.message
        image.status.conditions))
settles_at now now' size disk image (other_state name) e = rw e (
    ground (
      arith,
      tell_import_twice now now' condition_unknown (text "Importing") disk.message
          image.status.conditions,
    ))

-- The state of one file carried over a second time, at a later time, changes nothing.
apply_disk_status_settles :
    (now now' : ℕ → Str) (size : ℕ) (disk : DiskFileStatus) (image : VirtualMachineImage)
    → apply_disk_status now' size disk (apply_disk_status now size disk image)
      ≡ apply_disk_status now size disk image
apply_disk_status_settles now now' size disk image =
    settles_at now now' size disk image disk.state refl
