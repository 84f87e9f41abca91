-- ===== src/Restore/Life.antt =====
-- The life of a restore as its controller writes it (Reconcile and what it calls, in
-- controllers/hci/virtualmachinerestore_controller.go): which object a write may put in the place of
-- which.
pub mod Calls
pub mod Writes
pub mod Refinement
pub mod Laws
use hci_controller_manager.Base.{
  Str, text, ℕ, ◌≡◌, ◌⊎◌, Bool, true, false, not, ◌&&◌, Option, none, some, List, [], ◌∷◌, ok,
  elements, if◌then◌else◌,
}
use hci_controller_manager.Api.{
  VirtualMachineRestore, VirtualMachineRestoreStatus, VirtualMachineBackup,
  VirtualMachineBackupStatus, VirtualMachine, VolumeRestore, condition_true, condition_false,
  ConditionStatus, Time,
}
use hci_controller_manager.Backup.State.{
  is_set, is_empty, is_backup_ready, new_ready_condition, new_progressing_condition,
}
use hci_controller_manager.Restore.State.{
  is_vm_restore_progressing, is_new_vm_or_has_retain_policy, is_vm_restore_missing_volumes,
  config_vm_owner,
}
use hci_controller_manager.Restore.Plan.{get_volume_restores, nil_if_empty, claim_names}
use hci_controller_manager.Restore.Reconcile.{report}

abbrev pub with_status : VirtualMachineRestore → VirtualMachineRestoreStatus → VirtualMachineRestore
with_status r s = record r { status = some s }

-- A restore that is neither deleted nor complete.
pub record IsPending (r : VirtualMachineRestore) : Type 0 where
  pub kept : is_set r.object_meta.deletion_timestamp ≡ false
  pub incomplete : is_vm_restore_progressing r ≡ true

-- A pending restore that has its volumes.
pub record HasVolumes (r : VirtualMachineRestore) (s : VirtualMachineRestoreStatus) : Type 0 where
  pub pending : IsPending r
  pub at_status : r.status ≡ some s
  pub planned : is_vm_restore_missing_volumes r s ≡ false

-- The volumes to restore: those that are there, or one for each volume of the backup.
abbrev pub IsPlan :
    VirtualMachineRestore
    → VirtualMachineRestoreStatus
    → VirtualMachineBackupStatus
    → List VolumeRestore
    → Type 0
IsPlan r s b volume_restores =
    (s.volume_restores ≡ some volume_restores)
    ⊎ (s.volume_restores ≡ none)
      × (get_volume_restores r [] (elements b.volume_backups) ≡ ok volume_restores)

-- The writes of the controller, with the conditions under which it makes them.
pub data RestoreStep (r : VirtualMachineRestore) : VirtualMachineRestore → Type 0 where
  init :
      (at : ℕ → Str)
      → IsPending r
      → r.status ≡ none
      → RestoreStep r (
          with_status r (record {
            volume_restores = none;
            restore_time = none;
            deleted_volumes = none;
            complete = some false;
            conditions =
                new_progressing_condition condition_true []
                  (text "Initializing VirtualMachineRestore")
                  (at 0)
                ∷ new_ready_condition condition_false []
                    (text "Initializing VirtualMachineRestore")
                    (at 1)
                ∷ [];
            target_uid = none;
          }))
  give_up :
      (s : VirtualMachineRestoreStatus) (at : ℕ → Str) (message : Str)
      → IsPending r
      → r.status ≡ some s
      → RestoreStep r (
          with_status r
            (report at condition_false condition_false (text "Error") message message s))
  plan :
      (s : VirtualMachineRestoreStatus) (backup : VirtualMachineBackup)
      (b : VirtualMachineBackupStatus) (volume_restores : List VolumeRestore)
      → IsPending r
      → r.status ≡ some s
      → is_vm_restore_missing_volumes r s ≡ true
      → is_backup_ready backup ≡ true
      → backup.status ≡ some b
      → IsPlan r s b volume_restores
      → RestoreStep r (
          with_status r (record s {
            volume_restores = some volume_restores;
            deleted_volumes =
                if not (is_new_vm_or_has_retain_policy r) && not (is_set s.deleted_volumes)
                then nil_if_empty (claim_names (elements b.volume_backups))
                else s.deleted_volumes;
          }))
  adopt :
      (s : VirtualMachineRestoreStatus) (vm : VirtualMachine) (api_version kind : Str)
      → HasVolumes r s
      → is_empty r.object_meta.owner_references ≡ true
      → RestoreStep r (record r {
        object_meta = record (r.object_meta) {
          owner_references = config_vm_owner api_version kind vm;
        };
        status = some (record s {
          target_uid = elim s.target_uid [ none ↦ some vm.object_meta.uid | some uid ↦ some uid ];
        });
      })
  wait :
      (s : VirtualMachineRestoreStatus) (at : ℕ → Str) (progressing : ConditionStatus)
      (progress_message ready_message : Str)
      → HasVolumes r s
      → is_empty r.object_meta.owner_references ≡ false
      → RestoreStep r (
          with_status r (report at progressing condition_false [] progress_message ready_message s))
  complete :
      (s : VirtualMachineRestoreStatus) (vm : VirtualMachine) (at : ℕ → Str) (now : Time)
      → HasVolumes r s
      → is_empty r.object_meta.owner_references ≡ false
      → vm.ready ≡ true
      → RestoreStep r (
          with_status r (
            report at condition_false condition_true []
              (text "Operation complete")
              (text "Operation complete")
              (record s { restore_time = some now; complete = some true })))

pub data Life (r : VirtualMachineRestore) : VirtualMachineRestore → Type 0 where
  here : Life r r
  next : {q p : VirtualMachineRestore} → Life r q → RestoreStep q p → Life r p
