-- ===== src/Backup/Progress.antt =====
-- `updateConditions` of controllers/hci/backup_status.go.
pub mod Laws
use hci_controller_manager.Base.{
  Str, text, ℕ, Bool, true, false, not, ◌&&◌, ◌||◌, Option, none, some, List, [], ◌∷◌, ◌++◌, ◌==◌,
  ◌!=◌, nat_eq, list_eq, if◌then◌else◌, elements, M, Outcome, ok, panic, pure, deref, of_outcome,
  ◌>>=◌, ◌>>◌, gets,
}
use hci_controller_manager.Api.{
  VirtualMachineBackup, VirtualMachineBackupStatus, VolumeBackup, StatusError, ConditionStatus,
  condition_true, condition_false, Time, backup_status_eq,
}
use hci_controller_manager.Env.{Env}
use hci_controller_manager.Backup.State.{
  is_true, is_set, update_backup_condition, new_ready_condition, new_progressing_condition,
}

-- The loop over the volumes: are they ready, and the text on the first one with an error, behind
-- which the loop does not look. A nameless volume with an error is a nil dereference.
unfoldable pub scan_volumes : Bool → List VolumeBackup → Outcome (Bool × Str)
scan_volumes ready [] = ok (ready, [])
scan_volumes ready (vb ∷ volume_backups) =
    let ready' = if is_true vb.ready_to_use then ready else false in
    let rest = scan_volumes ready' volume_backups in
    elim vb.error [
      | none ↦ rest
      | some e ↦ elim vb.name [
        | none ↦ panic
        | some n ↦ ok (ready', text "VolumeSnapshot " ++ (n ++ text " in error state"))
      ]
    ]

-- Does the status already tell of this error?
abbrev pub reports : Option StatusError → Str → Bool
reports none message = false
reports (some e) message = elim e.message [ none ↦ false | some m ↦ m == message ]

-- `now i` is the `i`-th reading of the clock, in the order of the text.
module _ (rfc3339 : Time → Str) (now : ℕ → Time) where
  unfoldable pub mark_progress : VirtualMachineBackupStatus → VirtualMachineBackupStatus
  mark_progress s =
      if not (is_set s.error) && not (is_true s.ready_to_use)
      then update_backup_condition
          (update_backup_condition s (
            new_progressing_condition condition_true [] (text "Operation in progress")
              (rfc3339 (now 0))))
          (new_ready_condition condition_false [] (text "Not ready") (rfc3339 (now 1)))
      else s

  unfoldable pub mark_complete : Bool → VirtualMachineBackupStatus → VirtualMachineBackupStatus
  mark_complete ready s =
      if ready && not (is_true s.ready_to_use)
      then update_backup_condition
          (update_backup_condition (record s { creation_time = some (now 2); error = none })
            (new_progressing_condition condition_false [] (text "Operation complete")
              (rfc3339 (now 3))))
          (new_ready_condition condition_true [] (text "Operation complete") (rfc3339 (now 4)))
      else s

  unfoldable pub mark_error : Str → VirtualMachineBackupStatus → VirtualMachineBackupStatus
  mark_error message s =
      if message != [] && not (reports s.error message)
      then update_backup_condition
          (update_backup_condition
            (record s { error = some (record { time = some (now 5); message = some message }) })
            (new_progressing_condition condition_false (text "Error") message (rfc3339 (now 6))))
          (new_ready_condition condition_false [] (text "Not Ready") (rfc3339 (now 7)))
      else s

  -- The status that `updateConditions` computes from what the loop has found.
  unfoldable pub refresh : Bool → Str → VirtualMachineBackupStatus → VirtualMachineBackupStatus
  refresh ready message s = record (mark_error message (mark_complete ready (mark_progress s))) {
    ready_to_use = some ready;
  }

module _ {W : Type 0} (h : Env W) where
  unfoldable pub update_conditions : VirtualMachineBackup → M W Unit
  update_conditions vm_backup = do
    status ← deref vm_backup.status
    now ← gets h.clock
    (ready, message) ← of_outcome (scan_volumes true (elements status.volume_backups))
    let status' = refresh h.rfc3339 now ready message status
    if status == status'
        then pure tt
        else h.backups.update (record vm_backup { status = some status' })
