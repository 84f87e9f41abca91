-- ===== src/Restore/Reconcile/Laws.antt =====
-- On the handler of a restore: the statuses that it writes, and the phases.
use hci_controller_manager.Base.{
  Str, text, ℕ, ◌≡◌, refl, Bool, false, not, ◌&&◌, none, some, List, [], ◌∷◌, ◌==◌, nat_eq, list_eq,
  if◌then◌else◌, elements, M, pure, ◌>>◌, ok, err, Err, arith, inl, inr, Outcome-cases, err-ne-ok,
  panic-ne-ok, ◌++◌,
}
use hci_controller_manager.Api.{
  VirtualMachineBackup, VirtualMachineBackupStatus, VolumeBackup, VirtualMachineRestore,
  VirtualMachineRestoreStatus, VolumeRestore, ConditionStatus, condition_false, restore_eq,
}
use hci_controller_manager.Env.{Env}
use hci_controller_manager.Backup.State.{is_empty}
use hci_controller_manager.Backup.Progress.Laws.{settled_pair}
use hci_controller_manager.Restore.State.{
  is_vm_restore_missing_volumes, update_restore_condition, is_new_vm_or_has_retain_policy,
}
use hci_controller_manager.Restore.Volumes.{init_volumes_status}
use hci_controller_manager.Restore.Plan.{get_volume_restores, claim_names, nil_if_empty}
use hci_controller_manager.Restore.Volumes.Laws.{Aligned, get_volume_restores-Aligned}
use hci_controller_manager.Restore.Reconcile.{report, update_status_error, times}

report_twice :
    (at at' : ℕ → Str) (a b : ConditionStatus) (reason m k : Str) (s : VirtualMachineRestoreStatus)
    → report at' a b reason m k (report at a b reason m k s) ≡ report at a b reason m k s
unfolding report update_restore_condition
report_twice at at' a b reason m k s =
    rw (settled_pair s.conditions a b reason reason m k (at 0) (at' 0) (at 1) (at' 1)) refl

is_empty-Aligned :
    (vbs : List VolumeBackup) (vrs : List VolumeRestore)
    → Aligned vbs vrs
    → is_empty vrs ≡ is_empty vbs
is_empty-Aligned [] [] h = refl
is_empty-Aligned [] (x ∷ vrs) h = absurd h
is_empty-Aligned (vb ∷ vbs) [] h = absurd h
is_empty-Aligned (vb ∷ vbs) (x ∷ vrs) h = refl

missing_after :
    (vm_restore : VirtualMachineRestore) (s : VirtualMachineRestoreStatus) (vbs : List VolumeBackup)
    (made : List VolumeRestore)
    → Aligned vbs made
    → let s' : VirtualMachineRestoreStatus = record s {
      volume_restores = some made;
      deleted_volumes =
          if not (is_new_vm_or_has_retain_policy vm_restore) && not false
          then nil_if_empty (claim_names vbs)
          else none;
    } in
      is_vm_restore_missing_volumes (record vm_restore { status = some s' }) s' ≡ is_empty vbs
unfolding is_vm_restore_missing_volumes is_new_vm_or_has_retain_policy claim_names
missing_after vm_restore s [] [] a = refl
missing_after vm_restore s [] (x ∷ made) a = absurd a
missing_after vm_restore s (vb ∷ vbs) [] a = absurd a
missing_after vm_restore s (vb ∷ vbs) (x ∷ made) a = ground arith

module _ {W : Type 0} (h : Env W) where
  -- What `updateStatusError` does before it returns the error.
  abbrev update_reported :
      VirtualMachineRestore → Err → Bool → VirtualMachineRestoreStatus → M W Unit
  update_reported restore e create_event reported =
      let restore' : VirtualMachineRestore = record restore { status = some reported } in
      if restore == restore'
      then pure tt
      else (if create_event
          then h.record_event (text "Warning") (text "VirtualMachineRestoreError")
              (text "VirtualMachineRestore encountered error " ++ e.message)
          else pure tt)
        >> h.restores.update restore'

  -- An error that the status of a restore reports already is returned, with no write and no event,
  -- whatever the time is by then.
  update_status_error_once :
      (restore : VirtualMachineRestore) (s : VirtualMachineRestoreStatus) (at : ℕ → Str) (e : Err)
      (create_event : Bool) (w : W)
      → restore.status
        ≡ some (report at condition_false condition_false (text "Error") e.message e.message s)
      → update_status_error h restore e create_event w ≡ (err e, w)
  unfolding update_status_error
  update_status_error_once restore s at e create_event w r =
      rw
        (
          r,
          report_twice at (times h w) condition_false condition_false (text "Error") e.message
              e.message s,
        )
        (ground arith)

  -- The restore that `initVolumesStatus` writes, where it succeeds on a restore without volumes, still
  -- misses its volumes exactly if the backup has none: a restore of a backup without volumes stays in
  -- this phase, and every other one leaves it.
  pub init_volumes_status_leaves :
      (vm_restore : VirtualMachineRestore) (s : VirtualMachineRestoreStatus)
      (vm_backup : VirtualMachineBackup) (b : VirtualMachineBackupStatus) (w w' : W)
      → vm_restore.status ≡ some s
      → s.volume_restores ≡ none
      → s.deleted_volumes ≡ none
      → vm_backup.status ≡ some b
      → init_volumes_status h vm_restore vm_backup w ≡ (ok tt, w')
      → (restore' : VirtualMachineRestore) × (s' : VirtualMachineRestoreStatus) × (h.restores.update
            restore' w
          ≡ (ok tt, w'))
        × (restore'.status ≡ some s')
        × (is_vm_restore_missing_volumes restore' s' ≡ is_empty (elements b.volume_backups))
  unfolding init_volumes_status is_new_vm_or_has_retain_policy
  init_volumes_status_leaves vm_restore s vm_backup b w w' e n d eb r =
      let vbs : List VolumeBackup = elements b.volume_backups in
      elim (Outcome-cases (get_volume_restores vm_restore [] vbs)) [
        | inl (made, g) ↦ (
          _,
          _,
          rw (e, n, d, eb, g) at r,
          refl,
          missing_after vm_restore s vbs made
              (get_volume_restores-Aligned vm_restore [] vbs made g),
        )
        | inr (inl (e', g)) ↦ absurd (err-ne-ok (rw (e, n, d, eb, g) at r))
        | inr (inr g) ↦ absurd (panic-ne-ok (rw (e, n, d, eb, g) at r))
      ]
