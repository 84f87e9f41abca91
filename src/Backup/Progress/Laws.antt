-- ===== src/Backup/Progress/Laws.antt =====
-- What `updateConditions` leaves behind.
use hci_controller_manager.Base.{
  Str, text, ℕ, ◌≡◌, ◌≢◌, refl, Bool, true, false, none, some, List, [], ◌∷◌, ◌++◌, nat_eq, list_eq,
  arith, ok, sym, ◌↔◌, Option-cases, inl, inr,
}
use hci_controller_manager.Api.{
  VirtualMachineBackupStatus, VolumeBackup, StatusError, Condition, ConditionStatus, condition_true,
  condition_false, Time,
}
use hci_controller_manager.Backup.State.{
  is_true, update_condition, update_backup_condition, new_ready_condition,
  new_progressing_condition, backup_condition_ready, backup_condition_progressing,
}
use hci_controller_manager.Backup.State.Laws.{
  Says, SameCondition, update_condition-Says, update_condition-Says_ne, update_condition_of_Says,
}
use hci_controller_manager.Backup.Progress.{
  scan_volumes, mark_progress, mark_complete, mark_error, reports, refresh,
}

progressing-ne-ready : backup_condition_progressing ≢ backup_condition_ready
unfolding text
progressing-ne-ready h = cc

-- The same two conditions, written again at a later time, change nothing.
update_pair_twice :
    (conditions : List Condition) (p r p' r' : Condition)
    → p.type ≢ r.type
    → SameCondition p p'
    → SameCondition r r'
    → update_condition (update_condition (update_condition (update_condition conditions p) r) p') r'
      ≡ update_condition (update_condition conditions p) r
update_pair_twice conditions p r p' r' n hp hr =
    let once : List Condition = update_condition (update_condition conditions p) r in
    rw
      (update_condition_of_Says once p' (
        update_condition-Says_ne (update_condition conditions p) r p' (ground arith)
          (update_condition-Says conditions p p' hp)))
      (update_condition_of_Says once r'
        (update_condition-Says (update_condition conditions p) r r' hr))

same_progressing :
    (a : ConditionStatus) (u m t t' : Str)
    → SameCondition (new_progressing_condition a u m t) (new_progressing_condition a u m t')
unfolding new_progressing_condition
same_progressing a u m t t' = record { type = refl; status = refl; reason = refl; message = refl }

same_ready :
    (b : ConditionStatus) (v k w w' : Str)
    → SameCondition (new_ready_condition b v k w) (new_ready_condition b v k w')
unfolding new_ready_condition
same_ready b v k w w' = record { type = refl; status = refl; reason = refl; message = refl }

pub settled_pair :
    (conditions : List Condition) (a b : ConditionStatus) (u v m k t t' : Str) (w w' : Str)
    → update_condition
        (update_condition
          (update_condition
            (update_condition conditions (new_progressing_condition a u m t))
            (new_ready_condition b v k w))
          (new_progressing_condition a u m t'))
        (new_ready_condition b v k w')
      ≡ update_condition
          (update_condition conditions (new_progressing_condition a u m t))
          (new_ready_condition b v k w)
settled_pair conditions a b u v m k t t' w w' =
    update_pair_twice conditions (new_progressing_condition a u m t) (new_ready_condition b v k w)
      (new_progressing_condition a u m t') (new_ready_condition b v k w')
      (unfold new_progressing_condition new_ready_condition in progressing-ne-ready)
      (same_progressing a u m t t') (same_ready b v k w w')

module _ (rfc3339 : Time → Str) (now later : ℕ → Time) where
  -- The status that `updateConditions` computes for a backup that was not ready is one that a
  -- later call with the same findings leaves as it is.
  pub refresh_settles :
      (ready : Bool) (message : Str) (s : VirtualMachineBackupStatus)
      → is_true s.ready_to_use ≡ false
      → refresh rfc3339 later ready message (refresh rfc3339 now ready message s)
        ≡ refresh rfc3339 now ready message s
  unfolding refresh mark_progress mark_complete mark_error update_backup_condition
  refresh_settles false message s h = ground (
    arith,
    settled_pair s.conditions condition_true condition_false [] [] (text "Operation in progress")
        (text "Not ready") (rfc3339 (now 0)) (rfc3339 (later 0)) (rfc3339 (now 1))
        (rfc3339 (later 1)),
  )
  refresh_settles true message s h = ground arith

-- Every volume is ready, and none has an error.
abbrev pub AllReady : List VolumeBackup → Type 0
AllReady [] = Unit
AllReady (vb ∷ volume_backups) =
    (is_true vb.ready_to_use ≡ true) × (vb.error ≡ none) × AllReady volume_backups

error_text-ne-nil : (n : Str) → text "VolumeSnapshot " ++ (n ++ text " in error state") ≢ []
unfolding text
error_text-ne-nil n h = cc

scan_volumes-not_ready :
    (volume_backups : List VolumeBackup) (message : Str)
    → scan_volumes false volume_backups ≢ ok (true, message)
unfolding scan_volumes
scan_volumes-not_ready [] message h = cc
scan_volumes-not_ready (vb ∷ volume_backups) message h =
    ground (arith, scan_volumes-not_ready volume_backups message)

-- The loop over the volumes finds a backup ready and free of errors exactly when every volume is
-- ready and none has an error.
pub scan_volumes_ready :
    (volume_backups : List VolumeBackup)
    → (scan_volumes true volume_backups ≡ ok (true, [])) ↔ AllReady volume_backups
unfolding scan_volumes
scan_volumes_ready [] = (λ h. tt, λ h. refl)
scan_volumes_ready (vb ∷ volume_backups) = elim (Option-cases vb.name) [
  | inl e ↦
      ground (arith, scan_volumes_ready volume_backups, scan_volumes-not_ready volume_backups [])
  | inr (n, e) ↦ ground (
    arith,
    scan_volumes_ready volume_backups,
    scan_volumes-not_ready volume_backups [],
    error_text-ne-nil n,
  )
]

pair-Says :
    (conditions : List Condition) (a b : ConditionStatus) (u v m k t t' : Str) (w w' : Str)
    → let written : List Condition =
        update_condition
          (update_condition conditions (new_progressing_condition a u m t))
          (new_ready_condition b v k w) in
      Says written (new_progressing_condition a u m t')
      × Says written (new_ready_condition b v k w')
pair-Says conditions a b u v m k t t' w w' = (
  update_condition-Says_ne (update_condition conditions (new_progressing_condition a u m t))
      (new_ready_condition b v k w) (new_progressing_condition a u m t')
      (unfold new_progressing_condition new_ready_condition in λ e. progressing-ne-ready (sym e))
      (update_condition-Says conditions (new_progressing_condition a u m t)
        (new_progressing_condition a u m t') (same_progressing a u m t t')),
  update_condition-Says (update_condition conditions (new_progressing_condition a u m t))
      (new_ready_condition b v k w) (new_ready_condition b v k w') (same_ready b v k w w'),
)

module _ (rfc3339 : Time → Str) (now : ℕ → Time) where
  -- When the volumes turn out ready, a backup that was not becomes ready: the flag is set, the error
  -- is gone, and the two conditions say that the operation is complete.
  pub refresh_completes :
      (s : VirtualMachineBackupStatus) (t : Str)
      → is_true s.ready_to_use ≡ false
      → let s' = refresh rfc3339 now true [] s in
        (s'.ready_to_use ≡ some true)
        × (s'.error ≡ none)
        × Says s'.conditions
            (new_progressing_condition condition_false [] (text "Operation complete") t)
        × Says s'.conditions (new_ready_condition condition_true [] (text "Operation complete") t)
  unfolding refresh mark_progress mark_complete mark_error update_backup_condition
  refresh_completes s t h = ground (
    arith,
    pair-Says (mark_progress rfc3339 now s).conditions condition_false condition_true [] []
        (text "Operation complete") (text "Operation complete") (rfc3339 (now 3)) t
        (rfc3339 (now 4)) t,
  )

  mark_complete-reports :
      (ready : Bool) (message : Str) (s : VirtualMachineBackupStatus)
      → reports s.error message ≡ false
      → reports (mark_complete rfc3339 now ready (mark_progress rfc3339 now s)).error message
        ≡ false
  unfolding mark_progress mark_complete update_backup_condition
  mark_complete-reports ready message s h = ground arith

  -- A text of an error that is not empty and not recorded yet is recorded, and the two conditions
  -- say that the operation failed, with that text.
  refresh_fails :
      (ready : Bool) (message : Str) (s : VirtualMachineBackupStatus) (t : Str)
      → message ≢ []
      → reports s.error message ≡ false
      → let s' = refresh rfc3339 now ready message s in
        (reports s'.error message ≡ true)
        × Says s'.conditions (new_progressing_condition condition_false (text "Error") message t)
        × Says s'.conditions (new_ready_condition condition_false [] (text "Not Ready") t)
  unfolding refresh mark_error update_backup_condition
  refresh_fails ready message s t n h = ground (
    arith,
    mark_complete-reports ready message s h,
    pair-Says (mark_complete rfc3339 now ready (mark_progress rfc3339 now s)).conditions
        condition_false condition_false (text "Error") [] message (text "Not Ready")
        (rfc3339 (now 6)) t (rfc3339 (now 7)) t,
  )

scan_volumes-AllReady :
    (front : List VolumeBackup) (vb : VolumeBackup) (rest : List VolumeBackup) {n : Str}
    {e : StatusError}
    → AllReady front
    → vb.name ≡ some n
    → vb.error ≡ some e
    → is_true vb.ready_to_use ≡ true
    → scan_volumes true (front ++ vb ∷ rest)
      ≡ ok (true, text "VolumeSnapshot " ++ (n ++ text " in error state"))
unfolding scan_volumes
scan_volumes-AllReady [] vb rest front name error ready = ground arith
scan_volumes-AllReady (v ∷ vs) vb rest (r, e, front) name error ready =
    ground (arith, scan_volumes-AllReady vs vb rest front name error ready)

-- Where a volume has an error and is ready, and every volume in front of it is ready and without an
-- error, the loop ends at it: whatever the volumes behind it are, `updateConditions` computes a status
-- that is ready and yet reports that error, with conditions that say that the operation failed, if the
-- error was not reported before.
pub refresh-scan_volumes_stopped :
    (front : List VolumeBackup) (vb : VolumeBackup) (rest : List VolumeBackup) {n : Str}
    {e : StatusError} (rfc3339 : Time → Str) (now : ℕ → Time) (s : VirtualMachineBackupStatus)
    (t : Str)
    → AllReady front
    → vb.name ≡ some n
    → vb.error ≡ some e
    → is_true vb.ready_to_use ≡ true
    → reports s.error (text "VolumeSnapshot " ++ (n ++ text " in error state")) ≡ false
    → (message : Str) × (scan_volumes true (front ++ vb ∷ rest) ≡ ok (true, message))
      × ((refresh rfc3339 now true message s).ready_to_use ≡ some true)
      × (reports (refresh rfc3339 now true message s).error message ≡ true)
      × Says
          (refresh rfc3339 now true message s).conditions
          (new_progressing_condition condition_false (text "Error") message t)
      × Says
          (refresh rfc3339 now true message s).conditions
          (new_ready_condition condition_false [] (text "Not Ready") t)
refresh-scan_volumes_stopped front vb rest {n} rfc3339 now s t all name error ready fresh =
    let message = text "VolumeSnapshot " ++ (n ++ text " in error state") in
    let (told, failed, unready) =
      refresh_fails rfc3339 now true message s t (error_text-ne-nil n) fresh in
    (
      message,
      scan_volumes-AllReady front vb rest all name error ready,
      unfold refresh in refl,
      told,
      failed,
      unready,
    )
