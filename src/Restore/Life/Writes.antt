-- ===== src/Restore/Life/Writes.antt =====
-- Every write of a restore by OnRestoreChange is a step of its life.
use hci_controller_manager.Base.{
  text, suc, true, false, not, none, some, ◌≡◌, refl, inl, inr, Option, List, [], ◌++◌, Bool, ◌==◌,
  ◌||◌, Err, M, of_outcome, elements, ◌>>=◌, pure, arith, errorf,
}
use hci_controller_manager.Base.Keeps.{
  Keeps, Any, Keeps-pure, Keeps-fail, Keeps-deref, Keeps-if, Keeps-bind, Keeps-of_outcome,
  Keeps-attempt, Quiet-attempt, Quiet-if, Quiet-bind, Quiet-then, Quiet-pure, Quiet-gets,
}
use hci_controller_manager.Api.{
  NamespacedName, VirtualMachineBackup, VirtualMachineBackupStatus, VirtualMachine,
  VirtualMachineRestore, VirtualMachineRestoreStatus, VolumeRestore, restore_eq, condition_false,
  condition_true,
}
use hci_controller_manager.Env.{Env}
use hci_controller_manager.Env.Calm.{Calm, CalmEnv}
use hci_controller_manager.Backup.State.{is_set, is_empty, is_backup_ready}
use hci_controller_manager.Restore.State.{is_vm_restore_progressing, is_vm_restore_missing_volumes}
use hci_controller_manager.Restore.Volumes.{init_volumes_status}
use hci_controller_manager.Restore.Plan.{get_volume_restores}
use hci_controller_manager.Restore.Reconcile.{
  report, times, update_if_changed, init_status, update_status_error,
  update_owner_ref_and_target_uid, finish, update_status, reconcile_resources, advance_restore,
  on_restore_change,
}
use hci_controller_manager.Restore.Life.{
  RestoreStep, init, give_up, plan, adopt, wait, complete, IsPending, HasVolumes, IsPlan,
  with_status,
}
use hci_controller_manager.Restore.Life.Calls.{
  reconcile_volume_restores-Keeps, mount_longhorn_volumes-Keeps, reconcile_vm-Keeps,
  reconcile_secret_backups-Keeps, start_vm-Keeps, delete_old_pvc-Keeps, get_vm_backup-ready,
}

-- What is asked of the world: a read of a restore yields a `Known` object, and `I` outlasts the write
-- of a step from a `Known` object and every call on objects of other kinds.
pub record Observed {W : Type 0} (h : Env W) (I : W → Type 0)
    (Known : VirtualMachineRestore → Type 0) : Type 0 where
  pub calm : CalmEnv I h
  pub backups : Calm I h.backups
  pub get_known : (k : NamespacedName) → Keeps I Known (h.restores.get k)
  pub step_keeps :
      (r q : VirtualMachineRestore) → Known r → RestoreStep r q → Keeps I Any (h.restores.update q)

HasVolumes-at_status :
    {r : VirtualMachineRestore} {s s' : VirtualMachineRestoreStatus}
    → HasVolumes r s
    → r.status ≡ some s'
    → HasVolumes r s'
HasVolumes-at_status v at = record {
  pending = v.pending;
  at_status = at;
  planned = ground (arith, v.planned, v.at_status, at);
}

module _ {W : Type 0} (h : Env W) {I : W → Type 0} {Known : VirtualMachineRestore → Type 0}
    (o : Observed h I Known) (r : VirtualMachineRestore) (seen : Known r) where
  update_if_changed-Keeps :
      (q : VirtualMachineRestore) → RestoreStep r q → Keeps I Any (update_if_changed h r q)
  unfolding update_if_changed
  update_if_changed-Keeps q step = Quiet-if _ _ _ (Quiet-pure tt) (o.step_keeps r q seen step)

  init_status-Keeps : IsPending r → r.status ≡ none → Keeps I Any (init_status h r)
  unfolding init_status
  init_status-Keeps p fresh =
      Quiet-bind (Quiet-gets (times h)) (λ at. o.step_keeps r _ seen (init at p fresh))

  update_status_error-Keeps :
      (e : Err) (event : Bool) → IsPending r → Keeps I Any (update_status_error h r e event)
  unfolding update_status_error
  update_status_error-Keeps e event p = Keeps-bind (Keeps-deref r.status (λ s at. at)) (λ s known.
      Quiet-bind (Quiet-gets (times h)) (λ at.
        Quiet-then
          (Quiet-if
            (r
              == with_status r
                  (report at condition_false condition_false (text "Error") e.message e.message s))
            _ _ (Quiet-pure tt)
            (Quiet-then
              (Quiet-if event _ _
                (o.calm.record_event_keeps (text "Warning") (text "VirtualMachineRestoreError")
                  (text "VirtualMachineRestore encountered error " ++ e.message))
                (Quiet-pure tt))
              (o.step_keeps r _ seen (give_up s at e.message p known))))
          (Keeps-fail e)))

  planned_volumes :
      (s : VirtualMachineRestoreStatus) (b : VirtualMachineBackupStatus)
      (v : Option (List VolumeRestore))
      → s.volume_restores ≡ v
      → Keeps I
          (λ vrs. (made : List VolumeRestore) × (vrs ≡ some made) × IsPlan r s b made)
          (elim v [
            | some volume_restores ↦ pure (some volume_restores)
            | none ↦ of_outcome (get_volume_restores r [] (elements b.volume_backups)) >>= λ made.
                pure (some made)
          ])
  planned_volumes s b (some vrs) e = Keeps-pure _ (vrs, refl, inl e)
  planned_volumes s b none e =
      Keeps-bind
        (Keeps-of_outcome (get_volume_restores r [] (elements b.volume_backups)) (λ a f. f))
        (λ made f. Keeps-pure (some made) (made, refl, inr (e, f)))

  init_volumes_status-Keeps :
      (b : VirtualMachineBackup)
      → IsPending r
      → ((s : VirtualMachineRestoreStatus)
          → r.status ≡ some s
          → is_vm_restore_missing_volumes r s ≡ true)
      → is_backup_ready b ≡ true
      → Keeps I Any (init_volumes_status h r b)
  unfolding init_volumes_status
  init_volumes_status-Keeps b p missing ready =
      Keeps-bind (Keeps-deref r.status (λ s e. e)) (λ s at.
        Keeps-bind (Keeps-deref b.status (λ bs e. e)) (λ bs known.
          Keeps-bind (planned_volumes s bs s.volume_restores refl) (λ vrs (made, e, is_plan).
            o.step_keeps r _ seen
              (rw e (plan s b bs made p at (missing s at) ready known is_plan)))))

  adopt-Keeps :
      (s : VirtualMachineRestoreStatus) (vm : VirtualMachine)
      → HasVolumes r s
      → is_empty r.object_meta.owner_references ≡ true
      → Keeps I Any (update_owner_ref_and_target_uid h r vm)
  unfolding update_owner_ref_and_target_uid
  adopt-Keeps s vm v free = Keeps-bind (Keeps-deref r.status (λ s' e. e)) (λ s' at.
      o.step_keeps r _ seen (
        adopt s' vm h.kubevirt_api_version h.virtual_machine_kind (HasVolumes-at_status v at) free))

  finish-Keeps :
      (s : VirtualMachineRestoreStatus) (vm : VirtualMachine)
      → HasVolumes r s
      → is_empty r.object_meta.owner_references ≡ false
      → vm.ready ≡ true
      → Keeps I Any (finish h r s)
  unfolding finish
  finish-Keeps s vm v owned ready =
      Quiet-attempt (delete_old_pvc-Keeps h o.calm r)
        (λ u. Quiet-then (o.calm.record_event_keeps _ _ _) (
          Quiet-bind (Quiet-gets h.clock) (λ now.
            o.step_keeps r _ seen
              (complete s vm (λ i. h.rfc3339 (now (suc i))) (now 0) v owned ready))))
        (λ e. update_status_error-Keeps _ false v.pending)

  update_status-Keeps :
      (s : VirtualMachineRestoreStatus) (vm : VirtualMachine) (ready : Bool)
      → HasVolumes r s
      → is_empty r.object_meta.owner_references ≡ false
      → Keeps I Any (update_status h r vm ready)
  unfolding update_status
  update_status-Keeps s vm ready v owned = Keeps-bind (Keeps-deref r.status (λ s' e. e)) (λ s' at.
      let v' : HasVolumes r s' = HasVolumes-at_status v at in
      Quiet-bind (Quiet-gets (times h)) (λ now.
        Quiet-if (not ready) _ _
          (update_if_changed-Keeps _ (
            wait s' now condition_true (text "Creating new PVCs") (text "Waiting for new PVCs") v'
              owned))
          (Quiet-attempt (start_vm-Keeps h o.calm vm)
            (λ u. Keeps-if vm.ready _ _ (finish-Keeps s' vm v' owned) (λ _.
              Quiet-bind (Quiet-gets (times h)) (λ later. update_if_changed-Keeps _ (
                wait s' later condition_false (text "Waiting for target vm to be ready")
                  (text "Waiting for target vm to be ready") v' owned))))
            (λ e.
              update_status_error-Keeps (errorf (text "failed to start vm, err:" ++ e.message))
                false v.pending))))

  resources-Keeps : (b : VirtualMachineBackup) → Keeps I Any (reconcile_resources h r b)
  unfolding reconcile_resources
  resources-Keeps b = Quiet-bind (reconcile_volume_restores-Keeps h o.calm r b) (λ ready.
      Quiet-bind (reconcile_vm-Keeps h o.calm r b) (λ vm.
        Quiet-then (reconcile_secret_backups-Keeps h o.calm r b vm) (Quiet-pure (vm, ready))))

  advance_restore-Keeps :
      (s : VirtualMachineRestoreStatus) (b : VirtualMachineBackup)
      → IsPending r
      → r.status ≡ some s
      → is_backup_ready b ≡ true
      → Keeps I Any (advance_restore h r s b)
  unfolding advance_restore
  advance_restore-Keeps s b p at ready =
      let failed = λ (e : Err). update_status_error-Keeps e true p in
      Keeps-if (is_vm_restore_missing_volumes r s) _ _
        (λ missing.
          Quiet-attempt (mount_longhorn_volumes-Keeps h o.calm b)
            (λ u. init_volumes_status-Keeps b p (λ s2 at2. ground (arith, missing, at, at2)) ready)
            failed)
        (λ planned.
          let v : HasVolumes r s = record { pending = p; at_status = at; planned = planned } in
          Quiet-attempt (resources-Keeps b)
            (λ (vm, volumes_ready).
              Keeps-if (is_empty r.object_meta.owner_references) _ _ (adopt-Keeps s vm v)
                (update_status-Keeps s vm volumes_ready v))
            failed)

  status-Keeps :
      (v : Option VirtualMachineRestoreStatus) (m : M W Unit)
      (f : VirtualMachineRestoreStatus → M W Unit)
      → (v ≡ none → Keeps I Any m)
      → ((s : VirtualMachineRestoreStatus) → v ≡ some s → Keeps I Any (f s))
      → Keeps I Any (elim v [ none ↦ m | some s ↦ f s ])
  status-Keeps none m f km kf = km refl
  status-Keeps (some s) m f km kf = kf s refl

  pub on_restore_change-Keeps : Keeps I Any (on_restore_change h r)
  unfolding on_restore_change
  on_restore_change-Keeps =
      Keeps-if (is_set r.object_meta.deletion_timestamp || not (is_vm_restore_progressing r)) _ _
        (λ _. Quiet-pure tt)
        (λ busy.
          let p : IsPending r = record {
            kept = ground (arith, busy);
            incomplete = ground (arith, busy);
          } in
          status-Keeps r.status _ _ (init_status-Keeps p) (λ s at.
            Keeps-attempt (get_vm_backup-ready h o.calm o.backups r)
              (λ b ready. advance_restore-Keeps s b p at ready)
              (λ e. update_status_error-Keeps e true p)))
