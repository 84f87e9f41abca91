-- ===== src/Restore/Life/Calls.antt =====
-- The helpers of a restore's handlers leave the restores alone: they keep whatever the calls on other
-- objects keep.
use hci_controller_manager.Base.{
  Str, ℕ, suc, Bool, true, false, ◌&&◌, List, [], ◌∷◌, ◌≡◌, arith, not, M, Err, pure,
}
use hci_controller_manager.Base.Keeps.{
  Keeps, Any, Keeps-fail, Keeps-pure, Keeps-if, Keeps-bind, Keeps-deref, Quiet-pure, Quiet-deref,
  Quiet-of_outcome, Quiet-elim, Quiet-if, Quiet-bind, Quiet-then, Quiet-catch, Quiet-attempt,
  quiet_rules,
}
use hci_controller_manager.Api.{
  VirtualMachineBackup, VirtualMachineRestore, VirtualMachine, VolumeBackup, VolumeRestore,
  SecretBackup, OwnerReference, ClaimPhase, claim_pending, claim_bound, claim_other, RunStrategy,
  always, rerun_on_failure, manual, halted, other_strategy, backup, snapshot, BackupType,
}
use hci_controller_manager.Base.Dict.{Dict}
use hci_controller_manager.Env.{Env}
use hci_controller_manager.Env.Calm.{Calm, CalmEnv}
use hci_controller_manager.Backup.State.{is_set, is_backup_ready}
use hci_controller_manager.Backup.Life.Reads.{mount_volume-Keeps}
use hci_controller_manager.Restore.Volumes.{
  get_or_create_volume_snapshot_content, get_or_create_volume_snapshot, create_restored_pvc,
  of_phase, reconcile_volume_restore, reconcile_volumes_from, reconcile_volume_restores,
  mount_backup_volumes, mount_longhorn_volumes,
}
use hci_controller_manager.Restore.Machine.{
  get_vm, get_vm_backup, source_of, create_new_vm, apply_restore, reconcile_vm,
  create_or_update_secret, reconcile_secrets, reconcile_secret_backups, start_vm, delete_claims,
  delete_old_pvc,
}

module _ {W : Type 0} {I : W → Type 0} (h : Env W) (c : CalmEnv I h) where
  content-Keeps :
      (r : VirtualMachineRestore) (vb : VolumeBackup)
      → Keeps I Any (get_or_create_volume_snapshot_content h r vb)
  unfolding get_or_create_volume_snapshot_content
  content-Keeps r vb =
      search
        (
          quiet_rules, c.snapshot_contents.get_keeps, c.snapshot_contents.create_keeps,
          c.longhorn_backups.get_keeps,
        )
        depth 14

  snapshot-Keeps :
      (r : VirtualMachineRestore) (vb : VolumeBackup)
      → Keeps I Any (get_or_create_volume_snapshot h r vb)
  unfolding get_or_create_volume_snapshot
  snapshot-Keeps r vb =
      search (quiet_rules, c.snapshots.get_keeps, c.snapshots.create_keeps, content-Keeps) depth 14

  create_restored_pvc-Keeps :
      (r : VirtualMachineRestore) (vb : VolumeBackup) (vr : VolumeRestore)
      → Keeps I Any (create_restored_pvc h r vb vr)
  unfolding create_restored_pvc
  create_restored_pvc-Keeps r vb vr =
      Quiet-bind (Quiet-elim vb.name _ _ (Keeps-fail _) Quiet-pure)
        (λ name. search (quiet_rules, snapshot-Keeps, c.claims.create_keeps) depth 8)

  of_phase-Keeps : (e : Err) (p : ClaimPhase) → Keeps I Any (of_phase e p)
  of_phase-Keeps e claim_pending = Quiet-pure false
  of_phase-Keeps e claim_bound = Quiet-pure true
  of_phase-Keeps e claim_other = Keeps-fail e

  reconcile_volume_restore-Keeps :
      (r : VirtualMachineRestore) (vbs : List VolumeBackup) (i : ℕ) (vr : VolumeRestore)
      → Keeps I Any (reconcile_volume_restore h r vbs i vr)
  unfolding reconcile_volume_restore
  reconcile_volume_restore-Keeps r vbs i vr =
      search (quiet_rules, c.claims.get_keeps, of_phase-Keeps, create_restored_pvc-Keeps) depth 10

  reconcile_volumes_from-Keeps :
      (r : VirtualMachineRestore) (vbs : List VolumeBackup) (i : ℕ) (ready : Bool)
      (vrs : List VolumeRestore)
      → Keeps I Any (reconcile_volumes_from h r vbs i ready vrs)
  unfolding reconcile_volumes_from
  reconcile_volumes_from-Keeps r vbs i ready [] = Quiet-pure ready
  reconcile_volumes_from-Keeps r vbs i ready (vr ∷ vrs) =
      Quiet-bind (reconcile_volume_restore-Keeps r vbs i vr)
        (λ bound. reconcile_volumes_from-Keeps r vbs (suc i) (ready && bound) vrs)

  pub reconcile_volume_restores-Keeps :
      (r : VirtualMachineRestore) (b : VirtualMachineBackup)
      → Keeps I Any (reconcile_volume_restores h r b)
  unfolding reconcile_volume_restores
  reconcile_volume_restores-Keeps r b = search (quiet_rules, reconcile_volumes_from-Keeps)

  mount_backup_volumes-Keeps : (vbs : List VolumeBackup) → Keeps I Any (mount_backup_volumes h vbs)
  unfolding mount_backup_volumes
  mount_backup_volumes-Keeps [] = Quiet-pure tt
  mount_backup_volumes-Keeps (vb ∷ vbs) =
      let rest = mount_backup_volumes-Keeps vbs in
      Quiet-bind (Quiet-catch (c.claims.get_keeps _) (λ e. Keeps-fail _)) (λ pvc.
        Quiet-bind (Quiet-catch (c.longhorn_volumes.get_keeps _) (λ e. Keeps-fail _))
          (λ volume. Quiet-then (mount_volume-Keeps h c volume) rest))

  type-Keeps :
      (t : BackupType) (m n : M W Unit)
      → Keeps I Any m
      → Keeps I Any n
      → Keeps I Any (elim t [ backup ↦ m | _ ↦ n ])
  type-Keeps snapshot m n km kn = kn
  type-Keeps backup m n km kn = km

  pub mount_longhorn_volumes-Keeps :
      (b : VirtualMachineBackup) → Keeps I Any (mount_longhorn_volumes h b)
  unfolding mount_longhorn_volumes
  mount_longhorn_volumes-Keeps b =
      type-Keeps b.spec.type _ _ (Quiet-pure tt)
        (Quiet-bind (Quiet-deref b.status) (λ s. mount_backup_volumes-Keeps _))

  get_vm-Keeps : (r : VirtualMachineRestore) → Keeps I Any (get_vm h r)
  unfolding get_vm
  get_vm-Keeps r = search (quiet_rules, c.virtual_machines.get_keeps) depth 8

  create_new_vm-Keeps :
      (r : VirtualMachineRestore) (b : VirtualMachineBackup) → Keeps I Any (create_new_vm h r b)
  unfolding create_new_vm source_of
  create_new_vm-Keeps r b =
      search (quiet_rules, c.virtual_machines.get_keeps, c.virtual_machines.create_keeps) depth 16

  apply_restore-Keeps :
      (r : VirtualMachineRestore) (b : VirtualMachineBackup) (vm : VirtualMachine)
      → Keeps I Any (apply_restore h r b vm)
  unfolding apply_restore source_of
  apply_restore-Keeps r b vm =
      search (quiet_rules, c.virtual_machines.get_keeps, c.virtual_machines.update_keeps) depth 16

  pub reconcile_vm-Keeps :
      (r : VirtualMachineRestore) (b : VirtualMachineBackup) → Keeps I Any (reconcile_vm h r b)
  unfolding reconcile_vm
  reconcile_vm-Keeps r b = Quiet-bind (get_vm-Keeps r) (λ found.
      Quiet-bind (Quiet-elim found _ _ (create_new_vm-Keeps r b) Quiet-pure)
        (λ vm. apply_restore-Keeps r b vm))

  create_or_update_secret-Keeps :
      (n m : Str) (d : Dict Str) (owners : List OwnerReference)
      → Keeps I Any (create_or_update_secret h n m d owners)
  unfolding create_or_update_secret
  create_or_update_secret-Keeps n m d owners =
      search (quiet_rules, c.secrets.get_keeps, c.secrets.update_keeps, c.secrets.create_keeps)
        depth 8

  reconcile_secrets-Keeps :
      (r : VirtualMachineRestore) (owners : List OwnerReference) (secrets : List SecretBackup)
      → Keeps I Any (reconcile_secrets h r owners secrets)
  unfolding reconcile_secrets
  reconcile_secrets-Keeps r owners [] = Quiet-pure tt
  reconcile_secrets-Keeps r owners (s ∷ secrets) =
      Quiet-then (create_or_update_secret-Keeps _ _ _ owners)
        (reconcile_secrets-Keeps r owners secrets)

  pub reconcile_secret_backups-Keeps :
      (r : VirtualMachineRestore) (b : VirtualMachineBackup) (vm : VirtualMachine)
      → Keeps I Any (reconcile_secret_backups h r b vm)
  unfolding reconcile_secret_backups
  reconcile_secret_backups-Keeps r b vm = search (quiet_rules, reconcile_secrets-Keeps)

  strategy-Keeps :
      (s : RunStrategy) (m n : M W Unit)
      → Keeps I Any m
      → Keeps I Any n
      → Keeps I Any (elim s [
        | always ↦ pure tt
        | rerun_on_failure ↦ pure tt
        | manual ↦ m
        | halted ↦ n
        | other_strategy ↦ pure tt
      ])
  strategy-Keeps always m n km kn = Quiet-pure tt
  strategy-Keeps rerun_on_failure m n km kn = Quiet-pure tt
  strategy-Keeps manual m n km kn = km
  strategy-Keeps halted m n km kn = kn
  strategy-Keeps other_strategy m n km kn = Quiet-pure tt

  pub start_vm-Keeps : (vm : VirtualMachine) → Keeps I Any (start_vm h vm)
  unfolding start_vm
  start_vm-Keeps vm = Quiet-bind (Quiet-of_outcome (h.run_strategy vm)) (λ s.
      strategy-Keeps s _ _
        (Quiet-bind (c.instance_running_keeps _)
          (λ running. Quiet-if running _ _ (Quiet-pure tt) (c.start_keeps _)))
        (c.start_keeps _))

  delete_claims-Keeps : (n : Str) (names : List Str) → Keeps I Any (delete_claims h n names)
  unfolding delete_claims
  delete_claims-Keeps n [] = Quiet-pure tt
  delete_claims-Keeps n (name ∷ names) =
      Quiet-then
        (Quiet-attempt (c.claims.get_keeps _) c.claims.delete_keeps
          (λ e. Quiet-if _ _ _ (c.claims.delete_keeps _) (Keeps-fail e)))
        (delete_claims-Keeps n names)

  pub delete_old_pvc-Keeps : (r : VirtualMachineRestore) → Keeps I Any (delete_old_pvc h r)
  unfolding delete_old_pvc
  delete_old_pvc-Keeps r = search (quiet_rules, delete_claims-Keeps) depth 8

  -- A backup that a restore reads is ready.
  pub get_vm_backup-ready :
      Calm I h.backups
      → (r : VirtualMachineRestore) → Keeps I (λ b. is_backup_ready b ≡ true) (get_vm_backup h r)
  unfolding get_vm_backup
  get_vm_backup-ready backups r = Keeps-bind (backups.get_keeps _) (λ b _.
      Keeps-if (not (is_backup_ready b)) _ _ (λ _. Keeps-fail _)
        (λ ready. Keeps-bind (Keeps-deref b.status (λ s e. tt)) (λ s _.
          Keeps-if (not (is_set s.source_spec)) _ _ (λ _. Keeps-fail _)
            (λ _. Keeps-pure b (ground (arith, ready))))))
