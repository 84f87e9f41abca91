-- ===== src/Restore/Life/Laws.antt =====
-- What outlasts the life of a restore.
use hci_controller_manager.Base.{
  Str, text, [], ◌∷◌, if◌then◌else◌, elements, ◌≡◌, refl, ◌∙◌, Bool, true, false, not, ◌&&◌, Option,
  none, some, List, arith,
}
use hci_controller_manager.Api.{
  VirtualMachineRestore, VirtualMachine, OwnerReference, VolumeRestore, VirtualMachineRestoreStatus,
  condition_true, condition_false,
}
use hci_controller_manager.Backup.State.{is_set, is_empty}
use hci_controller_manager.Restore.State.{
  is_vm_restore_progressing, is_new_vm_or_has_retain_policy, is_vm_restore_missing_volumes,
  update_restore_condition, config_vm_owner,
}
use hci_controller_manager.Restore.Plan.{nil_if_empty, claim_names}
use hci_controller_manager.Restore.Reconcile.{report}
use hci_controller_manager.Restore.Life.{
  RestoreStep, init, give_up, plan, adopt, wait, complete, Life, here, next, with_status,
}

abbrev target_uid_of : VirtualMachineRestore → Option Str
target_uid_of r = elim r.status [ none ↦ none | some s ↦ s.target_uid ]

abbrev pub has_volumes : VirtualMachineRestore → Bool
has_volumes r = elim r.status [ none ↦ false | some s ↦ not (is_vm_restore_missing_volumes r s) ]

abbrev pub restored_at : VirtualMachineRestore → Bool
restored_at r = elim r.status [ none ↦ false | some s ↦ is_set s.restore_time ]

-- The machine is the one owner of the restore, as its controller and under its name and UID, and the
-- UID on record is the same.
abbrev pub OwnedBy : VirtualMachine → VirtualMachineRestore → Type 0
OwnedBy vm r =
    (ref : OwnerReference) × (r.object_meta.owner_references ≡ ref ∷ [])
    × (ref.name ≡ vm.object_meta.name)
    × (ref.uid ≡ vm.object_meta.uid)
    × (ref.controller ≡ some true)
    × (target_uid_of r ≡ some vm.object_meta.uid)

abbrev owner_of : Str → Str → VirtualMachine → OwnerReference
owner_of api_version kind vm = record {
  api_version = api_version;
  kind = kind;
  name = vm.object_meta.name;
  uid = vm.object_meta.uid;
  controller = some true;
  block_owner_deletion = some true;
}

-- A restore has neither an owner nor a machine on record, or the same machine as both. A complete one
-- has its volumes, that machine, and the time of its end.
pub record IsTied (r : VirtualMachineRestore) : Type 0 where
  pub free : is_empty r.object_meta.owner_references ≡ true → target_uid_of r ≡ none
  pub fresh : r.status ≡ none → is_empty r.object_meta.owner_references ≡ true
  pub owned : is_empty r.object_meta.owner_references ≡ false → (vm : VirtualMachine) × OwnedBy vm r
  pub finished :
      is_vm_restore_progressing r ≡ false
      → (has_volumes r ≡ true)
        × (is_empty r.object_meta.owner_references ≡ false)
        × (restored_at r ≡ true)

-- A status with the same machine on record, in the place of `s`
kept_owner :
    (r : VirtualMachineRestore) (s s' : VirtualMachineRestoreStatus)
    → r.status ≡ some s
    → s'.target_uid ≡ s.target_uid
    → (is_empty r.object_meta.owner_references ≡ false → (vm : VirtualMachine) × OwnedBy vm r)
    → is_empty r.object_meta.owner_references ≡ false
    → (vm : VirtualMachine) × OwnedBy vm (with_status r s')
kept_owner r s s' at same owned e =
    let (vm, (ref, owner, name, uid, controller, target)) = owned e in
    (vm, (ref, owner, name, uid, controller, ground (arith, at, same, target)))

pub step-IsTied : {r q : VirtualMachineRestore} → RestoreStep r q → IsTied r → IsTied q
unfolding is_vm_restore_progressing report update_restore_condition is_vm_restore_missing_volumes
    is_new_vm_or_has_retain_policy
step-IsTied {r} (init at p fresh) t = record {
  free = λ e. refl;
  fresh = λ e. absurd (cc);
  owned = λ e. absurd (ground (arith, e, t.fresh fresh));
  finished = ground (arith);
}
step-IsTied {r} (give_up s at message p e) t = record {
  free = ground (arith, e, t.free);
  fresh = λ f. absurd (cc);
  owned =
      kept_owner r s (report at condition_false condition_false (text "Error") message message s) e
        refl t.owned;
  finished = ground (arith, p.incomplete, e);
}
step-IsTied {r} (plan s backup b vrs p e missing ready known is_plan) t = record {
  free = ground (arith, e, t.free);
  fresh = λ f. absurd (cc);
  owned =
      kept_owner r s
        (record s {
          volume_restores = some vrs;
          deleted_volumes =
              if not (is_new_vm_or_has_retain_policy r) && not (is_set s.deleted_volumes)
              then nil_if_empty (claim_names (elements b.volume_backups))
              else s.deleted_volumes;
        })
        e refl t.owned;
  finished = ground (arith, p.incomplete, e);
}
step-IsTied {r} (adopt s vm api kind v free) t = record {
  free = λ e. absurd (unfold config_vm_owner in ground (arith));
  fresh = λ f. absurd (cc);
  owned = λ e. (
    vm,
    (
      owner_of api kind vm,
      unfold config_vm_owner in refl,
      refl,
      refl,
      refl,
      ground (arith, t.free free, v.at_status),
    ),
  );
  finished = ground (arith, v.pending.incomplete, v.at_status);
}
step-IsTied {r} (wait s at progressing m n v owned) t = record {
  free = ground (arith, owned);
  fresh = λ f. absurd (cc);
  owned = kept_owner r s (report at progressing condition_false [] m n s) v.at_status refl t.owned;
  finished = ground (arith, v.pending.incomplete, v.at_status);
}
step-IsTied {r} (complete s vm at now v owned ready) t = record {
  free = ground (arith, owned);
  fresh = λ f. absurd (cc);
  owned =
      kept_owner r s
        (report at condition_false condition_true [] (text "Operation complete")
          (text "Operation complete") (record s { restore_time = some now; complete = some true }))
        v.at_status refl t.owned;
  finished = ground (arith, v.planned, owned);
}

abbrev pub volumes_of : VirtualMachineRestore → Option (List VolumeRestore) × Option (List Str)
volumes_of r = elim r.status [
  | none ↦ (none, none)
  | some s ↦ (s.volume_restores, s.deleted_volumes)
]

step-keeps_volumes :
    {r q : VirtualMachineRestore}
    → RestoreStep r q
    → has_volumes r ≡ true
    → (has_volumes q ≡ true) × (volumes_of q ≡ volumes_of r)
unfolding report update_restore_condition is_vm_restore_missing_volumes
    is_new_vm_or_has_retain_policy
step-keeps_volumes (init at p fresh) k = ground (arith, fresh, k)
step-keeps_volumes (give_up s at message p e) k = ground (arith, e, k)
step-keeps_volumes (plan s backup b vrs p e missing ready known is_plan) k =
    ground (arith, e, missing, k)
step-keeps_volumes (adopt s vm api kind v free) k = ground (arith, v.at_status, k)
step-keeps_volumes (wait s at progressing m n v owned) k = ground (arith, v.at_status, k)
step-keeps_volumes (complete s vm at now v owned ready) k = ground (arith, v.at_status, k)

-- A restore that has its volumes keeps exactly these, and the claims to delete, for the rest of its
-- life.
pub Life-keeps_volumes :
    {r q : VirtualMachineRestore}
    → has_volumes r ≡ true
    → Life r q
    → (has_volumes q ≡ true) × (volumes_of q ≡ volumes_of r)
Life-keeps_volumes k here = (k, refl)
Life-keeps_volumes k (next life step) =
    let (h, v) = Life-keeps_volumes k life in
    let (h', v') = step-keeps_volumes step h in (h', v' ∙ v)
