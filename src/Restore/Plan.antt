-- ===== src/Restore/Plan.antt =====
-- Which volumes a restore makes, and which claims it replaces
-- (controllers/hci/virtualmachinerestore_controller.go).
use hci_controller_manager.Base.{
  Str, text, Option, none, some, List, [], ◌∷◌, ◌==◌, nat_eq, list_eq, if◌then◌else◌, ok, err,
  panic, Outcome, errorf,
}
use hci_controller_manager.Api.{VolumeBackup, VirtualMachineRestore, VolumeRestore}
use hci_controller_manager.Backup.Objects.{empty_meta}
use hci_controller_manager.Restore.State.{get_restore_pvc_name}

-- The first restore of a volume of that name.
unfoldable pub find_restore : Str → List VolumeRestore → Option VolumeRestore
find_restore volume_name [] = none
find_restore volume_name (vr ∷ volume_restores) =
    if volume_name == vr.volume_name then some vr else find_restore volume_name volume_restores

-- A restore that is made for a volume backup.
unfoldable pub new_volume_restore : VirtualMachineRestore → VolumeBackup → Str → VolumeRestore
new_volume_restore vm_restore vb name = record {
  volume_name = vb.volume_name;
  persistent_volume_claim = record {
    object_meta = record empty_meta {
      name = get_restore_pvc_name vm_restore vb.volume_name;
      namespace = vm_restore.object_meta.namespace;
    };
    spec = vb.persistent_volume_claim.spec;
  };
  volume_backup_name = name;
}

-- Puts a restore in front of those behind it.
abbrev pub prepend : VolumeRestore → Outcome (List VolumeRestore) → Outcome (List VolumeRestore)
prepend vr (ok vrs) = ok (vr ∷ vrs)
prepend vr (err e) = err e
prepend vr panic = panic

-- `existing` is `vmRestore.Status.VolumeRestores`.
unfoldable pub get_volume_restores :
    VirtualMachineRestore → List VolumeRestore → List VolumeBackup → Outcome (List VolumeRestore)
get_volume_restores vm_restore existing [] = ok []
get_volume_restores vm_restore existing (vb ∷ volume_backups) =
    let rest = get_volume_restores vm_restore existing volume_backups in
    elim (find_restore vb.volume_name existing) [
      | some vr ↦ prepend vr rest
      | none ↦ elim vb.name [
        | none ↦ err (errorf (text "VolumeSnapshotName missing"))
        | some name ↦ prepend (new_volume_restore vm_restore vb name) rest
      ]
    ]

-- The names of the claims that the volume backups were taken of.
unfoldable pub claim_names : List VolumeBackup → List Str
claim_names [] = []
claim_names (vol ∷ volume_backups) =
    vol.persistent_volume_claim.object_meta.name ∷ claim_names volume_backups

-- `append` to a nil slice: nil if there is nothing to append
abbrev pub nil_if_empty : List Str → Option (List Str)
nil_if_empty [] = none
nil_if_empty (x ∷ xs) = some (x ∷ xs)
