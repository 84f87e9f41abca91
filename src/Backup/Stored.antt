-- ===== src/Backup/Stored.antt =====
-- apis/hci/v1beta1/virtualmachinebackup_types.go: what is read back of a backup that was written. The
-- list of volumes has the tag `omitempty`, so the JSON of an empty list lacks the field, and is read as
-- nil. The other lists are tested for their length only.
use hci_controller_manager.Base.{Option, none, some, List, [], ◌∷◌}
use hci_controller_manager.Api.{VirtualMachineBackup, VolumeBackup}

-- `VolumeBackups []VolumeBackup `json:"volumeBackups,omitempty"``
abbrev pub omit_empty : Option (List VolumeBackup) → Option (List VolumeBackup)
omit_empty none = none
omit_empty (some []) = none
omit_empty (some (vb ∷ volume_backups)) = some (vb ∷ volume_backups)

abbrev pub read_back : VirtualMachineBackup → VirtualMachineBackup
read_back b = record b {
  status = elim b.status [
    | none ↦ none
    | some s ↦ some (record s { volume_backups = omit_empty s.volume_backups })
  ];
}
