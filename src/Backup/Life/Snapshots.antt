-- ===== src/Backup/Life/Snapshots.antt =====
-- The pass over the snapshots leaves the backups alone up to its own write.
use hci_controller_manager.Base.{Str, List, [], ◌∷◌, ◌≡◌}
use hci_controller_manager.Base.Keeps.{
  Keeps, Any, Keeps-value, Quiet-elim, Quiet-bind, Quiet-pure, quiet_rules,
}
use hci_controller_manager.Base.Dict.{Dict}
use hci_controller_manager.Api.{VirtualMachineBackup, VolumeSnapshotClass, VolumeBackup}
use hci_controller_manager.Env.{Env}
use hci_controller_manager.Env.Calm.{CalmEnv}
use hci_controller_manager.Backup.Target.{sanitize_volume_backups}
use hci_controller_manager.Backup.Snapshots.{
  SnapshotPass, visited, create_volume_snapshot_content, snapshot_from_backup, snapshot_from_claim,
  snapshot_to_create, create_volume_snapshot, get_volume_snapshot, ensure_volume_snapshot,
  snapshot_loop,
}
use hci_controller_manager.Backup.Snapshots.Laws.{snapshot_loop_same}

module _ {W : Type 0} {I : W → Type 0} (h : Env W) (c : CalmEnv I h) where
  create_volume_snapshot_content-Keeps :
      (b : VirtualMachineBackup) (vb : VolumeBackup) (k : VolumeSnapshotClass)
      → Keeps I Any (create_volume_snapshot_content h b vb k)
  unfolding create_volume_snapshot_content
  create_volume_snapshot_content-Keeps b vb k =
      search
        (
          quiet_rules, c.snapshot_contents.get_keeps, c.snapshot_contents.create_keeps,
          c.longhorn_backups.get_keeps,
        )
        depth 14

  snapshot_to_create-Keeps :
      (b : VirtualMachineBackup) (vb : VolumeBackup) (n : Str) (k : VolumeSnapshotClass)
      → Keeps I Any (snapshot_to_create h b vb n k)
  unfolding snapshot_to_create snapshot_from_backup snapshot_from_claim
  snapshot_to_create-Keeps b vb n k =
      search (quiet_rules, create_volume_snapshot_content-Keeps, c.claims.get_keeps) depth 8

  create_volume_snapshot-Keeps :
      (b : VirtualMachineBackup) (vb : VolumeBackup) (k : VolumeSnapshotClass)
      → Keeps I Any (create_volume_snapshot h b vb k)
  unfolding create_volume_snapshot
  create_volume_snapshot-Keeps b vb k =
      search
        (
          quiet_rules, snapshot_to_create-Keeps, c.snapshots.create_keeps, c.record_event_keeps,
          c.snapshots.get_keeps,
        )
        depth 8

  ensure_volume_snapshot-Keeps :
      (b : VirtualMachineBackup) (d : Dict VolumeSnapshotClass) (vb : VolumeBackup) (n : Str)
      → Keeps I Any (ensure_volume_snapshot h b d vb n)
  unfolding ensure_volume_snapshot get_volume_snapshot
  ensure_volume_snapshot-Keeps b d vb n =
      search (quiet_rules, c.snapshots.get_keeps, create_volume_snapshot-Keeps) depth 8

  snapshot_loop-Keeps :
      (b : VirtualMachineBackup) (d : Dict VolumeSnapshotClass) (vbs : List VolumeBackup)
      → Keeps I Any (snapshot_loop h b d vbs)
  unfolding snapshot_loop
  snapshot_loop-Keeps b d [] = Quiet-pure _
  snapshot_loop-Keeps b d (vb ∷ vbs) =
      let rest = snapshot_loop-Keeps b d vbs in
      Quiet-elim vb.name _ _ (Quiet-bind rest (λ pass. Quiet-pure _)) (λ n.
        Quiet-bind (ensure_volume_snapshot-Keeps b d vb n) (λ found.
          Quiet-elim found _ _ (Quiet-pure _) (λ s. Quiet-bind rest (λ pass. Quiet-pure _))))

  -- The volumes of a pass are those that it was given, but for what their snapshots tell.
  abbrev pub SameVolumes : List VolumeBackup → SnapshotPass → Type 0
  SameVolumes vbs pass =
      (vbs' : List VolumeBackup)
      → pass ≡ visited vbs'
      → sanitize_volume_backups vbs' ≡ sanitize_volume_backups vbs

  pub snapshot_loop-SameVolumes :
      (b : VirtualMachineBackup) (d : Dict VolumeSnapshotClass) (vbs : List VolumeBackup)
      → Keeps I (SameVolumes vbs) (snapshot_loop h b d vbs)
  snapshot_loop-SameVolumes b d vbs =
      Keeps-value (snapshot_loop-Keeps b d vbs)
        (λ pass w v e vbs' p. snapshot_loop_same h b d vbs vbs' w v (rw p at e))
