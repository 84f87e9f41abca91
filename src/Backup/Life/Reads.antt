-- ===== src/Backup/Life/Reads.antt =====
-- The helpers of a backup's handlers leave the backups alone: they keep whatever the calls on other
-- objects keep.
use hci_controller_manager.Base.{Str, true, List, [], ◌∷◌, Bool, ◌++◌, ◌>>=◌, pure}
use hci_controller_manager.Base.Keeps.{
  Keeps, Any, Keeps-fail, Quiet-elim, Quiet-if, Quiet-bind, Quiet-catch, Quiet-then, Quiet-deref,
  Quiet-pure, quiet_rules,
}
use hci_controller_manager.Base.Dict
use hci_controller_manager.Base.Dict.{Dict}
use hci_controller_manager.Api.{
  VirtualMachineBackup, VirtualMachine, LonghornVolume, Volume, CsiDriverInfo, BackupType,
  VolumeSnapshotClass, VolumeBackup,
}
use hci_controller_manager.Env.{Env}
use hci_controller_manager.Env.Calm.{CalmEnv}
use hci_controller_manager.Backup.Source.{
  get_backup_source, mount_volume, mount_volumes, mount_longhorn_volumes, get_backup_pvc,
  get_volume_backup, volume_backups_of, get_volume_backups, get_secret_backup_from_secret,
  secret_backups_of, get_secret_backups, csi_driver_loop, get_csi_driver_map,
}
use hci_controller_manager.Backup.Machine.{class_for}
use hci_controller_manager.Backup.State.{is_set}

module _ {W : Type 0} {I : W → Type 0} (h : Env W) (c : CalmEnv I h) where
  pub get_backup_source-Keeps : (b : VirtualMachineBackup) → Keeps I Any (get_backup_source h b)
  unfolding get_backup_source
  get_backup_source-Keeps b = search (quiet_rules, c.virtual_machines.get_keeps) depth 8

  pub mount_volume-Keeps : (v : LonghornVolume) → Keeps I Any (mount_volume h v)
  unfolding mount_volume
  mount_volume-Keeps v = search (quiet_rules, c.longhorn_volumes.update_keeps) depth 8

  mount_volumes-Keeps : (n : Str) (vs : List Volume) → Keeps I Any (mount_volumes h n vs)
  unfolding mount_volumes
  mount_volumes-Keeps n [] = search quiet_rules
  mount_volumes-Keeps n (v ∷ vs) =
      let rest = mount_volumes-Keeps n vs in
      Quiet-elim v.persistent_volume_claim _ _ rest (λ a.
        Quiet-bind (Quiet-catch (c.claims.get_keeps _) (λ e. Keeps-fail _)) (λ pvc.
          Quiet-bind (Quiet-deref _) (λ class. Quiet-bind (c.storage_classes.get_keeps _) (λ sc.
            Quiet-if _ _ _ rest (
              Quiet-bind (Quiet-catch (c.longhorn_volumes.get_keeps _) (λ e. Keeps-fail _))
                (λ volume. Quiet-then (mount_volume-Keeps volume) rest))))))

  pub mount_longhorn_volumes-Keeps :
      (vm : VirtualMachine) → Keeps I Any (mount_longhorn_volumes h vm)
  unfolding mount_longhorn_volumes
  mount_longhorn_volumes-Keeps vm = search (quiet_rules, mount_volumes-Keeps)

  get_backup_pvc-Keeps : (n m : Str) → Keeps I Any (get_backup_pvc h n m)
  unfolding get_backup_pvc
  get_backup_pvc-Keeps n m = search (quiet_rules, c.claims.get_keeps)

  get_volume_backup-Keeps :
      (b : VirtualMachineBackup) (vm : VirtualMachine) (v p : Str)
      → Keeps I Any (get_volume_backup h b vm v p)
  unfolding get_volume_backup
  get_volume_backup-Keeps b vm v p =
      Quiet-bind (get_backup_pvc-Keeps vm.object_meta.namespace p) (λ pvc.
        Quiet-bind (c.volumes.get_keeps _) (λ pv.
          Quiet-bind (Quiet-elim pv.csi _ _ (Keeps-fail _) Quiet-pure) (λ driver. Quiet-pure _)))

  volume_backups_of-Keeps :
      (b : VirtualMachineBackup) (vm : VirtualMachine) (pvcs : Dict Str)
      → Keeps I Any (volume_backups_of h b vm pvcs)
  unfolding volume_backups_of
  volume_backups_of-Keeps b vm [] = search quiet_rules
  volume_backups_of-Keeps b vm ((v, p) ∷ pvcs) =
      Quiet-bind (get_volume_backup-Keeps b vm v p)
        (λ vb. Quiet-bind (volume_backups_of-Keeps b vm pvcs) (λ vbs. Quiet-pure _))

  pub get_volume_backups-Keeps :
      (b : VirtualMachineBackup) (vm : VirtualMachine) → Keeps I Any (get_volume_backups h b vm)
  unfolding get_volume_backups
  get_volume_backups-Keeps b vm = search (quiet_rules, volume_backups_of-Keeps)

  get_secret_backup-Keeps : (n m : Str) → Keeps I Any (get_secret_backup_from_secret h n m)
  unfolding get_secret_backup_from_secret
  get_secret_backup-Keeps n m = search (quiet_rules, c.secrets.get_keeps)

  secret_backups_of-Keeps :
      (n : Str) (d : Dict Bool) (names : List Str) → Keeps I Any (secret_backups_of h n d names)
  unfolding secret_backups_of
  secret_backups_of-Keeps n d [] = search quiet_rules
  secret_backups_of-Keeps n d (name ∷ names) =
      let full = n ++ b'/' ∷ name in
      let fetch : Keeps I Any (
          get_secret_backup_from_secret h n name >>= λ s.
          secret_backups_of h n (Dict.insert full true d) names >>= λ ss. pure (s ∷ ss)) =
        Quiet-bind (get_secret_backup-Keeps n name) (λ s.
          Quiet-bind (secret_backups_of-Keeps n (Dict.insert full true d) names)
            (λ ss. Quiet-pure _)) in
      Quiet-elim (Dict.lookup full d) _ _ fetch
        (λ v. Quiet-if v _ _ (secret_backups_of-Keeps n d names) fetch)

  pub get_secret_backups-Keeps : (vm : VirtualMachine) → Keeps I Any (get_secret_backups h vm)
  unfolding get_secret_backups
  get_secret_backups-Keeps vm = search (quiet_rules, secret_backups_of-Keeps)

  csi_driver_loop-Keeps :
      (config : Dict CsiDriverInfo) (t : BackupType) (names : Dict Str)
      (classes : Dict VolumeSnapshotClass) (vbs : List VolumeBackup)
      → Keeps I Any (csi_driver_loop h config t names classes vbs)
  unfolding csi_driver_loop
  csi_driver_loop-Keeps config t names classes [] = search quiet_rules
  csi_driver_loop-Keeps config t names classes (vb ∷ vbs) =
      Quiet-if (is_set (Dict.lookup vb.csi_driver_name names)) _ _
        (csi_driver_loop-Keeps config t names classes vbs)
        (Quiet-elim (Dict.lookup vb.csi_driver_name config) _ _ (Keeps-fail _) (λ info.
          Quiet-bind (Quiet-catch (c.snapshot_classes.get_keeps _) (λ e. Keeps-fail _)) (λ class.
            csi_driver_loop-Keeps config t (Dict.insert vb.csi_driver_name (class_for t info) names)
              (Dict.insert vb.csi_driver_name class classes) vbs)))

  pub get_csi_driver_map-Keeps : (b : VirtualMachineBackup) → Keeps I Any (get_csi_driver_map h b)
  unfolding get_csi_driver_map
  get_csi_driver_map-Keeps b = search (quiet_rules, csi_driver_loop-Keeps) depth 8
