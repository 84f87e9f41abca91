-- ===== src/Backup/Life/Upload.antt =====
-- The upload of the metadata leaves the backups alone.
use hci_controller_manager.Base.{Str, none, pure, ◌>>=◌}
use hci_controller_manager.Base.Keeps.{
  Keeps, Any, Keeps-fail, Keeps-bind, Keeps-then, Quiet-elim, Quiet-if, Quiet-bind, Quiet-deref,
  Quiet-pure, Quiet-of_outcome, quiet_rules,
}
use hci_controller_manager.Api.{
  VirtualMachineBackup, VirtualMachineBackupMetadata, TargetSetting, TargetType, s3, nfs, unset,
  other_type,
}
use hci_controller_manager.Env.{Env, Driver}
use hci_controller_manager.Env.Calm.{CalmEnv, CalmDriver}
use hci_controller_manager.Backup.Target.{
  get_backup_target_setting, decode_backup_target, set_credentials, open_driver,
  load_backup_metadata_in_backup_target, should_upload, upload_vm_backup_metadata,
}

module _ {W : Type 0} {I : W → Type 0} (h : Env W) (c : CalmEnv I h) where
  pub get_target-Keeps : Keeps I Any (get_backup_target_setting h >>= decode_backup_target h)
  unfolding get_backup_target_setting decode_backup_target
  get_target-Keeps = search (quiet_rules, c.settings.get_keeps) depth 8

  set_credentials-Keeps : Keeps I Any (set_credentials h)
  unfolding set_credentials
  set_credentials-Keeps = search (quiet_rules, c.secrets.get_keeps, c.setenv_keeps) depth 10

  credentials-Keeps :
      (t : TargetType) → Keeps I Any (elim t [ s3 ↦ set_credentials h | _ ↦ pure tt ])
  credentials-Keeps s3 = set_credentials-Keeps
  credentials-Keeps nfs = Quiet-pure tt
  credentials-Keeps unset = Quiet-pure tt
  credentials-Keeps (other_type n) = Quiet-pure tt

  pub open_driver-Keeps : (t : TargetSetting) → Keeps I (CalmDriver I) (open_driver h t)
  unfolding open_driver
  open_driver-Keeps t = Keeps-then (credentials-Keeps t.type) (c.driver_keeps _)

  load-Keeps :
      (p : Str) (d : Driver W)
      → CalmDriver I d
      → Keeps I Any (load_backup_metadata_in_backup_target h p d)
  unfolding load_backup_metadata_in_backup_target
  load-Keeps p d k = search (quiet_rules, k.file_exists_keeps, k.read_keeps) depth 8

  should_upload-Keeps :
      (d : Driver W) (p : Str) (m : VirtualMachineBackupMetadata)
      → CalmDriver I d
      → Keeps I Any (should_upload h d p m)
  unfolding should_upload
  should_upload-Keeps d p m k = Quiet-bind (k.file_exists_keeps p) (λ exists.
      Quiet-if _ _ _ (Quiet-pure _) (Quiet-bind (load-Keeps p d k) (λ remote. Quiet-pure _)))

  pub upload_vm_backup_metadata-Keeps :
      (b : VirtualMachineBackup) → Keeps I Any (upload_vm_backup_metadata h b none)
  unfolding upload_vm_backup_metadata
  upload_vm_backup_metadata-Keeps b = Quiet-bind (Quiet-deref b.status) (λ s.
      Quiet-bind (Quiet-elim s.backup_target _ _ (Keeps-fail _) Quiet-pure) (λ bt.
        Quiet-bind get_target-Keeps (λ t. Quiet-if _ _ _ (Quiet-pure tt) (
          Keeps-bind (open_driver-Keeps t) (λ d k. Quiet-bind (Quiet-of_outcome _) (λ json.
            Quiet-bind (should_upload-Keeps d _ _ k)
              (λ up. Quiet-if up _ _ (k.write_keeps _ _) (Quiet-pure tt))))))))
