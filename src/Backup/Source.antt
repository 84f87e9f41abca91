-- ===== src/Backup/Source.antt =====
-- How a backup begins: its source, the volumes, claims and secrets of that machine, the snapshot
-- classes, and `initBackup` (controllers/hci/virtualmachinebackup_controller.go).
pub mod Laws
use hci_controller_manager.Base.{
  Str, text, ℕ, Bool, true, false, not, ◌&&◌, ◌||◌, Option, none, some, List, [], ◌∷◌, ◌++◌, ◌==◌,
  ◌!=◌, nat_eq, list_eq, if◌then◌else◌, elements, length, M, Outcome, ok, err, panic, Err, pure,
  fail, crash, deref, of_outcome, attempt, catch, ◌>>=◌, ◌>>◌, gets, errorf,
}
use hci_controller_manager.Base.Dict
use hci_controller_manager.Base.Dict.{Dict}
use hci_controller_manager.Api.{
  VirtualMachineBackup, VirtualMachineBackupStatus, VolumeBackup, SecretBackup, BackupType, backup,
  snapshot, VirtualMachine, Volume, AccessCredential, CredentialSource, CloudInitNoCloudSource,
  PersistentVolumeClaim, NamespacedName, Secret, LonghornVolume, VolumeState, detached, detaching,
  longhorn_volume_eq, VolumeSnapshotClass, CsiDriverInfo,
}
use hci_controller_manager.Env.{Env}
use hci_controller_manager.Backup.State.{is_set, or_empty}
use hci_controller_manager.Backup.Machine.{
  class_for, cluster_key, credential_secret_refs, drop_empty, longhorn_system_namespace_name,
  mounted, named, put_claims, secret_of, slashed, type_name, volume_secret_refs,
  volume_to_pvc_mappings,
}

module _ {W : Type 0} (h : Env W) where
  unfoldable pub get_backup_source : VirtualMachineBackup → M W VirtualMachine
  get_backup_source vm_backup = do
    let source = vm_backup.spec.source
    source_vm ←
        if source.kind == h.virtual_machine_kind
        then h.virtual_machines.get
            (record { namespace = vm_backup.object_meta.namespace; name = source.name })
        else fail (errorf (text "unsupported source"))
    if is_set source_vm.object_meta.deletion_timestamp
        then fail (
            errorf (
              text "vm "
              ++ slashed vm_backup.object_meta.namespace source.name
              ++ text " is being deleted"))
        else pure source_vm

  -- The end of the loop body of both functions `mountLonghornVolumes`.
  unfoldable pub mount_volume : LonghornVolume → M W Unit
  mount_volume volume =
      if mounted volume == volume then pure tt else h.longhorn_volumes.update (mounted volume)

  unfoldable pub mount_volumes : Str → List Volume → M W Unit
  mount_volumes namespace [] = pure tt
  mount_volumes namespace (vol ∷ volumes) =
      let rest = mount_volumes namespace volumes in
      elim vol.persistent_volume_claim [
        | none ↦ rest
        | some name ↦ do
          pvc ← catch (h.claims.get (record { namespace = namespace; name = name })) (λ e. fail (
              errorf (
                text "failed to get pvc "
                ++ slashed name namespace
                ++ text ", error: "
                ++ e.message)))
          class ← deref pvc.spec.storage_class_name
          sc ← h.storage_classes.get (cluster_key class)
          if sc.provisioner != h.longhorn_driver_name then rest else do
            volume ←
                catch
                  (h.longhorn_volumes.get (record {
                    namespace = longhorn_system_namespace_name;
                    name = pvc.spec.volume_name;
                  }))
                  (λ e. fail (
                    errorf (
                      text "failed to get volume "
                      ++ slashed name namespace
                      ++ text ", error: "
                      ++ e.message)))
            mount_volume volume
            rest
      ]

  unfoldable pub mount_longhorn_volumes : VirtualMachine → M W Unit
  mount_longhorn_volumes vm = do
    template ← deref vm.spec.template
    mount_volumes vm.object_meta.namespace template.spec.volumes

  unfoldable pub get_backup_pvc : Str → Str → M W PersistentVolumeClaim
  get_backup_pvc namespace name = do
    pvc ← h.claims.get (record { namespace = namespace; name = name })
    if pvc.spec.volume_name == []
        then fail
            (errorf (text "unbound PVC " ++ slashed pvc.object_meta.namespace pvc.object_meta.name))
        else if not (is_set pvc.spec.storage_class_name)
        then fail (
            errorf (
              text "no storage class for PVC "
              ++ slashed pvc.object_meta.namespace pvc.object_meta.name))
        else pure pvc

  -- The loop body of `getVolumeBackups`.
  unfoldable pub get_volume_backup :
      VirtualMachineBackup → VirtualMachine → Str → Str → M W VolumeBackup
  get_volume_backup vm_backup vm volume_name pvc_name = do
    pvc ← get_backup_pvc vm.object_meta.namespace pvc_name
    pv ← h.volumes.get (cluster_key pvc.spec.volume_name)
    driver ← elim pv.csi [
      | none ↦ fail (
          errorf (
            text "PV "
            ++ pv.object_meta.name
            ++ text " is not from CSI driver, cannot take a "
            ++ type_name vm_backup.spec.type))
      | some driver ↦ pure driver
    ]
    pure (record {
      name = some (vm_backup.object_meta.name ++ (text "-volume-" ++ pvc_name));
      volume_name = volume_name;
      csi_driver_name = driver;
      creation_time = none;
      persistent_volume_claim = record {
        object_meta = record {
          name = pvc.object_meta.name;
          namespace = pvc.object_meta.namespace;
          uid = [];
          annotations = pvc.object_meta.annotations;
          labels = pvc.object_meta.labels;
          finalizers = [];
          owner_references = [];
          deletion_timestamp = none;
        };
        spec = pvc.spec;
      };
      longhorn_backup_name = none;
      ready_to_use = some false;
      error = none;
    })

  unfoldable pub volume_backups_of :
      VirtualMachineBackup → VirtualMachine → Dict Str → M W (List VolumeBackup)
  volume_backups_of vm_backup vm [] = pure []
  volume_backups_of vm_backup vm ((volume_name, pvc_name) ∷ pvcs) =
      let rest = volume_backups_of vm_backup vm pvcs in
      do vb ← get_volume_backup vm_backup vm volume_name pvc_name; vbs ← rest; pure (vb ∷ vbs)

  unfoldable pub get_volume_backups :
      VirtualMachineBackup → VirtualMachine → M W (List VolumeBackup)
  get_volume_backups vm_backup vm = do
    template ← deref vm.spec.template
    volume_backups_of vm_backup vm (volume_to_pvc_mappings template.spec.volumes)

  unfoldable pub get_secret_backup_from_secret : Str → Str → M W SecretBackup
  get_secret_backup_from_secret namespace name = do
    secret ← h.secrets.get (record { namespace = namespace; name = name })
    pure (record {
      name = secret.object_meta.name;
      contents = drop_empty secret.contents secret.contents;
    })

  -- The loop over the references, with the full names that are done.
  unfoldable pub secret_backups_of : Str → Dict Bool → List Str → M W (List SecretBackup)
  secret_backups_of namespace secret_backup_map [] = pure []
  secret_backups_of namespace secret_backup_map (name ∷ names) =
      let full_name = namespace ++ b'/' ∷ name in
      let skip = secret_backups_of namespace secret_backup_map names in
      let rest = secret_backups_of namespace (Dict.insert full_name true secret_backup_map) names in
      let fetch = get_secret_backup_from_secret namespace name >>= λ secret_backup.
      rest >>= λ secret_backups. pure (secret_backup ∷ secret_backups) in
      elim (Dict.lookup full_name secret_backup_map) [
        | none ↦ fetch
        | some v ↦ if v then skip else fetch
      ]

  unfoldable pub get_secret_backups : VirtualMachine → M W (List SecretBackup)
  get_secret_backups vm = do
    template ← deref vm.spec.template
    secret_backups_of vm.object_meta.namespace [] (
        credential_secret_refs template.spec.access_credentials
        ++ volume_secret_refs template.spec.volumes)

  -- The loop of `getCSIDriverMap`, with the two maps that it fills.
  unfoldable pub csi_driver_loop :
      Dict CsiDriverInfo
      → BackupType
      → Dict Str
      → Dict VolumeSnapshotClass
      → List VolumeBackup
      → M W (Dict Str × Dict VolumeSnapshotClass)
  csi_driver_loop config type names classes [] = pure (names, classes)
  csi_driver_loop config type names classes (vb ∷ volume_backups) =
      let driver = vb.csi_driver_name in
      let skip = csi_driver_loop config type names classes volume_backups in
      let rest = λ (n : Str) (c : VolumeSnapshotClass).
        csi_driver_loop config type (Dict.insert driver n names) (Dict.insert driver c classes)
          volume_backups in
      if is_set (Dict.lookup driver names) then skip else elim (Dict.lookup driver config) [
        | none ↦
            fail
              (errorf (text "can't find CSI driver " ++ driver ++ text " in setting CSIDriverInfo"))
        | some info ↦ do
          class ← catch (h.snapshot_classes.get (cluster_key (class_for type info))) (λ e. fail (
              errorf (
                text "can't find volumeSnapshotClass "
                ++ class_for type info
                ++ text " for CSI driver "
                ++ driver)))
          rest (class_for type info) class
      ]

  unfoldable pub get_csi_driver_map :
      VirtualMachineBackup → M W (Dict Str × Dict VolumeSnapshotClass)
  get_csi_driver_map vm_backup = do
    value ← gets h.csi_driver_config
    config ← catch (of_outcome (h.decode_csi_driver_config value)) (λ e.
        fail (errorf (text "unmarshal failed, error: " ++ e.message ++ text ", value: " ++ value)))
    status ← deref vm_backup.status
    csi_driver_loop config vm_backup.spec.type [] [] (elements status.volume_backups)
