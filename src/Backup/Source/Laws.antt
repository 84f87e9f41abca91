-- ===== src/Backup/Source/Laws.antt =====
-- On the source of a backup: the classes of its CSI drivers, and the contents of its secrets.
use hci_controller_manager.Base.{
  Str, ◌≡◌, ◌≢◌, ◌⊎◌, inl, inr, ap, ◌∙◌, true, some, List, [], ◌∷◌, ◌++◌, ◌==◌, nat_eq, list_eq,
  if◌then◌else◌, elements, M, ok, arith, Option-cases, Bool-cases, bind-ok, err-ne-ok, catch, fail,
  errorf, text, pure-ok,
}
use hci_controller_manager.Base.Dict
use hci_controller_manager.Base.Dict.{Dict}
use hci_controller_manager.Api.{
  VolumeBackup, BackupType, VolumeSnapshotClass, CsiDriverInfo, VirtualMachineBackup,
  VirtualMachineBackupStatus,
}
use hci_controller_manager.Env.{Env}
use hci_controller_manager.Backup.State.{is_set}
use hci_controller_manager.Backup.Source.{csi_driver_loop, get_csi_driver_map}
use hci_controller_manager.Backup.Machine.{drop_empty, class_for, cluster_key}

lookup_nil : (k : Str) → Dict.lookup {V = Str} k [] ≢ some []
unfolding Dict.lookup
lookup_nil k e = cc

lookup_nil_some : (k v : Str) → Dict.lookup {V = Str} k [] ≢ some v
unfolding Dict.lookup
lookup_nil_some k v e = cc

drop_empty_step :
    (k v j u : Str) (contents entries : Dict Str)
    → Dict.lookup k (if u == [] then Dict.erase j contents else contents) ≡ some v
    → Dict.lookup k entries ≢ some []
    → (Dict.lookup k contents ≡ some v) × (Dict.lookup k ((j, u) ∷ entries) ≢ some [])
unfolding Dict.lookup
drop_empty_step k v j u contents entries h full = ground (arith, Dict.lookup-erase k j contents)

-- A backed-up secret holds no empty value, and each value that it holds is the secret's.
drop_empty-lookup :
    (k v : Str) (contents entries : Dict Str)
    → Dict.lookup k (drop_empty contents entries) ≡ some v
    → (Dict.lookup k contents ≡ some v) × (Dict.lookup k entries ≢ some [])
unfolding drop_empty
drop_empty-lookup k v contents [] h = (h, lookup_nil k)
drop_empty-lookup k v contents ((j, u) ∷ entries) h =
    let (same, full) =
      drop_empty-lookup k v (if u == [] then Dict.erase j contents else contents) entries h in
    drop_empty_step k v j u contents entries same full

-- A value that is left in a backed-up secret is not empty, and it is the secret's value.
drop_empty_nonempty :
    (contents : Dict Str) (k v : Str)
    → Dict.lookup k (drop_empty contents contents) ≡ some v
    → (v ≢ []) × (Dict.lookup k contents ≡ some v)
drop_empty_nonempty contents k v h =
    let (same, full) = drop_empty-lookup k v contents contents h in
    (λ e. full (same ∙ ap some e), same)

-- Every volume's driver has a class.
abbrev pub AllNamed : Dict Str → List VolumeBackup → Type 0
AllNamed names [] = Unit
AllNamed names (vb ∷ volume_backups) =
    (is_set (Dict.lookup vb.csi_driver_name names) ≡ true) × AllNamed names volume_backups

-- A class is one that was there, or the configured one of its driver.
abbrev pub Configured : Dict CsiDriverInfo → BackupType → Dict Str → Dict Str → Type 0
Configured config type names names' =
    (driver class : Str)
    → Dict.lookup driver names' ≡ some class
    → (Dict.lookup driver names ≡ some class)
      ⊎ ((info : CsiDriverInfo) × (Dict.lookup driver config ≡ some info)
          × (class ≡ class_for type info))

module _ {W : Type 0} (h : Env W) (config : Dict CsiDriverInfo) (type : BackupType) where
  -- The read of a snapshot class in the loop, with its error.
  abbrev class_read : Str → Str → M W VolumeSnapshotClass
  class_read name driver = catch (h.snapshot_classes.get (cluster_key name)) (λ e. fail (
      errorf (text "can't find volumeSnapshotClass " ++ name ++ text " for CSI driver " ++ driver)))

  from_inserted :
      (names : Dict Str) (driver name d : Str) (info : CsiDriverInfo)
      → Dict.lookup d config ≡ some info
      → (Dict.lookup driver (Dict.insert d (class_for type info) names) ≡ some name)
        ⊎ ((i : CsiDriverInfo) × (Dict.lookup driver config ≡ some i) × (name ≡ class_for type i))
      → (Dict.lookup driver names ≡ some name)
        ⊎ ((i : CsiDriverInfo) × (Dict.lookup driver config ≡ some i) × (name ≡ class_for type i))
  from_inserted names driver name d info c (inr x) = inr x
  from_inserted names driver name d info c (inl x) = elim (list_eq.dec d driver) [
    | yes p ↦
        inr
          (info, rw p at c, ground (arith, Dict.lookup-insert driver d (class_for type info) names))
    | no n ↦ inl (ground (arith, Dict.lookup-insert driver d (class_for type info) names))
  ]

  -- The loop keeps the classes that it has.
  csi_driver_loop_keeps :
      (names : Dict Str) (classes : Dict VolumeSnapshotClass) (vbs : List VolumeBackup) (w w' : W)
      (names' : Dict Str) (classes' : Dict VolumeSnapshotClass) (driver : Str)
      → csi_driver_loop h config type names classes vbs w ≡ (ok (names', classes'), w')
      → is_set (Dict.lookup driver names) ≡ true
      → is_set (Dict.lookup driver names') ≡ true
  unfolding csi_driver_loop
  csi_driver_loop_keeps names classes [] w w' names' classes' driver r s = ground arith
  csi_driver_loop_keeps names classes (vb ∷ vbs) w w' names' classes' driver r s =
      let d : Str = vb.csi_driver_name in
      elim (Bool-cases (is_set (Dict.lookup d names))) [
        | inl k ↦ csi_driver_loop_keeps names classes vbs w w' names' classes' driver (rw k at r) s
        | inr k ↦ elim (Option-cases (Dict.lookup d config)) [
          | inl c ↦ absurd (err-ne-ok (rw (k, c) at r))
          | inr (info, c) ↦
              let (class, v, g, r1) =
                bind-ok (class_read (class_for type info) d w) (rw (k, c) at r) in
              csi_driver_loop_keeps (Dict.insert d (class_for type info) names)
                (Dict.insert d class classes) vbs v w' names' classes' driver r1
                (ground (arith, Dict.lookup-insert driver d (class_for type info) names))
        ]
      ]

  csi_driver_loop-Configured :
      (names : Dict Str) (classes : Dict VolumeSnapshotClass) (vbs : List VolumeBackup) (w w' : W)
      (names' : Dict Str) (classes' : Dict VolumeSnapshotClass)
      → csi_driver_loop h config type names classes vbs w ≡ (ok (names', classes'), w')
      → AllNamed names' vbs × Configured config type names names'
  unfolding csi_driver_loop
  csi_driver_loop-Configured names classes [] w w' names' classes' r = (
    tt,
    λ driver class e.
        inl (rw (ap (λ (p : Dict Str × Dict VolumeSnapshotClass). p.0) (pure-ok r).0) e),
  )
  csi_driver_loop-Configured names classes (vb ∷ vbs) w w' names' classes' r =
      let d : Str = vb.csi_driver_name in
      elim (Bool-cases (is_set (Dict.lookup d names))) [
        | inl k ↦
            let (all, conf) =
              csi_driver_loop-Configured names classes vbs w w' names' classes' (rw k at r) in
            (
              (csi_driver_loop_keeps names classes vbs w w' names' classes' d (rw k at r) k, all),
              conf,
            )
        | inr k ↦ elim (Option-cases (Dict.lookup d config)) [
          | inl c ↦ absurd (err-ne-ok (rw (k, c) at r))
          | inr (info, c) ↦
              let (class, v, g, r1) =
                bind-ok (class_read (class_for type info) d w) (rw (k, c) at r) in
              let (all, conf) =
                csi_driver_loop-Configured (Dict.insert d (class_for type info) names)
                  (Dict.insert d class classes) vbs v w' names' classes' r1 in
              (
                (
                  csi_driver_loop_keeps (Dict.insert d (class_for type info) names)
                      (Dict.insert d class classes) vbs v w' names' classes' d r1
                      (ground (arith, Dict.lookup-insert d d (class_for type info) names)),
                  all,
                ),
                λ driver name e. from_inserted names driver name d info c (conf driver name e),
              )
        ]
      ]

-- Where `getCSIDriverMap` succeeds, every volume's CSI driver has got a snapshot class, and each class
-- is the one that the setting `csi-driver-config` gives for its driver and the type of backup.
pub get_csi_driver_map_Configured :
    {W : Type 0} (h : Env W) (vm_backup : VirtualMachineBackup)
    (status : VirtualMachineBackupStatus) (config : Dict CsiDriverInfo) (w w' : W)
    (names : Dict Str) (classes : Dict VolumeSnapshotClass)
    → vm_backup.status ≡ some status
    → h.decode_csi_driver_config (h.csi_driver_config w) ≡ ok config
    → get_csi_driver_map h vm_backup w ≡ (ok (names, classes), w')
    → AllNamed names (elements status.volume_backups)
      × ((driver class : Str)
          → Dict.lookup driver names ≡ some class
          → (info : CsiDriverInfo) × (Dict.lookup driver config ≡ some info)
            × (class ≡ class_for vm_backup.spec.type info))
unfolding get_csi_driver_map
get_csi_driver_map_Configured h vm_backup status config w w' names classes s d r =
    let (all, conf) =
      csi_driver_loop-Configured h config vm_backup.spec.type [] [] (elements status.volume_backups)
        w w' names classes (rw (d, s) at r) in
    (
      all,
      λ driver class e. elim (conf driver class e) [
        | inl n ↦ absurd (lookup_nil_some driver class n)
        | inr x ↦ x
      ],
    )
