-- ===== src/Backup/Snapshots/Laws.antt =====
-- The pass over the volumes of a backup, and the snapshots that it creates.
use hci_controller_manager.Base.{
  Str, ◌≡◌, ◌≢◌, refl, sym, ◌∙◌, ◌⊎◌, ap, true, Option, none, some, List, [], ◌∷◌, ok, err, Err,
  Option-cases, Bool-cases, inl, inr, bind-ok, cases-ok, pure-ok, then_pure-ok, err-ne-ok, deref,
  pure, is_not_found, list_eq, nat_eq,
}
use hci_controller_manager.Base.Dict.{Dict}
use hci_controller_manager.Api.{
  VirtualMachineBackup, VolumeBackup, VolumeSnapshot, VolumeSnapshotClass, VolumeSnapshotStatus,
  VolumeSnapshotContent, backup_status_eq,
}
use hci_controller_manager.Env.{Env}
use hci_controller_manager.Backup.Machine.{cluster_key, longhorn_system_namespace_name}
use hci_controller_manager.Pkg.Names.{get_volume_snapshot_content_name}
use hci_controller_manager.Backup.Target.{sanitize_volume_backups}
use hci_controller_manager.Backup.Snapshots.{
  SnapshotPass, requeue, visited, visit, snapshot_loop, ensure_volume_snapshot, new_snapshot,
  create_volume_snapshot_content, snapshot_from_backup,
}
use hci_controller_manager.Backup.Objects.{copy_status, empty_content}

visit-visited :
    (vb : VolumeBackup) (pass : SnapshotPass) (vbs : List VolumeBackup)
    → visit vb pass ≡ visited vbs
    → (tail : List VolumeBackup) × (pass ≡ visited tail) × (vbs ≡ vb ∷ tail)
visit-visited vb requeue vbs h = cc
visit-visited vb (visited tail) vbs h = (tail, refl, cc)

visited-injective : (xs ys : List VolumeBackup) → visited xs ≡ visited ys → xs ≡ ys
visited-injective xs ys h = cc

requeue-ne-visited : (xs : List VolumeBackup) → requeue ≢ visited xs
requeue-ne-visited xs h = cc

sanitize-copy_status :
    (status : Option VolumeSnapshotStatus) (vb : VolumeBackup) (vbs : List VolumeBackup)
    → sanitize_volume_backups (copy_status status vb ∷ vbs) ≡ sanitize_volume_backups (vb ∷ vbs)
unfolding sanitize_volume_backups
sanitize-copy_status none vb vbs = refl
sanitize-copy_status (some s) vb vbs = refl

sanitize-cons :
    (vb : VolumeBackup) (xs ys : List VolumeBackup)
    → sanitize_volume_backups xs ≡ sanitize_volume_backups ys
    → sanitize_volume_backups (vb ∷ xs) ≡ sanitize_volume_backups (vb ∷ ys)
unfolding sanitize_volume_backups
sanitize-cons vb xs ys e = rw e refl

names_content :
    {W : Type 0} (vm_backup : VirtualMachineBackup) (name : Str) (class : VolumeSnapshotClass)
    (content : VolumeSnapshotContent) (v w : W) (snapshot : VolumeSnapshot)
    → pure (new_snapshot vm_backup name class none (some content.object_meta.name) []) v
      ≡ (ok snapshot, w)
    → snapshot.source_content_name ≡ some content.object_meta.name
names_content vm_backup name class content v w snapshot r =
    sym (ap (λ (s : VolumeSnapshot). s.source_content_name) (pure-ok r).0)

module _ {W : Type 0} (h : Env W) where
  -- A pass over the volumes keeps each of them in its place, with all that it had but what its
  -- snapshot's status tells: readiness, creation time and error.
  pub snapshot_loop_same :
      (vm_backup : VirtualMachineBackup) (classes : Dict VolumeSnapshotClass)
      (vbs vbs' : List VolumeBackup) (w w' : W)
      → snapshot_loop h vm_backup classes vbs w ≡ (ok (visited vbs'), w')
      → sanitize_volume_backups vbs' ≡ sanitize_volume_backups vbs
  unfolding snapshot_loop
  snapshot_loop_same vm_backup classes [] vbs' w w' r =
      rw (visited-injective [] vbs' (pure-ok r).0) refl
  snapshot_loop_same vm_backup classes (vb ∷ vbs) vbs' w w' r = elim (Option-cases vb.name) [
    | inl n ↦
        let (pass, v, r1, r2) = bind-ok (snapshot_loop h vm_backup classes vbs w) (rw n at r) in
        let (tail, p, q) = visit-visited vb pass vbs' (pure-ok r2).0 in
        rw q (
          sanitize-cons vb tail vbs
            (snapshot_loop_same vm_backup classes vbs tail w v (rw p at r1)))
    | inr (name, n) ↦
        let (found, v, _, r1) =
          bind-ok (ensure_volume_snapshot h vm_backup classes vb name w) (rw n at r) in
        elim (Option-cases found) [
          | inl f ↦ absurd (requeue-ne-visited vbs' (pure-ok (rw f at r1)).0)
          | inr (snapshot, f) ↦
              let (pass, u, r2, r3) =
                bind-ok (snapshot_loop h vm_backup classes vbs v) (rw f at r1) in
              let (tail, p, q) =
                visit-visited (copy_status snapshot.status vb) pass vbs' (pure-ok r3).0 in
              rw q (
                sanitize-copy_status snapshot.status vb tail
                ∙ sanitize-cons vb tail vbs
                    (snapshot_loop_same vm_backup classes vbs tail v u (rw p at r2)))
        ]
  ]

  created_or_found :
      (vm_backup : VirtualMachineBackup) (vb : VolumeBackup) (class : VolumeSnapshotClass) (w v : W)
      (content : VolumeSnapshotContent) {n : Str}
      → vb.name ≡ some n
      → create_volume_snapshot_content h vm_backup vb class w ≡ (ok content, v)
      → let key = cluster_key (get_volume_snapshot_content_name n) in
        (h.snapshot_contents.get key w ≡ (ok content, v))
        ⊎ ((e : Err) × (u : W) × (h.snapshot_contents.get key w ≡ (err e, u))
            × (is_not_found e ≡ true)
            × (content ≡ empty_content))
  unfolding create_volume_snapshot_content
  created_or_found vm_backup vb class w v content {n} e r =
      let key = cluster_key (get_volume_snapshot_content_name n) in
      elim (cases-ok (h.snapshot_contents.get key w) (rw e at r)) [
        | inl (c, u, g, r1) ↦ inl (rw ((pure-ok r1).0, (pure-ok r1).1) at g)
        | inr (f, u, g, r1) ↦ elim (Bool-cases (is_not_found f)) [
          | inr n ↦ absurd (err-ne-ok (rw n at r1))
          | inl y ↦
              let (longhorn_name, u1, _, r2) =
                bind-ok (deref vb.longhorn_backup_name u) (rw y at r1) in
              let (lh, u2, _, r3) =
                bind-ok
                  (h.longhorn_backups.get
                    (record { namespace = longhorn_system_namespace_name; name = longhorn_name })
                    u1)
                  r2 in
              inr (
                f,
                u,
                g,
                y,
                then_pure-ok (h.snapshot_contents.create _) empty_content content u2 v r3,
              )
        ]
      ]

  -- Where a snapshot is made for a volume with a name from its Longhorn backup, either the content
  -- was found and the snapshot names it, or the content was not found and the snapshot names the
  -- empty text.
  snapshot_from_backup_content :
      (vm_backup : VirtualMachineBackup) (vb : VolumeBackup) (name : Str)
      (class : VolumeSnapshotClass) (w w' : W) (snapshot : VolumeSnapshot) {n : Str}
      → vb.name ≡ some n
      → snapshot_from_backup h vm_backup vb name class w ≡ (ok snapshot, w')
      → let key = cluster_key (get_volume_snapshot_content_name n) in
        ((content : VolumeSnapshotContent) × (h.snapshot_contents.get key w ≡ (ok content, w'))
          × (snapshot.source_content_name ≡ some content.object_meta.name))
        ⊎ ((e : Err) × (v : W) × (h.snapshot_contents.get key w ≡ (err e, v))
            × (is_not_found e ≡ true)
            × (snapshot.source_content_name ≡ some []))
  unfolding snapshot_from_backup create_volume_snapshot_content
  snapshot_from_backup_content vm_backup vb name class w w' snapshot {n} e r =
      let key = cluster_key (get_volume_snapshot_content_name n) in
      let (content, v, r1, r2) =
        bind-ok (create_volume_snapshot_content h vm_backup vb class w) r in
      elim (created_or_found vm_backup vb class w v content e r1) [
        | inl g ↦ inl (
          content,
          rw (pure-ok r2).1 at g,
          names_content vm_backup name class content v w' snapshot r2,
        )
        | inr (f, u, g, y, c) ↦
            inr (f, u, g, y, rw c at (names_content vm_backup name class content v w' snapshot r2))
      ]
