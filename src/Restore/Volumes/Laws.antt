-- ===== src/Restore/Volumes/Laws.antt =====
-- On the volumes of a restore: their order, their annotations, and their claims.
use hci_controller_manager.Base.{
  Str, ◌≡◌, ◌≢◌, refl, ◌↔◌, true, false, none, some, List, [], ◌∷◌, nat_eq, list_eq, if◌then◌else◌,
  ℕ, suc, Outcome, ok, err, panic, arith, Option-cases, Bool-cases, inl, inr, bind-ok, deref,
  get_elem?, ◌>>=◌, ◌>>◌, is_not_found, sym, ◌∙◌, cases-ok, pure-ok, pure, fail, Err,
}
use hci_controller_manager.Base.Dict
use hci_controller_manager.Base.Dict.{Dict}
use hci_controller_manager.Api.{
  VolumeBackup, VirtualMachineRestore, VolumeRestore, PersistentVolumeClaim, claim_bound,
  ClaimPhase, claim_pending, claim_other, NamespacedName,
}
use hci_controller_manager.Env.{Env}
use hci_controller_manager.Restore.Volumes.{
  reconcile_volume_restore, reconcile_volumes_from, of_phase, create_restored_pvc,
}
use hci_controller_manager.Restore.Objects.{
  need_skip, kept_annotations, restore_annotations_to_delete,
}
use hci_controller_manager.Restore.Plan.{
  find_restore, new_volume_restore, prepend, get_volume_restores,
}

-- The restores are those of the volume backups, one for one and in their order.
abbrev pub Aligned : List VolumeBackup → List VolumeRestore → Type 0
Aligned [] [] = Unit
Aligned [] (vr ∷ vrs) = ⊥
Aligned (vb ∷ vbs) [] = ⊥
Aligned (vb ∷ vbs) (vr ∷ vrs) = (vr.volume_name ≡ vb.volume_name) × Aligned vbs vrs

find_restore_name :
    (name : Str) (vrs : List VolumeRestore) (vr : VolumeRestore)
    → find_restore name vrs ≡ some vr
    → vr.volume_name ≡ name
unfolding find_restore
find_restore_name name [] vr h = cc
find_restore_name name (x ∷ vrs) vr h = ground (arith, find_restore_name name vrs vr)

prepend-ok :
    (vr : VolumeRestore) (rest : Outcome (List VolumeRestore)) (vrs : List VolumeRestore)
    → prepend vr rest ≡ ok vrs
    → (tail : List VolumeRestore) × (rest ≡ ok tail) × (vrs ≡ vr ∷ tail)
prepend-ok vr (ok tail) vrs h = (tail, refl, cc)
prepend-ok vr (err e) vrs h = cc
prepend-ok vr panic vrs h = cc

-- Where `getVolumeRestores` succeeds, the restored volumes stand in the order of the volume
-- backups, each under the name of its volume.
pub get_volume_restores-Aligned :
    (vm_restore : VirtualMachineRestore) (existing : List VolumeRestore) (vbs : List VolumeBackup)
    (vrs : List VolumeRestore)
    → get_volume_restores vm_restore existing vbs ≡ ok vrs
    → Aligned vbs vrs
unfolding get_volume_restores new_volume_restore
get_volume_restores-Aligned vm_restore existing [] vrs h = ground arith
get_volume_restores-Aligned vm_restore existing (vb ∷ vbs) vrs h =
    elim (Option-cases (find_restore vb.volume_name existing)) [
      | inr (vr, e) ↦
          let (tail, r, t) =
            prepend-ok vr (get_volume_restores vm_restore existing vbs) vrs
              (rw (get_volume_restores, e) at h) in
          rw t (
            find_restore_name vb.volume_name existing vr e,
            get_volume_restores-Aligned vm_restore existing vbs tail r,
          )
      | inl e ↦ elim (Option-cases vb.name) [
        | inl n ↦ absurd (ground arith)
        | inr (name, n) ↦
            let (tail, r, t) =
              prepend-ok (new_volume_restore vm_restore vb name)
                (get_volume_restores vm_restore existing vbs) vrs
                (rw (get_volume_restores, e, n) at h) in
            rw t (refl, get_volume_restores-Aligned vm_restore existing vbs tail r)
      ]
    ]

kept_annotations-lookup :
    (annotations entries : Dict Str) (k v : Str)
    → Dict.lookup k (kept_annotations annotations entries) ≡ some v
    → Dict.lookup k annotations ≡ none
    → need_skip restore_annotations_to_delete k ≡ false
unfolding kept_annotations
kept_annotations-lookup annotations [] k v h n = ground arith
kept_annotations-lookup annotations ((j, u) ∷ entries) k v h n =
    elim (Bool-cases (need_skip restore_annotations_to_delete j)) [
      | inl e ↦ kept_annotations-lookup annotations entries k v (rw e at h) n
      | inr e ↦ elim (list_eq.dec j k) [
        | yes p ↦ rw p at e
        | no q ↦
            kept_annotations-lookup (Dict.insert j u annotations) entries k v (rw e at h)
              (ground (arith, Dict.lookup-insert k j u annotations))
      ]
    ]

-- A restored claim has no annotation under a prefix that is to be deleted.
kept_annotations_clean :
    (entries : Dict Str) (k v : Str)
    → Dict.lookup k (kept_annotations [] entries) ≡ some v
    → need_skip restore_annotations_to_delete k ≡ false
unfolding Dict.lookup
kept_annotations_clean entries k v h = kept_annotations-lookup [] entries k v h refl

module _ {W : Type 0} (h : Env W) (vm_restore : VirtualMachineRestore) where
  -- The claim of the restored volume is there and bound.
  abbrev pub Bound : W → VolumeRestore → Type 0
  Bound w vr =
      (pvc : PersistentVolumeClaim) × (h.claims.get
          (record {
            namespace = vm_restore.object_meta.namespace;
            name = vr.persistent_volume_claim.object_meta.name;
          })
          w
        ≡ (ok pvc, w))
      × (pvc.phase ≡ claim_bound)

  abbrev pub AllBound : W → List VolumeRestore → Type 0
  AllBound w [] = Unit
  AllBound w (vr ∷ vrs) = Bound w vr × AllBound w vrs

  -- Once every claim of the restore is bound, the loop says so and changes nothing.
  pub reconcile_volumes_from_bound :
      (vbs : List VolumeBackup) (i : ℕ) (vrs : List VolumeRestore) (w : W)
      → AllBound w vrs
      → reconcile_volumes_from h vm_restore vbs i true vrs w ≡ (ok true, w)
  unfolding reconcile_volumes_from reconcile_volume_restore
  reconcile_volumes_from_bound vbs i [] w b = refl
  reconcile_volumes_from_bound vbs i (vr ∷ vrs) w ((pvc, e, p), b) =
      rw (e, p) (reconcile_volumes_from_bound vbs (suc i) vrs w b)

  reconcile_volumes_from_not_ready :
      (vbs : List VolumeBackup) (i : ℕ) (vrs : List VolumeRestore) (w w' : W)
      → reconcile_volumes_from h vm_restore vbs i false vrs w ≢ (ok true, w')
  unfolding reconcile_volumes_from
  reconcile_volumes_from_not_ready vbs i [] w w' e = cc
  reconcile_volumes_from_not_ready vbs i (vr ∷ vrs) w w' e =
      let (bound, v, _, r) = bind-ok (reconcile_volume_restore h vm_restore vbs i vr w) e in
      reconcile_volumes_from_not_ready vbs (suc i) vrs v w' r

  of_phase-ok :
      (phase : ClaimPhase) (m : Err) (u v : W)
      → of_phase m phase u ≡ (ok true, v)
      → (phase ≡ claim_bound) × (u ≡ v)
  of_phase-ok claim_pending m u v e = absurd (ground arith)
  of_phase-ok claim_bound m u v e = (refl, (pure-ok e).1)
  of_phase-ok claim_other m u v e = absurd (ground arith)

  -- A claim that is made is not bound yet.
  not_made :
      (vbs : List VolumeBackup) (i : ℕ) (vr : VolumeRestore) (u v : W) (e : Err)
      → (if is_not_found e
            then (deref (get_elem? vbs i) >>= λ volume_backup.
                create_restored_pvc h vm_restore volume_backup vr >> pure false)
            else fail e)
          u
        ≢ (ok true, v)
  not_made vbs i vr u v e t = elim (Bool-cases (is_not_found e)) [
    | inr n ↦ ground arith
    | inl y ↦
        let (vb, u1, _, t1) = bind-ok (deref (get_elem? vbs i) u) (rw y at t) in
        let (_, u2, _, t2) = bind-ok (create_restored_pvc h vm_restore vb vr u1) t1 in ground arith
  ]

  reconcile_volume_restore-Bound :
      (vbs : List VolumeBackup) (i : ℕ) (vr : VolumeRestore) (w v : W)
      → ((key : NamespacedName) (u : W) → (h.claims.get key u).1 ≡ u)
      → reconcile_volume_restore h vm_restore vbs i vr w ≡ (ok true, v)
      → Bound w vr × (w ≡ v)
  unfolding reconcile_volume_restore
  reconcile_volume_restore-Bound vbs i vr w v reads e =
      let key : NamespacedName = record {
        namespace = vm_restore.object_meta.namespace;
        name = vr.persistent_volume_claim.object_meta.name;
      } in
      elim (cases-ok (h.claims.get key w) e) [
        | inl (pvc, u, g, t) ↦
            let (p, q) = of_phase-ok pvc.phase _ u v t in
            let r : u ≡ w = rw g at (reads key w) in ((pvc, rw r at g, p), sym r ∙ q)
        | inr (e', u, g, t) ↦ absurd (not_made vbs i vr u v e' t)
      ]

  -- The loop finds the restore's volumes ready exactly when the claim of every volume is bound, where
  -- the reads of claims change nothing. Then it has made no call that changes anything either.
  pub reconcile_volumes_from_ready :
      (vbs : List VolumeBackup) (i : ℕ) (vrs : List VolumeRestore) (w w' : W)
      → ((key : NamespacedName) (u : W) → (h.claims.get key u).1 ≡ u)
      → (reconcile_volumes_from h vm_restore vbs i true vrs w ≡ (ok true, w'))
        ↔ (AllBound w vrs × (w ≡ w'))
  unfolding reconcile_volumes_from
  reconcile_volumes_from_ready vbs i [] w w' reads = (λ e. (tt, (pure-ok e).1), λ b. rw b.1 refl)
  reconcile_volumes_from_ready vbs i (vr ∷ vrs) w w' reads = (
    λ e.
        let (bound, v, r, t) = bind-ok (reconcile_volume_restore h vm_restore vbs i vr w) e in
        elim (Bool-cases bound) [
          | inr n ↦ absurd (reconcile_volumes_from_not_ready vbs (suc i) vrs v w' (rw n at t))
          | inl y ↦
              let (b, q) = reconcile_volume_restore-Bound vbs i vr w v reads (rw y at r) in
              let (bs, q') =
                (reconcile_volumes_from_ready vbs (suc i) vrs v w' reads).0 (rw y at t) in
              ((b, rw (← q) at bs), q ∙ q')
        ],
    λ b. rw (← b.1) (reconcile_volumes_from_bound vbs i (vr ∷ vrs) w b.0),
  )
