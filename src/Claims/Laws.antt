-- ===== src/Claims/Laws.antt =====
-- On the owners of claims.
use hci_controller_manager.Base.{
  Str, text, ◌≡◌, ◌≢◌, refl, Bool, false, ◌&&◌, Option, none, some, List, [], ◌∷◌, ◌==◌, ◌!=◌,
  nat_eq, list_eq, if◌then◌else◌, arith, elements, sym, ◌∙◌, ◌⊎◌, inl, inr, ok, panic, errorf, fail,
  err-ne-ok, panic-ne-ok, Bool-cases, Option-cases,
}
use hci_controller_manager.Base.Dict
use hci_controller_manager.Base.Dict.{Dict, lookup-insert, lookup-erase}
use hci_controller_manager.Api.{PersistentVolumeClaim, VirtualMachine}
use hci_controller_manager.Env.{Env}
use hci_controller_manager.Backup.State.{annotation}
use hci_controller_manager.Claims.{
  pvc_by_vm_index, owner_key, with_annotations, write_owner, set_ownerless_pvc_reference,
  own_claims,
}

-- The annotation of the name of a claim.
abbrev pub claim_annotation : PersistentVolumeClaim → Str → Option Str
claim_annotation pvc k = Dict.lookup k (elements pvc.object_meta.annotations)

-- The claim is of nobody, or of the machine already.
abbrev pub IsFreeFor : VirtualMachine → PersistentVolumeClaim → Type 0
IsFreeFor vm pvc =
    (annotation pvc.object_meta pvc_by_vm_index ≡ [])
    ⊎ (annotation pvc.object_meta pvc_by_vm_index ≡ owner_key vm)

-- The claim with the machine as its owner, and with its other annotations.
abbrev pub IsOwned : VirtualMachine → PersistentVolumeClaim → PersistentVolumeClaim → Type 0
IsOwned vm pvc pvc' =
    (claim_annotation pvc' pvc_by_vm_index ≡ some (owner_key vm))
    × ((k : Str) → pvc_by_vm_index ≢ k → claim_annotation pvc' k ≡ claim_annotation pvc k)

with_owner-IsOwned :
    (vm : VirtualMachine) (pvc : PersistentVolumeClaim) (annotations : Dict Str)
    → pvc.object_meta.annotations ≡ some annotations
    → IsOwned vm pvc
        (with_annotations (some (Dict.insert pvc_by_vm_index (owner_key vm) annotations)) pvc)
with_owner-IsOwned vm pvc annotations e = (
  lookup-insert pvc_by_vm_index pvc_by_vm_index (owner_key vm) annotations ∙ ground arith,
  λ k n. lookup-insert k pvc_by_vm_index (owner_key vm) annotations ∙ ground arith,
)

abbrev is_taken : VirtualMachine → PersistentVolumeClaim → Bool
is_taken vm pvc =
    let owner = annotation pvc.object_meta pvc_by_vm_index in
    (owner != []) && (owner != owner_key vm)

not_taken :
    (owner key : Str) → ((owner != []) && (owner != key)) ≡ false → (owner ≡ []) ⊎ (owner ≡ key)
not_taken owner key free = elim (Bool-cases (owner == key)) [
  | inl same ↦ inr (ground arith)
  | inr other ↦ inl (ground arith)
]

module _ {W : Type 0} (h : Env W) where
  set_ownerless_pvc_reference_alive :
      (vm : VirtualMachine) (pvc : PersistentVolumeClaim) (w : W)
      → pvc.object_meta.deletion_timestamp ≡ none
      → set_ownerless_pvc_reference h pvc vm w
        ≡ (if is_taken vm pvc
              then fail (errorf (text "the volume has been used by other vm"))
              else write_owner h pvc pvc.object_meta.annotations (owner_key vm))
            w
  unfolding set_ownerless_pvc_reference
  set_ownerless_pvc_reference_alive vm pvc w alive = rw alive refl

  set_ownerless_pvc_reference-ok :
      (vm : VirtualMachine) (pvc : PersistentVolumeClaim) (w w' : W)
      → pvc.object_meta.deletion_timestamp ≡ none
      → set_ownerless_pvc_reference h pvc vm w ≡ (ok tt, w')
      → IsFreeFor vm pvc
        × (write_owner h pvc pvc.object_meta.annotations (owner_key vm) w ≡ (ok tt, w'))
  set_ownerless_pvc_reference-ok vm pvc w w' alive run =
      let run' = sym (set_ownerless_pvc_reference_alive vm pvc w alive) ∙ run in
      elim (Bool-cases (is_taken vm pvc)) [
        | inl taken ↦ absurd (err-ne-ok {W = W} (rw taken at run'))
        | inr free ↦ (
          not_taken (annotation pvc.object_meta pvc_by_vm_index) (owner_key vm) free,
          rw free at run',
        )
      ]

  -- SetOwnerlessPVCReference that succeeds on a claim that is not being deleted has found it without
  -- an owner or with this machine as its owner, and has written it with this owner and no other
  -- change of its annotations.
  pub set_ownerless_pvc_reference-IsOwned :
      (vm : VirtualMachine) (pvc : PersistentVolumeClaim) (w w' : W)
      → pvc.object_meta.deletion_timestamp ≡ none
      → set_ownerless_pvc_reference h pvc vm w ≡ (ok tt, w')
      → IsFreeFor vm pvc
        × ((pvc' : PersistentVolumeClaim) × (h.claims.update pvc' w ≡ (ok tt, w'))
            × IsOwned vm pvc pvc')
  set_ownerless_pvc_reference-IsOwned vm pvc w w' alive run =
      let (free, wrote) = set_ownerless_pvc_reference-ok vm pvc w w' alive run in
      elim (Option-cases pvc.object_meta.annotations) [
        | inl e ↦ absurd (panic-ne-ok {W = W} (rw e at wrote))
        | inr (annotations, e) ↦ (
          free,
          (
            with_annotations (some (Dict.insert pvc_by_vm_index (owner_key vm) annotations)) pvc,
            rw e at wrote,
            with_owner-IsOwned vm pvc annotations e,
          ),
        )
      ]

  -- A claim without annotations that is not being deleted makes the loop over the claims of a
  -- machine panic.
  pub own_claims_panics :
      (vm : VirtualMachine) (pvc : PersistentVolumeClaim) (name : Str) (names : List Str) (w w' : W)
      → h.claims.get (record { namespace = vm.object_meta.namespace; name = name }) w ≡ (ok pvc, w')
      → pvc.object_meta.deletion_timestamp ≡ none
      → pvc.object_meta.annotations ≡ none
      → own_claims h vm (name ∷ names) w ≡ (panic, w')
  unfolding own_claims set_ownerless_pvc_reference Dict.lookup
  own_claims_panics vm pvc name names w w' found alive bare = rw (found, alive, bare) (ground arith)
