-- ===== src/Restore/State/Laws.antt =====
-- The volumes of a restored machine.
use hci_controller_manager.Base.{
  Str, ◌≡◌, ◌≢◌, refl, Option, none, some, List, [], ◌∷◌, list_eq, nat_eq, arith, map, Option-cases,
  inl, inr,
}
use hci_controller_manager.Api.{VolumeRestore, Volume}
use hci_controller_manager.Restore.State.{new_claim, get_new_volumes}
use hci_controller_manager.Restore.Plan.{find_restore}

-- No restore is of a volume of that name.
abbrev pub NoRestore : Str → List VolumeRestore → Type 0
NoRestore name [] = Unit
NoRestore name (vr ∷ vrs) = (vr.volume_name ≢ name) × NoRestore name vrs

-- No two restores are of volumes of one name.
abbrev pub Distinct : List VolumeRestore → Type 0
Distinct [] = Unit
Distinct (vr ∷ vrs) = NoRestore vr.volume_name vrs × Distinct vrs

-- The claim of the first restore of that name, or the one that is there.
abbrev pub claim_of_restore : Str → Option VolumeRestore → Str
claim_of_restore claim none = claim
claim_of_restore claim (some vr) = vr.persistent_volume_claim.object_meta.name

new_claim_absent :
    (name claim : Str) (vrs : List VolumeRestore)
    → NoRestore name vrs
    → new_claim name claim vrs ≡ claim
unfolding new_claim
new_claim_absent name claim [] n = refl
new_claim_absent name claim (vr ∷ vrs) n = ground (arith, new_claim_absent name claim vrs n.1)

new_claim-find_restore :
    (name claim : Str) (vrs : List VolumeRestore)
    → Distinct vrs
    → new_claim name claim vrs ≡ claim_of_restore claim (find_restore name vrs)
unfolding new_claim find_restore
new_claim-find_restore name claim [] d = refl
new_claim-find_restore name claim (vr ∷ vrs) d = elim (list_eq.dec name vr.volume_name) [
  | yes p ↦ ground (
    arith,
    new_claim_absent name (vr.persistent_volume_claim.object_meta.name) vrs (rw (← p) at d.0),
  )
  | no n ↦ ground (arith, new_claim-find_restore name claim vrs d.1)
]

-- The volume with the claim of its restore.
abbrev pub rewired : List VolumeRestore → Volume → Volume
rewired vrs vol = record vol {
  persistent_volume_claim = elim vol.persistent_volume_claim [
    | none ↦ none
    | some claim ↦ some (claim_of_restore claim (find_restore vol.name vrs))
  ];
}

-- Where no two restores are of one volume, a restored machine keeps its volumes in their order, and each
-- that is a claim becomes the claim of the restore of that volume, if there is one.
pub get_new_volumes-map :
    (volumes : List Volume) (vrs : List VolumeRestore)
    → Distinct vrs
    → get_new_volumes volumes vrs ≡ map (rewired vrs) volumes
unfolding get_new_volumes
get_new_volumes-map [] vrs d = refl
get_new_volumes-map (vol ∷ volumes) vrs d = elim (Option-cases vol.persistent_volume_claim) [
  | inl e ↦ rw (e, get_new_volumes-map volumes vrs d) refl
  | inr (claim, e) ↦
      rw (e, new_claim-find_restore vol.name claim vrs d, get_new_volumes-map volumes vrs d) refl
]
