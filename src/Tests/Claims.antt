-- ===== src/Tests/Claims.antt =====
-- Claims and key pairs in the small cluster.
use hci_controller_manager.Base.{text, ◌≡◌, refl, some, [], ◌∷◌, nat_eq, list_eq, ok, panic}
use hci_controller_manager.Base.Dict
use hci_controller_manager.Api.{PersistentVolumeClaim, KeyPair}
use hci_controller_manager.Claims.{set_ownerless_pvc_reference, own_claims}
use hci_controller_manager.Claims.Laws.{
  IsFreeFor, IsOwned, set_ownerless_pvc_reference-IsOwned, own_claims_panics,
}
use hci_controller_manager.KeyPair.{on_key_pair_change, validated_key}
use hci_controller_manager.KeyPair.Laws.{now_of, on_key_pair_change_settles}
use hci_controller_manager.Tests.World.{World, cluster, start_world, meta, bound_claim}
use hci_controller_manager.Tests.Samples.{a_vm}

abbrev free_claim : PersistentVolumeClaim
free_claim = record bound_claim {
  object_meta = record (meta (text "pvc")) { annotations = some [] };
}

free_claim_owned :
    set_ownerless_pvc_reference cluster free_claim a_vm start_world ≡ (ok tt, start_world)
unfolding set_ownerless_pvc_reference Dict.lookup list_eq
free_claim_owned = refl

set_ownerless_pvc_reference-IsOwned_example :
    IsFreeFor a_vm free_claim
    × ((pvc' : PersistentVolumeClaim) × (cluster.claims.update pvc' start_world
          ≡ (ok tt, start_world))
        × IsOwned a_vm free_claim pvc')
set_ownerless_pvc_reference-IsOwned_example =
    set_ownerless_pvc_reference-IsOwned cluster a_vm free_claim start_world start_world refl
      free_claim_owned

own_claims_panics_example :
    own_claims cluster a_vm (text "pvc" ∷ []) start_world ≡ (panic, start_world)
own_claims_panics_example =
    own_claims_panics cluster a_vm bound_claim (text "pvc") [] start_world start_world refl refl
      refl

abbrev a_key_pair : KeyPair
a_key_pair = record {
  object_meta = meta (text "key");
  public_key = text "ssh-rsa";
  finger_print = [];
  conditions = [];
}

on_key_pair_change_settles_example :
    (on_key_pair_change cluster a_key_pair start_world
      ≡ cluster.key_pairs.update
          (validated_key (now_of cluster start_world) (text "aa:bb") a_key_pair)
          start_world)
    × ((v : World)
        → on_key_pair_change cluster
            (validated_key (now_of cluster start_world) (text "aa:bb") a_key_pair)
            v
          ≡ (ok tt, v))
unfolding text
on_key_pair_change_settles_example =
    on_key_pair_change_settles cluster a_key_pair (text "aa:bb") start_world (refl, λ e. cc, refl)
      refl (λ e. cc)
