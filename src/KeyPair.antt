-- ===== src/KeyPair.antt =====
-- controllers/hci/keypair_controller.go. The `ctrl.Result` is always empty.
pub mod Laws
use hci_controller_manager.Base.{
  Str, text, ℕ, Bool, true, false, ◌||◌, Option, none, some, List, [], ◌∷◌, ◌++◌, ◌==◌, ◌!=◌,
  nat_eq, list_eq, if◌then◌else◌, M, Outcome, ok, err, panic, is_not_found, pure, fail, crash,
  attempt,
}
use hci_controller_manager.Api.{NamespacedName, KeyPair, condition_true, condition_false}
use hci_controller_manager.Env.{Env}
use hci_controller_manager.Pkg.Condition.{set_status, set_reason}

-- `KeyPairValidated`
abbrev pub key_pair_validated : Str
key_pair_validated = text "validated"

-- The key pair with what the parser says of its key.
unfoldable pub refused_key : Str → Str → KeyPair → KeyPair
unfolding set_status set_reason
refused_key now message key_pair = record key_pair {
  conditions =
      set_reason key_pair_validated (text "failed to parse the public key, error: " ++ message)
        (set_status key_pair_validated now condition_false key_pair.conditions);
}

unfoldable pub validated_key : Str → Str → KeyPair → KeyPair
unfolding set_status
validated_key now finger_print key_pair = record key_pair {
  finger_print = finger_print;
  conditions = set_status key_pair_validated now condition_true key_pair.conditions;
}

module _ {W : Type 0} (h : Env W) where
  unfoldable pub check_key : KeyPair → M W Unit
  check_key key_pair w =
      let now = h.rfc3339 (h.clock w 0) in
      elim (h.fingerprint key_pair.public_key) [
        | ok finger_print ↦ h.key_pairs.update (validated_key now finger_print key_pair) w
        | err e ↦ h.key_pairs.update (refused_key now e.message key_pair) w
        | panic ↦ crash w
      ]

  unfoldable pub on_key_pair_change : KeyPair → M W Unit
  on_key_pair_change key_pair = elim key_pair.object_meta.deletion_timestamp [
    | some t ↦ pure tt
    | none ↦
        if (key_pair.public_key == []) || (key_pair.finger_print != [])
        then pure tt
        else check_key key_pair
  ]

  unfoldable pub reconcile_key_pair : NamespacedName → M W Unit
  reconcile_key_pair key =
      attempt (h.key_pairs.get key) on_key_pair_change
        (λ e. if is_not_found e then pure tt else fail e)
