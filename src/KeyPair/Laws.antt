-- ===== src/KeyPair/Laws.antt =====
-- On key pairs.
use hci_controller_manager.Base.{
  Str, text, ◌≡◌, ◌≢◌, none, List, [], ◌++◌, nat_eq, list_eq, arith, ap, ◌∙◌, ok, err, Err,
}
use hci_controller_manager.Api.{KeyPair, Condition, condition_false, condition_status_eq}
use hci_controller_manager.Env.{Env}
use hci_controller_manager.Pkg.Condition.{change_cond, write_status, set_status, set_reason}
use hci_controller_manager.Pkg.Condition.Laws.{write_status-type}
use hci_controller_manager.Pkg.Condition.Change.{change_cond_twice, change_cond_idem}
use hci_controller_manager.KeyPair.{
  key_pair_validated, refused_key, validated_key, check_key, on_key_pair_change,
}

abbrev write_refusal : Str → Str → Condition → Condition
write_refusal now reason c = record (write_status now condition_false c) { reason = reason }

set_refusal :
    (now reason : Str) (conditions : List Condition)
    → set_reason key_pair_validated reason
        (set_status key_pair_validated now condition_false conditions)
      ≡ change_cond (write_refusal now reason) key_pair_validated conditions
unfolding set_status set_reason
set_refusal now reason conditions =
    change_cond_twice (write_status now condition_false) (λ c. record c { reason = reason })
      key_pair_validated conditions (write_status-type now condition_false)

refused_key_twice :
    (now later message : Str) (key_pair : KeyPair)
    → refused_key later message (refused_key now message key_pair)
      ≡ refused_key now message key_pair
unfolding refused_key
refused_key_twice now later message key_pair =
    let reason = text "failed to parse the public key, error: " ++ message in
    ap (λ cs. record key_pair { conditions = cs })
      (rw (set_refusal now reason key_pair.conditions, set_refusal later reason)
        (change_cond_idem (write_refusal now reason) (write_refusal later reason) key_pair_validated
          key_pair.conditions (write_status-type now condition_false) (λ c. ground arith)))

module _ {W : Type 0} (h : Env W) where
  abbrev pub IsUnchecked : KeyPair → Type 0
  IsUnchecked key_pair =
      (key_pair.object_meta.deletion_timestamp ≡ none)
      × (key_pair.public_key ≢ [])
      × (key_pair.finger_print ≡ [])

  on_key_pair_change_checks :
      (key_pair : KeyPair) (w : W)
      → IsUnchecked key_pair
      → on_key_pair_change h key_pair w ≡ check_key h key_pair w
  unfolding on_key_pair_change
  on_key_pair_change_checks key_pair w (alive, key, unknown) = rw alive (ground arith)

  abbrev pub now_of : W → Str
  now_of w = h.rfc3339 (h.clock w 0)

  check_key_refuses :
      (key_pair : KeyPair) (e : Err) (w : W)
      → h.fingerprint key_pair.public_key ≡ err e
      → check_key h key_pair w ≡ h.key_pairs.update (refused_key (now_of w) e.message key_pair) w
  unfolding check_key
  check_key_refuses key_pair e w failed = ground (arith, failed)

  -- A key that is parsed is written with its fingerprint, and no later change of what was written
  -- does anything, for a fingerprint that is not empty.
  pub on_key_pair_change_settles :
      (key_pair : KeyPair) (finger_print : Str) (w : W)
      → IsUnchecked key_pair
      → h.fingerprint key_pair.public_key ≡ ok finger_print
      → finger_print ≢ []
      → (on_key_pair_change h key_pair w
          ≡ h.key_pairs.update (validated_key (now_of w) finger_print key_pair) w)
        × ((v : W)
            → on_key_pair_change h (validated_key (now_of w) finger_print key_pair) v ≡ (ok tt, v))
  unfolding check_key on_key_pair_change validated_key
  on_key_pair_change_settles key_pair finger_print w unchecked parsed known = (
    on_key_pair_change_checks key_pair w unchecked ∙ ground (arith, parsed),
    λ v. rw unchecked.0 (ground arith),
  )

  -- A key that cannot be parsed is written with the error; each later change of what was written
  -- parses the key again and writes the same object, with its old time.
  on_key_pair_change_refuses :
      (key_pair : KeyPair) (e : Err) (w : W)
      → IsUnchecked key_pair
      → h.fingerprint key_pair.public_key ≡ err e
      → (on_key_pair_change h key_pair w
          ≡ h.key_pairs.update (refused_key (now_of w) e.message key_pair) w)
        × ((v : W)
            → on_key_pair_change h (refused_key (now_of w) e.message key_pair) v
              ≡ h.key_pairs.update (refused_key (now_of w) e.message key_pair) v)
  on_key_pair_change_refuses key_pair e w unchecked failed = (
    on_key_pair_change_checks key_pair w unchecked ∙ check_key_refuses key_pair e w failed,
    λ v.
        on_key_pair_change_checks (refused_key (now_of w) e.message key_pair) v
          (unfold refused_key in unchecked)
        ∙ check_key_refuses (refused_key (now_of w) e.message key_pair) e v
            (unfold refused_key in failed)
        ∙ ap (λ k. h.key_pairs.update k v)
            (refused_key_twice (now_of w) (now_of v) e.message key_pair),
  )
