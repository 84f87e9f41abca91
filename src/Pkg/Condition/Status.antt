-- ===== src/Pkg/Condition/Status.antt =====
-- The status of a condition after each write.
use hci_controller_manager.Base.{
  Str, ◌≡◌, ◌≢◌, refl, Option, none, some, List, [], ◌==◌, nat_eq, list_eq, if◌then◌else◌, arith,
  ◌⊎◌, inl, inr,
}
use hci_controller_manager.Api.{Condition, ConditionStatus, condition_status_eq}
use hci_controller_manager.Pkg.Condition.{
  find_cond, set_status, set_message, set_reason, write_status, write_message, get_status,
  status_text, read_cond,
}
use hci_controller_manager.Pkg.Condition.Laws.{write_status-type}
use hci_controller_manager.Pkg.Condition.Change.{find_cond-change_cond, found_or_new}

write_message-type :
    (now message : Str) (c : Condition) → (write_message now message c).type ≡ c.type
write_message-type now message c = ground arith

write_status-status :
    (now : Str) (status : ConditionStatus) (c : Condition)
    → (write_status now status c).status ≡ status
write_status-status now status c = ground arith

write_message-status :
    (now message : Str) (c : Condition) → (write_message now message c).status ≡ c.status
write_message-status now message c = ground arith

pub get_status-set_status :
    (j k now : Str) (status : ConditionStatus) (conditions : List Condition)
    → get_status j (set_status k now status conditions)
      ≡ (if k == j then status_text status else get_status j conditions)
unfolding get_status set_status
get_status-set_status j k now status conditions =
    rw
      (find_cond-change_cond (write_status now status) j k conditions
        (write_status-type now status))
      (ground (arith, write_status-status now status (found_or_new k (find_cond k conditions))))

-- The condition found, if it has a status.
found_status :
    (name : Str) (found : Option Condition)
    → read_cond (λ c. status_text c.status) found ≢ []
    → status_text (found_or_new name found).status ≡ read_cond (λ c. status_text c.status) found
found_status name none n = absurd (n refl)
found_status name (some c) n = refl

pub get_status-set_reason :
    (j k reason : Str) (conditions : List Condition)
    → (k ≢ j) ⊎ (get_status k conditions ≢ [])
    → get_status j (set_reason k reason conditions) ≡ get_status j conditions
unfolding get_status set_reason
get_status-set_reason j k reason conditions (inl n) =
    rw (find_cond-change_cond (λ c. record c { reason = reason }) j k conditions (λ c. refl))
      (ground arith)
get_status-set_reason j k reason conditions (inr n) =
    rw (find_cond-change_cond (λ c. record c { reason = reason }) j k conditions (λ c. refl))
      (ground (arith, found_status k (find_cond k conditions)))

pub get_status-set_message :
    (j k now message : Str) (conditions : List Condition)
    → (k ≢ j) ⊎ (get_status k conditions ≢ [])
    → get_status j (set_message k now message conditions) ≡ get_status j conditions
unfolding get_status set_message
get_status-set_message j k now message conditions (inl n) =
    rw
      (find_cond-change_cond (write_message now message) j k conditions
        (write_message-type now message))
      (ground arith)
get_status-set_message j k now message conditions (inr n) =
    rw
      (find_cond-change_cond (write_message now message) j k conditions
        (write_message-type now message))
      (ground (
        arith,
        found_status k (find_cond k conditions),
        write_message-status now message (found_or_new k (find_cond k conditions)),
      ))
