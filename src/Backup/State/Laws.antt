-- ===== src/Backup/State/Laws.antt =====
-- On the list of conditions of a backup.
use hci_controller_manager.Base.{◌⊎◌, inl, ◌≡◌, ◌≢◌, List, [], ◌∷◌, nat_eq, list_eq, arith}
use hci_controller_manager.Api.{Condition, condition_status_eq}
use hci_controller_manager.Backup.State.{update_condition}

-- The two conditions differ at most in their times.
pub record SameCondition (c d : Condition) : Type 0 where
  pub type : c.type ≡ d.type
  pub status : c.status ≡ d.status
  pub reason : c.reason ≡ d.reason
  pub message : c.message ≡ d.message

-- The first condition of that type says what `c` says.
abbrev pub Says : List Condition → Condition → Type 0
Says [] c = ⊥
Says (x ∷ conditions) c =
    (x.type ≡ c.type) × SameCondition x c ⊎ (x.type ≢ c.type) × Says conditions c

-- What a condition's update says, is said.
pub update_condition-Says :
    (conditions : List Condition) (c d : Condition)
    → SameCondition c d
    → Says (update_condition conditions c) d
unfolding update_condition
update_condition-Says [] c d e = inl (e.type, e)
update_condition-Says (x ∷ conditions) c d e =
    ground (arith, update_condition-Says conditions c d e)

-- An update of one type says the same of every other type.
pub update_condition-Says_ne :
    (conditions : List Condition) (c d : Condition)
    → c.type ≢ d.type
    → Says conditions d
    → Says (update_condition conditions c) d
unfolding update_condition
update_condition-Says_ne [] c d n h = absurd h
update_condition-Says_ne (x ∷ conditions) c d n h =
    ground (arith, update_condition-Says_ne conditions c d n)

-- An update by what is said already changes nothing, the time of the condition included.
pub update_condition_of_Says :
    (conditions : List Condition) (c : Condition)
    → Says conditions c
    → update_condition conditions c ≡ conditions
unfolding update_condition
update_condition_of_Says [] c h = absurd h
update_condition_of_Says (x ∷ conditions) c h =
    ground (arith, update_condition_of_Says conditions c)
