-- ===== src/Pkg/Condition.antt =====
-- pkg/condition/condition.go, on the list `Status.Conditions` of an object: reflection reads and
-- writes the fields of the same names. Each change of a status or a message reads the clock, whose
-- readings in one call are numbered. A status is one of the three that the type documents.
pub mod Change
pub mod Laws
pub mod Status
use hci_controller_manager.Base.{
  Str, text, ℕ, Bool, true, false, ◌&&◌, Option, none, some, List, [], ◌∷◌, ◌==◌, nat_eq, list_eq,
  if◌then◌else◌,
}
use hci_controller_manager.Api.{
  Condition, ConditionStatus, condition_true, condition_false, condition_unknown,
  condition_status_eq,
}

unfoldable pub find_cond : Str → List Condition → Option Condition
find_cond name [] = none
find_cond name (c ∷ conditions) =
    let rest = find_cond name conditions in if c.type == name then some c else rest

-- The condition that `findOrCreateCond` appends.
abbrev pub new_cond : Str → Condition
new_cond name = record {
  type = name;
  status = condition_unknown;
  last_update_time = [];
  last_transition_time = [];
  reason = [];
  message = [];
}

-- `findOrCreateCond`, and what is written to the condition that it returns
unfoldable pub change_cond : (Condition → Condition) → Str → List Condition → List Condition
change_cond f name [] = f (new_cond name) ∷ []
change_cond f name (c ∷ conditions) =
    let rest = change_cond f name conditions in
    if c.type == name then f c ∷ conditions else c ∷ rest

-- `setValue` at the field `Status`, with `touchTS`
abbrev pub write_status : Str → ConditionStatus → Condition → Condition
write_status now status c =
    if c.status == status then c else record c { status = status; last_update_time = now }

-- `setValue` at the field `Message`
abbrev pub write_message : Str → Str → Condition → Condition
write_message now message c =
    if c.message == message then c else record c { message = message; last_update_time = now }

unfoldable pub set_status : Str → Str → ConditionStatus → List Condition → List Condition
set_status name now status = change_cond (write_status now status) name

unfoldable pub set_status_bool : Str → Str → Bool → List Condition → List Condition
unfolding set_status
set_status_bool name now val conditions =
    if val
    then set_status name now condition_true conditions
    else set_status name now condition_false conditions

unfoldable pub set_message : Str → Str → Str → List Condition → List Condition
set_message name now message = change_cond (write_message now message) name

unfoldable pub set_reason : Str → Str → List Condition → List Condition
set_reason name reason = change_cond (λ c. record c { reason = reason }) name

unfoldable pub set_last_updated : Str → Str → List Condition → List Condition
set_last_updated name ts = change_cond (λ c. record c { last_update_time = ts }) name

-- A status as the text it is in the source.
abbrev pub status_text : ConditionStatus → Str
status_text condition_true = text "True"
status_text condition_false = text "False"
status_text condition_unknown = text "Unknown"

-- A field of the condition found, or the empty text.
abbrev pub read_cond : (Condition → Str) → Option Condition → Str
read_cond field none = []
read_cond field (some c) = field c

unfoldable pub get_status : Str → List Condition → Str
unfolding find_cond
get_status name conditions = read_cond (λ c. status_text c.status) (find_cond name conditions)

unfoldable pub get_reason : Str → List Condition → Str
unfolding find_cond
get_reason name conditions = read_cond (λ c. c.reason) (find_cond name conditions)

unfoldable pub get_message : Str → List Condition → Str
unfolding find_cond
get_message name conditions = read_cond (λ c. c.message) (find_cond name conditions)

unfoldable pub get_last_updated : Str → List Condition → Str
unfolding find_cond
get_last_updated name conditions = read_cond (λ c. c.last_update_time) (find_cond name conditions)

unfoldable pub is_true : Str → List Condition → Bool
unfolding get_status
is_true name conditions = get_status name conditions == text "True"

unfoldable pub is_false : Str → List Condition → Bool
unfolding get_status
is_false name conditions = get_status name conditions == text "False"

unfoldable pub is_unknown : Str → List Condition → Bool
unfolding get_status
is_unknown name conditions = get_status name conditions == text "Unknown"

unfoldable pub create_unknown_if_not_exists : Str → Str → List Condition → List Condition
unfolding find_cond set_status
create_unknown_if_not_exists name now conditions = elim (find_cond name conditions) [
  | none ↦ set_status name now condition_unknown conditions
  | some c ↦ conditions
]

unfoldable pub set_message_if_blank : Str → Str → Str → List Condition → List Condition
unfolding get_message set_message
set_message_if_blank name now message conditions =
    if get_message name conditions == []
    then set_message name now message conditions
    else conditions

-- The reason of an error without one.
abbrev pub or_error : Str → Str
or_error reason = if reason == [] then text "Error" else reason

-- `SetError`, with the text of the error if there is one
unfoldable pub set_error : Str → (ℕ → Str) → Str → Option Str → List Condition → List Condition
unfolding set_status set_message set_reason
set_error name now reason none conditions =
    set_reason name reason
      (set_message name (now 1) [] (set_status name (now 0) condition_true conditions))
set_error name now reason (some error) conditions =
    set_reason name (or_error reason)
      (set_message name (now 1) error (set_status name (now 0) condition_false conditions))

unfoldable pub matches_error : Str → Str → Option Str → List Condition → Bool
unfolding is_true is_false get_message get_reason
matches_error name reason none conditions =
    is_true name conditions
    && (get_message name conditions == [])
    && (get_reason name conditions == reason)
matches_error name reason (some error) conditions =
    is_false name conditions
    && (get_message name conditions == error)
    && (get_reason name conditions == or_error reason)
