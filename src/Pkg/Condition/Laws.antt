-- ===== src/Pkg/Condition/Laws.antt =====
-- Reading the conditions back after a write.
use hci_controller_manager.Base.{
  Str, text, ℕ, ◌≡◌, ◌≢◌, refl, true, false, Option, none, some, List, [], ◌∷◌, ◌==◌, nat_eq,
  list_eq, if◌then◌else◌, arith, ap, ◌∙◌, length, Bool, ◌&&◌, ◌↔◌,
}
use hci_controller_manager.Api.{
  Condition, ConditionStatus, condition_true, condition_false, condition_unknown,
  condition_status_eq,
}
use hci_controller_manager.Pkg.Condition.{
  find_cond, change_cond, set_error, matches_error, set_status, set_message, set_reason,
  write_status, write_message, or_error, status_text, read_cond, is_true, is_false, get_status,
  get_message, get_reason,
}
use hci_controller_manager.Pkg.Condition.Change.{
  change_cond_same, change_cond_twice, find_cond-change_cond, found_or_new,
}

-- What SetError makes of a condition.
abbrev status_of : Option Str → ConditionStatus
status_of none = condition_true
status_of (some error) = condition_false

abbrev message_of : Option Str → Str
message_of none = []
message_of (some error) = error

abbrev reason_of : Str → Option Str → Str
reason_of reason none = reason
reason_of reason (some error) = or_error reason

abbrev write_all : (ℕ → Str) → ConditionStatus → Str → Str → Condition → Condition
write_all now status message reason c =
    record (write_message (now 1) message (write_status (now 0) status c)) { reason = reason }

abbrev write_error : (ℕ → Str) → Str → Option Str → Condition → Condition
write_error now reason error =
    write_all now (status_of error) (message_of error) (reason_of reason error)

pub write_status-type :
    (now : Str) (status : ConditionStatus) (c : Condition)
    → (write_status now status c).type ≡ c.type
write_status-type now status c = ground arith

write_two-type :
    (now : ℕ → Str) (status : ConditionStatus) (message : Str) (c : Condition)
    → (write_message (now 1) message (write_status (now 0) status c)).type ≡ c.type
write_two-type now status message c = ground (arith, write_status-type (now 0) status c)

change_cond-write_all :
    (name : Str) (now : ℕ → Str) (status : ConditionStatus) (message reason : Str)
    (conditions : List Condition)
    → set_reason name reason
        (set_message name (now 1) message (set_status name (now 0) status conditions))
      ≡ change_cond (write_all now status message reason) name conditions
unfolding set_status set_message set_reason
change_cond-write_all name now status message reason conditions =
    ap (change_cond (λ c. record c { reason = reason }) name) (
      change_cond_twice (write_status (now 0) status) (write_message (now 1) message) name
        conditions (write_status-type (now 0) status))
    ∙ change_cond_twice (λ c. write_message (now 1) message (write_status (now 0) status c))
        (λ c. record c { reason = reason }) name conditions (write_two-type now status message)

set_error_lem :
    (name : Str) (now : ℕ → Str) (reason : Str) (error : Option Str) (conditions : List Condition)
    → set_error name now reason error conditions
      ≡ change_cond (write_error now reason error) name conditions
unfolding set_error
set_error_lem name now reason none conditions =
    change_cond-write_all name now condition_true [] reason conditions
set_error_lem name now reason (some error) conditions =
    change_cond-write_all name now condition_false error (or_error reason) conditions

find_cond-set_error :
    (j name : Str) (now : ℕ → Str) (reason : Str) (error : Option Str) (conditions : List Condition)
    → find_cond j (set_error name now reason error conditions) ≡ (
        if name == j
        then some (write_error now reason error (found_or_new name (find_cond name conditions)))
        else find_cond j conditions)
find_cond-set_error j name now reason error conditions =
    rw (set_error_lem name now reason error conditions) (
      find_cond-change_cond (write_error now reason error) j name conditions
        (write_two-type now (status_of error) (message_of error)))

find_cond-set_error_self :
    (name : Str) (now : ℕ → Str) (reason : Str) (error : Option Str) (conditions : List Condition)
    → find_cond name (set_error name now reason error conditions)
      ≡ some (write_error now reason error (found_or_new name (find_cond name conditions)))
find_cond-set_error_self name now reason error conditions =
    find_cond-set_error name name now reason error conditions ∙ ground arith

-- SetError leaves the conditions of other names as they are.
pub find_cond-set_error_other :
    (j name : Str) (now : ℕ → Str) (reason : Str) (error : Option Str) (conditions : List Condition)
    → name ≢ j
    → find_cond j (set_error name now reason error conditions) ≡ find_cond j conditions
find_cond-set_error_other j name now reason error conditions n =
    find_cond-set_error j name now reason error conditions ∙ ground arith

-- What MatchesError tests of the condition found.
abbrev Says : Option Condition → ConditionStatus → Str → Str → Type 0
Says none status message reason = ⊥
Says (some c) status message reason =
    (c.status ≡ status) × (c.message ≡ message) × (c.reason ≡ reason)

pub status_text-injective : (s t : ConditionStatus) → status_text s ≡ status_text t → s ≡ t
unfolding text
status_text-injective condition_true condition_true h = refl
status_text-injective condition_false condition_false h = refl
status_text-injective condition_unknown condition_unknown h = refl
status_text-injective condition_true condition_false h = cc
status_text-injective condition_true condition_unknown h = cc
status_text-injective condition_false condition_true h = cc
status_text-injective condition_false condition_unknown h = cc
status_text-injective condition_unknown condition_true h = cc
status_text-injective condition_unknown condition_false h = cc

pub status_text-ne-nil : (s : ConditionStatus) → [] ≢ status_text s
unfolding text
status_text-ne-nil condition_true h = cc
status_text-ne-nil condition_false h = cc
status_text-ne-nil condition_unknown h = cc

abbrev tests : Option Condition → ConditionStatus → Str → Str → Bool
tests found status message reason =
    (read_cond (λ c. status_text c.status) found == status_text status)
    && (read_cond (λ c. c.message) found == message)
    && (read_cond (λ c. c.reason) found == reason)

tests-Says :
    (found : Option Condition) (status : ConditionStatus) (message reason : Str)
    → tests found status message reason ≡ true
    → Says found status message reason
tests-Says none status message reason h = ground (arith, status_text-ne-nil status)
tests-Says (some c) status message reason h =
    (ground (arith, status_text-injective c.status status), ground arith, ground arith)

matches_error-tests :
    (name reason : Str) (error : Option Str) (conditions : List Condition)
    → matches_error name reason error conditions
      ≡ tests
          (find_cond name conditions)
          (status_of error)
          (message_of error)
          (reason_of reason error)
unfolding matches_error is_true is_false get_status get_message get_reason
matches_error-tests name reason none conditions = refl
matches_error-tests name reason (some error) conditions = refl

-- A write of what the condition says already changes nothing.
write_all_same :
    (now : ℕ → Str) (status : ConditionStatus) (message reason : Str) (found : Option Condition)
    → Says found status message reason
    → (c : Condition) × (found ≡ some c) × (write_all now status message reason c ≡ c)
write_all_same now status message reason none h = absurd h
write_all_same now status message reason (some c) h = (c, refl, ground arith)

-- After a write the condition says what was written.
tests-write_all :
    (now : ℕ → Str) (status : ConditionStatus) (message reason : Str) (c : Condition)
    → tests (some (write_all now status message reason c)) status message reason ≡ true
tests-write_all now status message reason c = ground arith

-- After SetError a condition matches the reason and the error, or the lack of one, that were set.
matches_error-set_error :
    (name : Str) (now : ℕ → Str) (reason : Str) (error : Option Str) (conditions : List Condition)
    → matches_error name reason error (set_error name now reason error conditions) ≡ true
matches_error-set_error name now reason error conditions =
    matches_error-tests name reason error (set_error name now reason error conditions)
    ∙ (rw (find_cond-set_error_self name now reason error conditions) (
        tests-write_all now (status_of error) (message_of error) (reason_of reason error)
          (found_or_new name (find_cond name conditions))))

-- SetError changes nothing exactly where MatchesError holds: neither the conditions nor their
-- times.
pub set_error-eq_self :
    (name : Str) (now : ℕ → Str) (reason : Str) (error : Option Str) (conditions : List Condition)
    → (set_error name now reason error conditions ≡ conditions)
      ↔ (matches_error name reason error conditions ≡ true)
set_error-eq_self name now reason error conditions = (
  λ e. rw (← e) (matches_error-set_error name now reason error conditions),
  λ h.
      let (c, found, same) =
        write_all_same now (status_of error) (message_of error) (reason_of reason error)
          (find_cond name conditions)
          (tests-Says (find_cond name conditions) (status_of error) (message_of error)
            (reason_of reason error) (rw (← matches_error-tests name reason error conditions) h)) in
      rw (set_error_lem name now reason error conditions)
        (change_cond_same (write_error now reason error) name c conditions found same),
)

-- After SetError without an error there is a condition, and the one of the name is not False.
pub is_false-set_error :
    (name : Str) (now : ℕ → Str) (reason : Str) (conditions : List Condition)
    → is_false name (set_error name now reason none conditions) ≡ false
unfolding is_false get_status text
is_false-set_error name now reason conditions =
    rw (find_cond-set_error_self name now reason none conditions) (ground arith)

length-change_cond :
    (f : Condition → Condition) (k : Str) (conditions : List Condition)
    → length (change_cond f k conditions) ≢ 0
unfolding change_cond
length-change_cond f k [] h = ground arith
length-change_cond f k (c ∷ conditions) h = ground arith

pub length-set_error :
    (name : Str) (now : ℕ → Str) (reason : Str) (error : Option Str) (conditions : List Condition)
    → length (set_error name now reason error conditions) ≢ 0
length-set_error name now reason error conditions =
    rw (set_error_lem name now reason error conditions)
      (length-change_cond (write_error now reason error) name conditions)
