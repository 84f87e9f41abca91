-- ===== src/Tests/Condition.antt =====
-- The laws of conditions, images and owners at small inputs.
use hci_controller_manager.Base.{Str, text, ℕ, ◌≡◌, ◌↔◌, true, none, List, [], ◌∷◌, nat_eq, list_eq}
use hci_controller_manager.Api.{Condition, condition_true}
use hci_controller_manager.Pkg.Condition.{set_error, matches_error, new_cond}
use hci_controller_manager.Pkg.Condition.Laws.{set_error-eq_self}

abbrev some_conditions : List Condition
some_conditions =
    new_cond (text "ready") ∷ record (new_cond (text "configured")) { status = condition_true } ∷ []

abbrev stamp : ℕ → Str
stamp i = i ∷ []

set_error-eq_self_example :
    (set_error (text "configured") stamp [] none some_conditions ≡ some_conditions)
    ↔ (matches_error (text "configured") [] none some_conditions ≡ true)
set_error-eq_self_example = set_error-eq_self (text "configured") stamp [] none some_conditions
