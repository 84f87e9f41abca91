-- ===== src/Pkg/Condition/Change.antt =====
-- A change of one condition of a list, and what is found after it.
use hci_controller_manager.Base.{
  Str, ◌≡◌, Option, none, some, List, [], ◌∷◌, ◌==◌, nat_eq, list_eq, if◌then◌else◌, arith, ap, ◌∙◌,
}
use mathlib.Core.Path.{fun_ext}
use hci_controller_manager.Api.{Condition, condition_status_eq}
use hci_controller_manager.Pkg.Condition.{find_cond, change_cond, new_cond}

-- The condition that a write starts from.
abbrev pub found_or_new : Str → Option Condition → Condition
found_or_new name none = new_cond name
found_or_new name (some c) = c

-- A write that keeps the type changes the first condition of its name, and no other.
pub find_cond-change_cond :
    (f : Condition → Condition) (j k : Str) (conditions : List Condition)
    → ((c : Condition) → (f c).type ≡ c.type)
    → find_cond j (change_cond f k conditions) ≡ (
        if k == j
        then some (f (found_or_new k (find_cond k conditions)))
        else find_cond j conditions)
unfolding find_cond change_cond
find_cond-change_cond f j k [] keep = ground (arith, keep (new_cond k))
find_cond-change_cond f j k (c ∷ conditions) keep =
    ground (arith, keep c, find_cond-change_cond f j k conditions keep)

pub change_cond_twice :
    (f g : Condition → Condition) (k : Str) (conditions : List Condition)
    → ((c : Condition) → (f c).type ≡ c.type)
    → change_cond g k (change_cond f k conditions) ≡ change_cond (λ c. g (f c)) k conditions
unfolding change_cond
change_cond_twice f g k [] keep = ground (arith, keep (new_cond k))
change_cond_twice f g k (c ∷ conditions) keep =
    ground (arith, keep c, change_cond_twice f g k conditions keep)

-- A write that a second one does not change.
pub change_cond_idem :
    (f g : Condition → Condition) (k : Str) (conditions : List Condition)
    → ((c : Condition) → (f c).type ≡ c.type)
    → ((c : Condition) → g (f c) ≡ f c)
    → change_cond g k (change_cond f k conditions) ≡ change_cond f k conditions
change_cond_idem f g k conditions keep same =
    change_cond_twice f g k conditions keep ∙ ap (λ e. change_cond e k conditions) (fun_ext same)

pub change_cond_same :
    (f : Condition → Condition) (k : Str) (c : Condition) (conditions : List Condition)
    → find_cond k conditions ≡ some c
    → f c ≡ c
    → change_cond f k conditions ≡ conditions
unfolding find_cond change_cond
change_cond_same f k c [] e h = cc
change_cond_same f k c (d ∷ conditions) e h = ground (arith, change_cond_same f k c conditions)
