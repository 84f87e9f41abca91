-- ===== src/Pkg/Owners/Sets.antt =====
-- `sets.String` of k8s.io/gengo: a set of texts, with what its documentation says of the operations.
use hci_controller_manager.Base.{
  Str, ℕ, ◌≡◌, Bool, true, false, List, ◌==◌, nat_eq, list_eq, if◌then◌else◌,
}
use hci_controller_manager.Pkg.Strings.{contains_string}

pub record StringSet (S : Type 0) : Type 0 where
  pub empty : S
  pub insert : Str → S → S
  pub delete : Str → S → S
  pub has : S → Str → Bool
  pub len : S → ℕ
  -- `List`, which is sorted, and `UnsortedList`
  pub list : S → List Str
  pub unsorted_list : S → List Str
  -- `NewString`
  pub of_list : List Str → S
  pub has_of_list : (items : List Str) (j : Str) → has (of_list items) j ≡ contains_string items j
  pub has_empty : (j : Str) → has empty j ≡ false
  pub has_insert : (j k : Str) (s : S) → has (insert k s) j ≡ (if k == j then true else has s j)
  pub has_delete : (j k : Str) (s : S) → has (delete k s) j ≡ (if k == j then false else has s j)
  pub len_zero : (s : S) (j : Str) → len s ≡ 0 → has s j ≡ false
  pub has_list : (s : S) (j : Str) → contains_string (list s) j ≡ has s j
  pub has_unsorted_list : (s : S) (j : Str) → contains_string (unsorted_list s) j ≡ has s j
