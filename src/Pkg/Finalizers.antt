-- ===== src/Pkg/Finalizers.antt =====
-- pkg/util/util.go. `RemoveFinalizer` deletes from the slice while it ranges over it: all slices
-- share one array, so the model keeps that array.
pub mod Laws
use hci_controller_manager.Base.{
  Str, text, ℕ, zero, suc, ◌-◌, Bool, true, false, Option, none, some, List, [], ◌∷◌, ◌++◌, ◌==◌,
  list_eq, nat_eq, if◌then◌else◌, length, take, get_elem?,
}
use hci_controller_manager.Pkg.Strings.{contains_string}

unfoldable pub construct_finalizer_key : Str → Str
construct_finalizer_key name = text "hci.wjyl.com/" ++ name

unfoldable pub has_finalizer : List Str → Str → Bool
has_finalizer finalizers name = contains_string finalizers (construct_finalizer_key name)

unfoldable pub add_finalizer : List Str → Str → List Str
add_finalizer finalizers name =
    if has_finalizer finalizers name
    then finalizers
    else finalizers ++ (construct_finalizer_key name ∷ [])

-- The array after `append(finalizers[:k], finalizers[k+1:]...)`: the elements behind `k` move down
-- by one, and the last one stays where it was, too.
abbrev pub close_gap : ℕ → List Str → List Str
close_gap k [] = []
close_gap k (x ∷ []) = x ∷ []
close_gap zero (x ∷ y ∷ xs) = y ∷ close_gap zero (y ∷ xs)
close_gap (suc k) (x ∷ y ∷ xs) = x ∷ close_gap k (y ∷ xs)

-- `rounds` elements of the array are left to visit, from `k` on. The result is the array at the
-- end, and whether `newFinalizers` was assigned.
unfoldable pub remove_loop : Str → ℕ → ℕ → List Str → Bool → List Str × Bool
unfolding get_elem?
remove_loop key zero k array assigned = (array, assigned)
remove_loop key (suc rounds) k array assigned =
    let skip = remove_loop key rounds (suc k) array assigned in
    let drop_it = remove_loop key rounds (suc k) (close_gap k array) true in
    elim (get_elem? array k) [ none ↦ skip | some v ↦ if v == key then drop_it else skip ]

-- `newFinalizers` has one element less than the array; it is nil if nothing was removed.
abbrev pub new_finalizers : ℕ → List Str × Bool → List Str
new_finalizers n (array, assigned) = if assigned then take (n - 1) array else []

unfoldable pub remove_finalizer : List Str → Str → List Str
remove_finalizer finalizers name =
    if has_finalizer finalizers name
    then new_finalizers (length finalizers)
        (remove_loop (construct_finalizer_key name) (length finalizers) 0 finalizers false)
    else finalizers
