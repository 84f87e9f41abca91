-- ===== src/Pkg/Strings.antt =====
-- What the code uses of Go's package `strings`, on separators of one byte, and pkg/slice.
pub mod Laws
use hci_controller_manager.Base.{
  Str, ℕ, Bool, true, false, ◌&&◌, Option, none, some, List, [], ◌∷◌, ◌++◌, ◌==◌, ◌!=◌, length,
  nat_eq, list_eq, if◌then◌else◌,
}

-- `strings.HasPrefix`
unfoldable pub has_prefix : Str → Str → Bool
has_prefix s [] = true
has_prefix [] (p ∷ ps) = false
has_prefix (x ∷ s) (p ∷ ps) = x == p && has_prefix s ps

-- The text behind as many bytes as the first argument has.
abbrev pub after : Str → Str → Str
after [] s = s
after (p ∷ ps) [] = []
after (p ∷ ps) (x ∷ s) = after ps s

-- `strings.TrimPrefix`
unfoldable pub trim_prefix : Str → Str → Str
unfolding has_prefix
trim_prefix s p = if has_prefix s p then after p s else s

-- `strings.Replace(s, old, new, 1)`, for an `old` that is not empty
unfoldable pub replace_first : Str → Str → Str → Str
unfolding has_prefix
replace_first old new [] = []
replace_first old new (x ∷ s) =
    let rest = replace_first old new s in
    if has_prefix (x ∷ s) old then new ++ after old (x ∷ s) else x ∷ rest

-- `strings.SplitN(s, c, 2)`: the text before the first `c` and the text behind it, if there is one.
unfoldable pub cut : ℕ → Str → Option (Str × Str)
cut c [] = none
cut c (x ∷ s) =
    let rest = cut c s in
    if x == c then some ([], s) else elim rest [ none ↦ none | some (a, b) ↦ some (x ∷ a, b) ]

-- Puts a byte in front of the first item.
abbrev pub prepend : ℕ → List Str → List Str
prepend x [] = (x ∷ []) ∷ []
prepend x (w ∷ ws) = (x ∷ w) ∷ ws

-- `strings.Split` at a byte
unfoldable pub split : ℕ → Str → List Str
split c [] = [] ∷ []
split c (x ∷ s) = let rest = split c s in if x == c then [] ∷ rest else prepend x rest

-- `strings.Join` with a byte between the items
unfoldable pub join : ℕ → List Str → Str
join c [] = []
join c (w ∷ []) = w
join c (w ∷ v ∷ ws) = w ++ c ∷ join c (v ∷ ws)

-- `ContainsString` of pkg/slice and pkg/util
unfoldable pub contains_string : List Str → Str → Bool
contains_string [] item = false
contains_string (j ∷ slice) item = if j == item then true else contains_string slice item

-- The loop of `StringsEqual`, on slices of one length.
unfoldable pub same_items : List Str → List Str → Bool
same_items [] right = true
same_items (l ∷ left) [] = false
same_items (l ∷ left) (r ∷ right) = if l != r then false else same_items left right

-- `StringsEqual` of pkg/slice
unfoldable pub strings_equal : List Str → List Str → Bool
strings_equal left right = if length left != length right then false else same_items left right
