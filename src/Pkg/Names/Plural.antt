-- ===== src/Pkg/Names/Plural.antt =====
-- pkg/name/name.go: the guess of a plural, on ASCII names.
use Prim.Native.Nat.{◌+◌}
use hci_controller_manager.Base.{
  Str, text, ℕ, ◌-◌, Bool, true, false, not, ◌&&◌, ◌||◌, none, some, [], ◌∷◌, ◌++◌, ◌==◌, nat_eq,
  list_eq, map, length, take, get_elem?, ltb, leb, if◌then◌else◌,
}

-- `strings.HasSuffix`
unfoldable pub suffix : Str → Str → Bool
suffix [] end = [] == end
suffix (c ∷ str) end = let rest = suffix str end in if (c ∷ str) == end then true else rest

abbrev lower : ℕ → ℕ
lower c = if leb b'A' c && leb c b'Z' then c + 32 else c

-- `strings.EqualFold`
abbrev equal_fold : Str → Str → Bool
equal_fold s t = map lower s == map lower t

-- `strings.ContainsAny`
abbrev contains_any : Str → Str → Bool
contains_any [] chars = false
contains_any (c ∷ s) chars = (contains_byte c chars) || contains_any s chars
  where
    contains_byte : ℕ → Str → Bool
    contains_byte c [] = false
    contains_byte c (x ∷ xs) = c == x || contains_byte c xs

-- `name[len(name)-2:len(name)-1]`, for a name of two bytes at least
abbrev before_last : Str → Str
before_last name = elim (get_elem? name (length name - 2)) [ none ↦ [] | some c ↦ c ∷ [] ]

unfoldable pub guess_plural_name : Str → Str
unfolding suffix
guess_plural_name name =
    if name == []
    then name
    else if equal_fold name (text "Endpoints")
    then name
    else if suffix name (text "s")
        || suffix name (text "ch")
        || suffix name (text "x")
        || suffix name (text "sh")
    then name ++ text "es"
    else if suffix name (text "f") || suffix name (text "fe")
    then name ++ text "ves"
    else if suffix name (text "y")
        && ltb 2 (length name)
        && not (contains_any (before_last name) (text "[aeiou]"))
    then take (length name - 1) name ++ text "ies"
    else name ++ text "s"
