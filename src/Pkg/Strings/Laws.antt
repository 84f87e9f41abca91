-- ===== src/Pkg/Strings/Laws.antt =====
-- Laws of cutting, splitting and joining.
use hci_controller_manager.Base.{
  Str, ℕ, ◌≡◌, ◌≢◌, refl, ◌↔◌, true, false, length, list_eq, none, some, List, [], ◌∷◌, ◌++◌,
  nat_eq, arith, inl, inr, Option-cases,
}
use mathlib.Core.Logic.{if_pos, if_neg}
use native.Mathlib.Decide.{ℕ_discrete}
use hci_controller_manager.Pkg.Strings.{
  same_items, strings_equal, has_prefix, trim_prefix, after, cut, split, join, prepend,
}

-- The byte does not occur in the text.
abbrev pub Avoids : ℕ → Str → Type 0
Avoids c [] = Unit
Avoids c (x ∷ s) = (x ≢ c) × Avoids c s

abbrev pub AllAvoid : ℕ → List Str → Type 0
AllAvoid c [] = Unit
AllAvoid c (w ∷ ws) = Avoids c w × AllAvoid c ws

pub cut-append : (c : ℕ) (a b : Str) → Avoids c a → cut c (a ++ c ∷ b) ≡ some (a, b)
unfolding cut
cut-append c [] b h = ground arith
cut-append c (x ∷ a) b h = ground (arith, cut-append c a b h.1)

pub cut-eq-none : (c : ℕ) (s : Str) → Avoids c s → cut c s ≡ none
unfolding cut
cut-eq-none c [] h = refl
cut-eq-none c (x ∷ s) h = ground (arith, cut-eq-none c s h.1)

-- What is cut apart is the text.
pub cut-eq-some : (c : ℕ) (s a b : Str) → cut c s ≡ some (a, b) → s ≡ a ++ c ∷ b
unfolding cut
cut-eq-some c [] a b h = cc
cut-eq-some c (x ∷ s) a b h = elim (Option-cases (cut c s)) [
  | inl e ↦ ground arith
  | inr ((a', b'), e) ↦ ground (arith, cut-eq-some c s a' b' e)
]

prepend-AllAvoid : (c x : ℕ) (ws : List Str) → x ≢ c → AllAvoid c ws → AllAvoid c (prepend x ws)
prepend-AllAvoid c x [] n h = ((n, tt), tt)
prepend-AllAvoid c x (w ∷ ws) n h = ((n, h.0), h.1)

-- No item of a split holds the separator.
pub split-AllAvoid : (c : ℕ) (s : Str) → AllAvoid c (split c s)
unfolding split
split-AllAvoid c [] = (tt, tt)
split-AllAvoid c (x ∷ s) = elim (ℕ_discrete x c) [
  | yes e ↦ rw (if_pos _ e) (tt, split-AllAvoid c s)
  | no n ↦ rw (if_neg _ n) (prepend-AllAvoid c x (split c s) n (split-AllAvoid c s))
]

pub split-ne-nil : (c : ℕ) (s : Str) → split c s ≢ []
unfolding split
split-ne-nil c [] h = cc
split-ne-nil c (x ∷ s) h = ground arith

join-prepend : (c x : ℕ) (ws : List Str) → join c (prepend x ws) ≡ x ∷ join c ws
unfolding join
join-prepend c x [] = refl
join-prepend c x (w ∷ []) = refl
join-prepend c x (w ∷ v ∷ ws) = refl

join-nil_cons : (c : ℕ) (ws : List Str) → ws ≢ [] → join c ([] ∷ ws) ≡ c ∷ join c ws
unfolding join
join-nil_cons c [] h = absurd (h refl)
join-nil_cons c (w ∷ ws) h = refl

pub join-split : (c : ℕ) (s : Str) → join c (split c s) ≡ s
unfolding split
join-split c [] = unfold join in refl
join-split c (x ∷ s) = ground (
  arith,
  join-split c s,
  join-prepend c x (split c s),
  join-nil_cons c (split c s) (split-ne-nil c s),
)

split_last : (c : ℕ) (w : Str) → Avoids c w → split c w ≡ w ∷ []
unfolding split
split_last c [] h = refl
split_last c (x ∷ w) h = ground (arith, split_last c w h.1)

split_first : (c : ℕ) (w s : Str) → Avoids c w → split c (w ++ c ∷ s) ≡ w ∷ split c s
unfolding split
split_first c [] s h = ground arith
split_first c (x ∷ w) s h = ground (arith, split_first c w s h.1)

pub split-join :
    (c : ℕ) (w : Str) (ws : List Str) → AllAvoid c (w ∷ ws) → split c (join c (w ∷ ws)) ≡ w ∷ ws
unfolding join
split-join c w [] h = split_last c w h.0
split-join c w (v ∷ ws) h =
    ground (arith, split_first c w (join c (v ∷ ws)) h.0, split-join c v ws h.1)

pub split-join_of_ne : (c : ℕ) (ws : List Str) → ws ≢ [] → AllAvoid c ws → split c (join c ws) ≡ ws
split-join_of_ne c [] n h = absurd (n refl)
split-join_of_ne c (w ∷ ws) n h = split-join c w ws h

has_prefix-append : (p s : Str) → has_prefix (p ++ s) p ≡ true
unfolding has_prefix
has_prefix-append [] s = refl
has_prefix-append (x ∷ p) s = ground (arith, has_prefix-append p s)

after-append : (p s : Str) → after p (p ++ s) ≡ s
after-append [] s = refl
after-append (x ∷ p) s = after-append p s

pub trim_prefix-append : (p s : Str) → trim_prefix (p ++ s) p ≡ s
unfolding trim_prefix
trim_prefix-append p s = rw (has_prefix-append p s) (after-append p s)

pub trim_prefix_absent : (s p : Str) → has_prefix s p ≡ false → trim_prefix s p ≡ s
unfolding trim_prefix
trim_prefix_absent s p h = rw h refl

same_items_iff :
    (left right : List Str)
    → length left ≡ length right
    → (same_items left right ≡ true) ↔ (left ≡ right)
unfolding same_items
same_items_iff [] [] n = (λ h. refl, λ h. refl)
same_items_iff [] (r ∷ right) n = absurd (omega arith)
same_items_iff (l ∷ left) [] n = absurd (omega arith)
same_items_iff (l ∷ left) (r ∷ right) n = ground (arith, same_items_iff left right (omega arith))

-- `StringsEqual` answers true exactly for equal slices.
strings_equal_iff : (left right : List Str) → (strings_equal left right ≡ true) ↔ (left ≡ right)
unfolding strings_equal
strings_equal_iff left right = (
  λ h. ground (arith, same_items_iff left right),
  λ h. rw h (ground (arith, (same_items_iff right right refl).1 refl)),
)
