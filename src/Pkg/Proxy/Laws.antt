-- ===== src/Pkg/Proxy/Laws.antt =====
-- The completed list of hosts.
use hci_controller_manager.Base.{
  Str, text, List, [], ◌∷◌, ◌++◌, ◌≡◌, ◌≢◌, refl, true, if◌then◌else◌, arith, ap, ◌==◌, list_eq,
  nat_eq, ◌∙◌, Bool-cases, inl, inr, ℕ,
}
use hci_controller_manager.Pkg.Strings.{split, join, contains_string}
use hci_controller_manager.Pkg.Strings.Laws.{
  Avoids, AllAvoid, split-AllAvoid, split-join_of_ne, split-ne-nil,
}
use hci_controller_manager.Pkg.Proxy.{built_in_no_proxy, add_missing, add_built_in_no_proxy}

-- Every item of the second list is among the first.
abbrev pub Holds : List Str → List Str → Type 0
Holds ws [] = Unit
Holds ws (item ∷ items) = (contains_string ws item ≡ true) × Holds ws items

contains_string-append :
    (ws : List Str) (v item : Str)
    → contains_string (ws ++ (v ∷ [])) item ≡ (if contains_string ws item then true else v == item)
unfolding contains_string
contains_string-append [] v item = ground arith
contains_string-append (w ∷ ws) v item = ground (arith, contains_string-append ws v item)

add_missing-keeps :
    (ws items : List Str) (item : Str)
    → contains_string ws item ≡ true
    → contains_string (add_missing ws items) item ≡ true
unfolding add_missing
add_missing-keeps ws [] item h = h
add_missing-keeps ws (v ∷ items) item h =
    add_missing-keeps (if contains_string ws v then ws else ws ++ (v ∷ [])) items item
      (ground (arith, contains_string-append ws v item))

add_missing-Holds : (ws items : List Str) → Holds (add_missing ws items) items
unfolding add_missing
add_missing-Holds ws [] = tt
add_missing-Holds ws (v ∷ items) =
    let ws' : List Str = if contains_string ws v then ws else ws ++ (v ∷ []) in
    (
      add_missing-keeps ws' items v (ground (arith, contains_string-append ws v v)),
      add_missing-Holds ws' items,
    )

add_missing_of_Holds : (ws items : List Str) → Holds ws items → add_missing ws items ≡ ws
unfolding add_missing
add_missing_of_Holds ws [] h = refl
add_missing_of_Holds ws (item ∷ items) h = rw h.0 (add_missing_of_Holds ws items h.1)

module _ (c : ℕ) where
  AllAvoid-snoc :
      (ws : List Str) (v : Str) → AllAvoid c ws → Avoids c v → AllAvoid c (ws ++ (v ∷ []))
  AllAvoid-snoc [] v h a = (a, tt)
  AllAvoid-snoc (w ∷ ws) v h a = (h.0, AllAvoid-snoc ws v h.1 a)

  add_missing-AllAvoid :
      (ws items : List Str) → AllAvoid c ws → AllAvoid c items → AllAvoid c (add_missing ws items)
  unfolding add_missing
  add_missing-AllAvoid ws [] h k = h
  add_missing-AllAvoid ws (v ∷ items) h k =
      add_missing-AllAvoid (if contains_string ws v then ws else ws ++ (v ∷ [])) items
        (elim (Bool-cases (contains_string ws v)) [
          | inl e ↦ rw e h
          | inr e ↦ rw e (AllAvoid-snoc ws v h k.0)
        ])
        k.1

add_missing-ne-nil : (ws items : List Str) → ws ≢ [] → add_missing ws items ≢ []
unfolding add_missing
add_missing-ne-nil ws [] h = h
add_missing-ne-nil ws (v ∷ items) h =
    add_missing-ne-nil (if contains_string ws v then ws else ws ++ (v ∷ [])) items
      (elim (Bool-cases (contains_string ws v)) [ inl e ↦ rw e h | inr e ↦ rw e (snoc-ne-nil ws) ])
  where
    snoc-ne-nil : (us : List Str) → us ++ (v ∷ []) ≢ []
    snoc-ne-nil [] = cc
    snoc-ne-nil (u ∷ us) = cc

built_in_AllAvoid : AllAvoid b',' built_in_no_proxy
unfolding text
built_in_AllAvoid = omega arith

-- The items of the completed list are those of the given one, in their order, followed by the
-- missing built-in ones.
split-add_built_in_no_proxy :
    (s : Str) → split b',' (add_built_in_no_proxy s) ≡ add_missing (split b',' s) built_in_no_proxy
split-add_built_in_no_proxy s =
    unfold add_built_in_no_proxy in
    split-join_of_ne b',' (add_missing (split b',' s) built_in_no_proxy)
      (add_missing-ne-nil (split b',' s) built_in_no_proxy (split-ne-nil b',' s))
      (add_missing-AllAvoid b',' (split b',' s) built_in_no_proxy (split-AllAvoid b',' s)
        built_in_AllAvoid)

add_built_in_no_proxy_twice :
    (s : Str) → add_built_in_no_proxy (add_built_in_no_proxy s) ≡ add_built_in_no_proxy s
add_built_in_no_proxy_twice s =
    unfold add_built_in_no_proxy in
    ap (join b',') (
      ap (λ ws. add_missing ws built_in_no_proxy) (split-add_built_in_no_proxy s)
      ∙ add_missing_of_Holds _ built_in_no_proxy
          (add_missing-Holds (split b',' s) built_in_no_proxy))

-- The completed list holds every built-in host and every host of the given list, and completing it
-- again changes nothing.
pub add_built_in_no_proxy_complete :
    (s : Str)
    → Holds (split b',' (add_built_in_no_proxy s)) built_in_no_proxy
      × ((item : Str)
          → contains_string (split b',' s) item ≡ true
          → contains_string (split b',' (add_built_in_no_proxy s)) item ≡ true)
      × (add_built_in_no_proxy (add_built_in_no_proxy s) ≡ add_built_in_no_proxy s)
add_built_in_no_proxy_complete s = (
  rw (split-add_built_in_no_proxy s) (add_missing-Holds (split b',' s) built_in_no_proxy),
  λ item h.
      rw (split-add_built_in_no_proxy s)
        (add_missing-keeps (split b',' s) built_in_no_proxy item h),
  add_built_in_no_proxy_twice s,
)
