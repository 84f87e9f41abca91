-- ===== src/Pkg/Owners/Annotation/Entries.antt =====
-- The entries of the annotation: their order does not matter, and they hold the references of the owners.
use hci_controller_manager.Base.{
  Str, ◌≡◌, ◌≢◌, refl, Bool, true, false, ◌&&◌, ◌||◌, Option, none, some, List, [], ◌∷◌, ◌==◌,
  nat_eq, list_eq, arith, elements, ◌∙◌,
}
use hci_controller_manager.Base.Dict
use hci_controller_manager.Base.Dict.{Dict, lookup-insert, lookup-erase}
use hci_controller_manager.Pkg.Strings.{contains_string}
use hci_controller_manager.Pkg.Owners.{SchemaReference, has_at}
use hci_controller_manager.Pkg.Owners.Sets.{StringSet}
use hci_controller_manager.Pkg.Owners.Laws.{IsKeyed}
use hci_controller_manager.Pkg.Owners.Annotation.{
  JsonReference, insert_sorted, sort_refs, entries_of, refs_of, nil_if_no_annotations,
}

-- Does an entry of the schema hold the reference?
abbrev pub in_entry : JsonReference → Str → Str → Bool
in_entry (schema_id, refs) j x = (schema_id == j) && contains_string (elements refs) x

unfoldable pub in_refs : List JsonReference → Str → Str → Bool
in_refs [] j x = false
in_refs (e ∷ refs) j x = in_entry e j x || in_refs refs j x

-- The order of the entries does not matter.
in_refs-insert_sorted :
    (e : JsonReference) (refs : List JsonReference) (j x : Str)
    → in_refs (insert_sorted e refs) j x ≡ in_entry e j x || in_refs refs j x
unfolding in_refs insert_sorted
in_refs-insert_sorted e [] j x = refl
in_refs-insert_sorted e (d ∷ refs) j x = ground (arith, in_refs-insert_sorted e refs j x)

pub in_refs-sort_refs :
    (refs : List JsonReference) (j x : Str) → in_refs (sort_refs refs) j x ≡ in_refs refs j x
unfolding in_refs sort_refs
in_refs-sort_refs [] j x = refl
in_refs-sort_refs (e ∷ refs) j x =
    in_refs-insert_sorted e (sort_refs refs) j x ∙ ground (arith, in_refs-sort_refs refs j x)

pub elements-nil_if_no_annotations : (m : Dict Str) → elements (nil_if_no_annotations m) ≡ m
elements-nil_if_no_annotations [] = refl
elements-nil_if_no_annotations (e ∷ m) = refl

pub same_text : (s : Str) → (s == s) ≡ true
same_text s = ground arith

pub empty_IsKeyed : {S : Type 0} → IsKeyed {S = S} []
unfolding Dict.lookup
empty_IsKeyed k r f = cc

module _ {S : Type 0} (sets : StringSet S) where
  -- The owners as the operations keep them: each schema once, not empty, with a set.
  abbrev pub AreOwners : Dict (SchemaReference S) → Type 0
  AreOwners [] = Unit
  AreOwners ((k, r) ∷ o) =
      (r.schema_id ≡ k) × (k ≢ []) × (r.references ≢ none) × (Dict.lookup k o ≡ none) × AreOwners o

  has_at_absent :
      (k : Str) (o : Dict (SchemaReference S)) (j x : Str)
      → Dict.lookup k o ≡ none
      → (k == j) ≡ true
      → has_at sets o j x ≡ false
  unfolding has_at
  has_at_absent k o j x e same = let p : k ≡ j = ground arith in rw (← p, e) refl

  in_entry-has_at :
      (k : Str) (r : SchemaReference S) (found : Option S) (o : Dict (SchemaReference S))
      (j x : Str)
      → r.schema_id ≡ k
      → r.references ≢ none
      → r.references ≡ found
      → Dict.lookup k o ≡ none
      → in_entry (r.schema_id, some (refs_of sets r.references)) j x || has_at sets o j x
        ≡ has_at sets ((k, r) ∷ o) j x
  unfolding has_at Dict.lookup
  in_entry-has_at k r none o j x schema set e once = absurd (set e)
  in_entry-has_at k r (some s) o j x schema set e once =
      ground (arith, sets.has_list s x, has_at_absent k o j x once)

  pub in_refs-entries_of :
      (o : Dict (SchemaReference S)) (j x : Str)
      → AreOwners o
      → in_refs (entries_of sets o) j x ≡ has_at sets o j x
  unfolding in_refs entries_of has_at Dict.lookup
  in_refs-entries_of [] j x h = refl
  in_refs-entries_of ((k, r) ∷ o) j x (schema, some_key, set, once, rest) =
      rw (in_refs-entries_of o j x rest)
        (in_entry-has_at k r r.references o j x schema set refl once)
