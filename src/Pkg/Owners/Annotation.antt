-- ===== src/Pkg/Owners/Annotation.antt =====
-- pkg/ref/annotation.go: the owners as JSON in an annotation. A JSON array is a list of a schema with
-- the texts of `refs`, which may be missing.
pub mod Entries
pub mod Laws
use hci_controller_manager.Base.{
  Str, text, Bool, true, false, Option, none, some, List, [], ◌∷◌, ◌++◌, ◌==◌, nat_eq, list_eq,
  if◌then◌else◌, ltb, elements, map, Outcome, ok, err, panic, errorf,
}
use hci_controller_manager.Base.Dict
use hci_controller_manager.Base.Dict.{Dict}
use hci_controller_manager.Api.{ObjectMeta}
use hci_controller_manager.Pkg.Owners.{SchemaReference, Owners, annotation_schema_owner_key_name}
use hci_controller_manager.Pkg.Owners.Sets.{StringSet}

-- `AnnotationSchemaReference` as JSON, read and written.
abbrev pub JsonReference : Type 0
JsonReference = Str × Option (List Str)

-- `s < t` on texts
unfoldable pub str_lt : Str → Str → Bool
str_lt s [] = false
str_lt [] (y ∷ t) = true
str_lt (x ∷ s) (y ∷ t) =
    let rest = str_lt s t in if ltb x y then true else if ltb y x then false else rest

-- `sort.Sort` by the schema
unfoldable pub insert_sorted : JsonReference → List JsonReference → List JsonReference
unfolding str_lt
insert_sorted e [] = e ∷ []
insert_sorted e (d ∷ refs) =
    let rest = insert_sorted e refs in if str_lt e.0 d.0 then e ∷ d ∷ refs else d ∷ rest

unfoldable pub sort_refs : List JsonReference → List JsonReference
unfolding insert_sorted
sort_refs [] = []
sort_refs (e ∷ refs) = insert_sorted e (sort_refs refs)

-- `SetAnnotations(nil)` for an empty map
abbrev pub nil_if_no_annotations : Dict Str → Option (Dict Str)
nil_if_no_annotations [] = none
nil_if_no_annotations (e ∷ annotations) = some (e ∷ annotations)

module _ {S : Type 0} (sets : StringSet S) where
  -- A nil set is written as an empty array.
  abbrev pub refs_of : Option S → List Str
  refs_of none = []
  refs_of (some s) = sets.list s

  unfoldable pub entries_of : Dict (SchemaReference S) → List JsonReference
  entries_of [] = []
  entries_of ((k, r) ∷ o) = (r.schema_id, some (refs_of r.references)) ∷ entries_of o

  -- `References.Insert(items...)`; a write to a nil map panics.
  abbrev pub insert_all : List Str → S → S
  insert_all [] s = s
  insert_all (x ∷ items) s = insert_all items (sets.insert x s)

  abbrev pub merge_refs : Option (List Str) → Option S → Outcome (Option S)
  merge_refs items (some s) = ok (some (insert_all (elements items) s))
  merge_refs (some (x ∷ items)) none = panic
  merge_refs (some []) none = ok none
  merge_refs none none = ok none

  abbrev pub set_of : Option (List Str) → Option S
  set_of none = none
  set_of (some items) = some (sets.of_list items)

  -- One round of the loop of `UnmarshalJSON`.
  unfoldable pub put_ref :
      Dict (SchemaReference S) → JsonReference → Outcome (Dict (SchemaReference S))
  put_ref owners (schema_id, refs) =
      if schema_id == [] then ok owners else elim (Dict.lookup schema_id owners) [
        | none ↦ ok (
            Dict.insert schema_id (record { schema_id = schema_id; references = set_of refs })
              owners)
        | some r ↦ elim (merge_refs refs r.references) [
          | ok merged ↦ ok (Dict.insert schema_id (record r { references = merged }) owners)
          | err e ↦ err e
          | panic ↦ panic
        ]
      ]

  abbrev pub and_then :
      Outcome (Dict (SchemaReference S))
      → (Dict (SchemaReference S) → Outcome (Dict (SchemaReference S)))
      → Outcome (Dict (SchemaReference S))
  and_then (ok owners) f = f owners
  and_then (err e) f = err e
  and_then panic f = panic

  unfoldable pub put_refs :
      Dict (SchemaReference S) → List JsonReference → Outcome (Dict (SchemaReference S))
  unfolding put_ref
  put_refs owners [] = ok owners
  put_refs owners (e ∷ refs) = and_then (put_ref owners e) (λ owners'. put_refs owners' refs)

  module _ (encode : List JsonReference → Outcome Str) where
    unfoldable pub marshal : Owners S → Outcome Str
    unfolding sort_refs entries_of
    marshal none = ok (text "[]")
    marshal (some o) = encode (sort_refs (entries_of o))

    -- The annotations with the owners; none are left as nil.
    unfoldable pub bind : Owners S → ObjectMeta → Outcome ObjectMeta
    unfolding marshal
    bind o meta =
        let annotations = elements meta.annotations in
        elim (elements o) [
          | [] ↦ ok (record meta {
            annotations =
                nil_if_no_annotations (Dict.erase annotation_schema_owner_key_name annotations);
          })
          | e ∷ o' ↦ elim (marshal o) [
            | ok json ↦ ok (record meta {
              annotations =
                  nil_if_no_annotations
                    (Dict.insert annotation_schema_owner_key_name json annotations);
            })
            | err f ↦
                err (errorf (text "failed to marshal annotation schema owners: " ++ f.message))
            | panic ↦ panic
          ]
        ]

  module _ (decode : Str → Outcome (List JsonReference)) where
    -- The owners of the annotation's text, if there is one.
    unfoldable pub read_owners : Option Str → Outcome (Dict (SchemaReference S))
    unfolding put_refs
    read_owners none = ok []
    read_owners (some owned_by) = elim (decode owned_by) [
      | ok refs ↦ put_refs [] refs
      | err f ↦ err (errorf (text "failed to unmarshal annotation schema owners: " ++ f.message))
      | panic ↦ panic
    ]

    unfoldable pub get_schema_owners_from_annotation :
        ObjectMeta → Outcome (Dict (SchemaReference S))
    unfolding read_owners
    get_schema_owners_from_annotation meta =
        read_owners (Dict.lookup annotation_schema_owner_key_name (elements meta.annotations))
