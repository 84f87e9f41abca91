-- ===== src/Pkg/Owners/Annotation/Laws.antt =====
-- Writing the owners to an annotation and reading them back.
use hci_controller_manager.Base.{
  Str, ◌≡◌, ◌≢◌, refl, ◌||◌, Option, none, some, List, [], ◌∷◌, nat_eq, list_eq, arith, elements,
  Outcome, ok, panic, sym, ap, ◌∙◌, Bool-cases, Option-cases, inl, inr,
}
use hci_controller_manager.Base.Dict
use hci_controller_manager.Base.Dict.{Dict, lookup-insert, lookup-erase}
use hci_controller_manager.Api.{ObjectMeta, NamespacedName}
use hci_controller_manager.Pkg.Strings.{contains_string}
use hci_controller_manager.Pkg.Owners.{
  SchemaReference, GroupKind, group_kind_to_schema_id, add, has, has_at,
  annotation_schema_owner_key_name,
}
use hci_controller_manager.Pkg.Owners.Sets.{StringSet}
use hci_controller_manager.Pkg.Owners.Laws.{
  IsKeyed, insert-IsKeyed, has_at-insert, found_entry, has_at_missing, has_at_found,
}
use hci_controller_manager.Pkg.Owners.Annotation.{
  JsonReference, str_lt, insert_sorted, sort_refs, entries_of, refs_of, insert_all,
  nil_if_no_annotations, put_ref, put_refs, marshal, bind, read_owners,
  get_schema_owners_from_annotation,
}
use hci_controller_manager.Pkg.Owners.Annotation.Entries.{
  AreOwners, elements-nil_if_no_annotations, empty_IsKeyed, in_entry, in_refs, in_refs-entries_of,
  in_refs-sort_refs, same_text,
}

module _ {S : Type 0} (sets : StringSet S) where
  -- Entries as they are written: with a schema, and with an array of references.
  abbrev pub AreWritten : List JsonReference → Type 0
  AreWritten [] = Unit
  AreWritten ((k, refs) ∷ rest) = (k ≢ []) × (refs ≢ none) × AreWritten rest

  has-insert_all :
      (items : List Str) (s : S) (x : Str)
      → sets.has (insert_all sets items s) x ≡ contains_string items x || sets.has s x
  unfolding contains_string
  has-insert_all [] s x = refl
  has-insert_all (y ∷ items) s x =
      has-insert_all items (sets.insert y s) x ∙ ground (arith, sets.has_insert x y s)

  -- One round of the loop keeps the map well keyed and adds the entry.
  abbrev pub IsMerged : JsonReference → Dict (SchemaReference S) → Dict (SchemaReference S) → Type 0
  IsMerged e o o' = (j x : Str) → has_at sets o' j x ≡ has_at sets o j x || in_entry e j x

  put_ref_merges :
      (o : Dict (SchemaReference S)) (k : Str) (items : List Str)
      → k ≢ []
      → IsKeyed o
      → (o' : Dict (SchemaReference S)) × (put_ref sets o (k, some items) ≡ ok o')
        × IsKeyed o'
        × IsMerged (k, some items) o o'
  unfolding put_ref
  put_ref_merges o k items n keyed = elim (Option-cases (Dict.lookup k o)) [
    | inl e ↦ (
      Dict.insert k (record { schema_id = k; references = some (sets.of_list items) }) o,
      ground arith,
      insert-IsKeyed k (record { schema_id = k; references = some (sets.of_list items) }) o keyed
          refl (λ f. cc),
      λ j x.
          has_at-insert sets k (record { schema_id = k; references = some (sets.of_list items) }) o
            j x
          ∙ ground (arith, sets.has_of_list items x, sets.has_empty x, has_at_missing sets k o e x),
    )
    | inr (r, e) ↦
        let (s, whole) = found_entry sets o k r keyed e in
        let e' = e ∙ ap some whole in
        (
          Dict.insert k (record { schema_id = k; references = some (insert_all sets items s) }) o,
          ground arith,
          insert-IsKeyed k (record { schema_id = k; references = some (insert_all sets items s) }) o
              keyed refl (λ f. cc),
          λ j x.
              has_at-insert sets k
                (record { schema_id = k; references = some (insert_all sets items s) }) o j x
              ∙ ground (arith, has-insert_all items s x, has_at_found sets k o s e' x),
        )
  ]

  put_refs_merges :
      (refs : List JsonReference) (o : Dict (SchemaReference S))
      → AreWritten refs
      → IsKeyed o
      → (o' : Dict (SchemaReference S)) × (put_refs sets o refs ≡ ok o')
        × IsKeyed o'
        × ((j x : Str) → has_at sets o' j x ≡ has_at sets o j x || in_refs refs j x)
  unfolding put_refs in_refs
  put_refs_merges [] o written keyed = (o, refl, keyed, λ j x. ground arith)
  put_refs_merges ((k, none) ∷ refs) o (n, some_refs, rest) keyed = absurd (some_refs refl)
  put_refs_merges ((k, some items) ∷ refs) o (n, some_refs, rest) keyed =
      let (o1, put, keyed1, merged) = put_ref_merges o k items n keyed in
      let (o', puts, keyed', all) = put_refs_merges refs o1 rest keyed1 in
      (o', rw put puts, keyed', λ j x. all j x ∙ ground (arith, merged j x))

  insert_sorted-AreWritten :
      (k : Str) (items : Option (List Str)) (refs : List JsonReference)
      → k ≢ []
      → items ≢ none
      → AreWritten refs
      → AreWritten (insert_sorted (k, items) refs)
  unfolding insert_sorted
  insert_sorted-AreWritten k items [] n m h = (n, m, tt)
  insert_sorted-AreWritten k items ((j, its) ∷ refs) n m h = elim (Bool-cases (str_lt k j)) [
    | inl e ↦ rw e (n, m, h)
    | inr e ↦ rw e (h.0, h.1, insert_sorted-AreWritten k items refs n m h.2)
  ]

  entries_of-AreWritten :
      (o : Dict (SchemaReference S)) → AreOwners sets o → AreWritten (sort_refs (entries_of sets o))
  unfolding sort_refs entries_of
  entries_of-AreWritten [] h = tt
  entries_of-AreWritten ((k, r) ∷ o) (schema, some_key, set, once, rest) =
      insert_sorted-AreWritten r.schema_id (some (refs_of sets r.references))
        (sort_refs (entries_of sets o)) (λ e. some_key (sym schema ∙ e)) (λ e. cc)
        (entries_of-AreWritten o rest)

  -- Owners that are bound to an object and read back from its annotation have the same references
  -- under every schema, and are well keyed, if the JSON that is written reads back.
  pub get_schema_owners_from_annotation-bind :
      (encode : List JsonReference → Outcome Str) (decode : Str → Outcome (List JsonReference))
      (o : Dict (SchemaReference S)) (json : Str) (meta : ObjectMeta)
      → AreOwners sets o
      → encode (sort_refs (entries_of sets o)) ≡ ok json
      → decode json ≡ ok (sort_refs (entries_of sets o))
      → (meta' : ObjectMeta) × (o' : Dict (SchemaReference S)) × (bind sets encode (some o) meta
          ≡ ok meta')
        × (get_schema_owners_from_annotation sets decode meta' ≡ ok o')
        × IsKeyed o'
        × ((j x : Str) → has_at sets o' j x ≡ has_at sets o j x)
  unfolding bind marshal get_schema_owners_from_annotation read_owners
  get_schema_owners_from_annotation-bind encode decode [] json meta owners written back =
      let key = annotation_schema_owner_key_name in
      let annotations = Dict.erase key (elements meta.annotations) in
      (
        record meta { annotations = nil_if_no_annotations annotations },
        [],
        refl,
        rw
            (
              elements-nil_if_no_annotations annotations,
              lookup-erase key key (elements meta.annotations),
              same_text key,
            )
            refl,
        empty_IsKeyed,
        λ j x. refl,
      )
  get_schema_owners_from_annotation-bind encode decode (e ∷ o) json meta owners written back =
      let (o', puts, keyed, all) =
        put_refs_merges (sort_refs (entries_of sets (e ∷ o))) []
          (entries_of-AreWritten (e ∷ o) owners) empty_IsKeyed in
      let key = annotation_schema_owner_key_name in
      let annotations = Dict.insert key json (elements meta.annotations) in
      (
        record meta { annotations = nil_if_no_annotations annotations },
        o',
        ground (arith, written),
        rw
            (
              elements-nil_if_no_annotations annotations,
              lookup-insert key key json (elements meta.annotations),
              same_text key,
              back,
            )
            puts,
        keyed,
        λ j x.
            all j x
            ∙ (rw
                (
                  in_refs-sort_refs (entries_of sets (e ∷ o)) j x,
                  in_refs-entries_of sets (e ∷ o) j x owners,
                )
                (unfold has_at Dict.lookup in refl)),
      )

  -- Owners that were read from an annotation whose entry for a kind has no array of references: a new
  -- owner of that kind makes Add panic.
  pub add_missing_refs :
      (decode : Str → Outcome (List JsonReference)) (meta : ObjectMeta) (json : Str)
      (gk : GroupKind) (owner : NamespacedName)
      → Dict.lookup annotation_schema_owner_key_name (elements meta.annotations) ≡ some json
      → decode json ≡ ok ((group_kind_to_schema_id gk, none) ∷ [])
      → group_kind_to_schema_id gk ≢ []
      → (o : Dict (SchemaReference S)) × (get_schema_owners_from_annotation sets decode meta ≡ ok o)
        × (add sets (some o) gk owner ≡ panic)
  unfolding get_schema_owners_from_annotation read_owners put_refs put_ref Dict.lookup Dict.insert
      add has has_at
  add_missing_refs decode meta json gk owner there back n = (
    (
      group_kind_to_schema_id gk,
      record { schema_id = group_kind_to_schema_id gk; references = none },
    )
        ∷ [],
    rw there (ground (arith, back)),
    ground arith,
  )
