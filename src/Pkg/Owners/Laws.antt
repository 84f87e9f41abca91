-- ===== src/Pkg/Owners/Laws.antt =====
-- The owners as a relation between schemas and references, which adding and removing change at one
-- pair.
use hci_controller_manager.Base.{
  Str, ◌≡◌, ◌≢◌, refl, true, false, not, ◌&&◌, none, some, ◌==◌, nat_eq, list_eq, if◌then◌else◌,
  arith, ok, sym, ap, ◌∙◌, inl, inr, Bool-cases, Option-cases,
}
use mathlib.Core.Option.{none-ne-some}
use hci_controller_manager.Base.Dict
use hci_controller_manager.Base.Dict.{Dict, lookup-insert, lookup-erase}
use hci_controller_manager.Api.{NamespacedName}
use hci_controller_manager.Pkg.Ref.{construct}
use hci_controller_manager.Pkg.Owners.{
  GroupKind, SchemaReference, group_kind_to_schema_id, has_ref, has_at, has, add, remove,
}
use hci_controller_manager.Pkg.Owners.Sets.{StringSet}

module _ {S : Type 0} where
  -- Every entry stands under its own schema and has a set.
  abbrev pub IsKeyed : Dict (SchemaReference S) → Type 0
  IsKeyed o =
      (k : Str) (r : SchemaReference S)
      → Dict.lookup k o ≡ some r
      → (r.schema_id ≡ k) × (r.references ≢ none)

  keyed_self :
      (k : Str) (r : SchemaReference S) (j : Str) (q : SchemaReference S)
      → r.schema_id ≡ k
      → r.references ≢ none
      → (k == j) ≡ true
      → some r ≡ some q
      → (q.schema_id ≡ j) × (q.references ≢ none)
  keyed_self k r j q e n same found = let p : r ≡ q = cc in rw (← p) (ground arith, n)

  pub insert-IsKeyed :
      (k : Str) (r : SchemaReference S) (o : Dict (SchemaReference S))
      → IsKeyed o
      → r.schema_id ≡ k
      → r.references ≢ none
      → IsKeyed (Dict.insert k r o)
  insert-IsKeyed k r o keyed e n j q found = elim (Bool-cases (k == j)) [
    | inl same ↦ keyed_self k r j q e n same (sym (rw (lookup-insert j k r o, same) refl) ∙ found)
    | inr other ↦ keyed j q (sym (rw (lookup-insert j k r o, other) refl) ∙ found)
  ]

  erase-IsKeyed : (k : Str) (o : Dict (SchemaReference S)) → IsKeyed o → IsKeyed (Dict.erase k o)
  erase-IsKeyed k o keyed j q found = elim (Bool-cases (k == j)) [
    | inl same ↦ absurd (none-ne-some q (sym (rw (lookup-erase j k o, same) refl) ∙ found))
    | inr other ↦ keyed j q (sym (rw (lookup-erase j k o, other) refl) ∙ found)
  ]

module _ {S : Type 0} (sets : StringSet S) where
  pub has_at-insert :
      (k : Str) (r : SchemaReference S) (o : Dict (SchemaReference S)) (j x : Str)
      → has_at sets (Dict.insert k r o) j x
        ≡ (if k == j then (r.schema_id == j) && has_ref sets r.references x else has_at sets o j x)
  unfolding has_at
  has_at-insert k r o j x = ground (arith, lookup-insert j k r o)

  has_at-erase :
      (k : Str) (o : Dict (SchemaReference S)) (j x : Str)
      → has_at sets (Dict.erase k o) j x ≡ (if k == j then false else has_at sets o j x)
  unfolding has_at
  has_at-erase k o j x = ground (arith, lookup-erase j k o)

  -- The relation with one pair added.
  abbrev pub IsAdded : Str → Str → Dict (SchemaReference S) → Dict (SchemaReference S) → Type 0
  IsAdded schema_id owner_ref o o' =
      (j x : Str)
      → has_at sets o' j x
        ≡ (if (schema_id == j) && (owner_ref == x) then true else has_at sets o j x)

  abbrev pub IsRemoved : Str → Str → Dict (SchemaReference S) → Dict (SchemaReference S) → Type 0
  IsRemoved schema_id owner_ref o o' =
      (j x : Str)
      → has_at sets o' j x
        ≡ (if (schema_id == j) && (owner_ref == x) then false else has_at sets o j x)

  -- The set of a schema with one reference more.
  put-IsAdded :
      (id owner_ref : Str) (s : S) (o : Dict (SchemaReference S))
      → ((x : Str) → has_at sets o id x ≡ sets.has s x)
      → IsAdded id owner_ref o (
          Dict.insert id (record { schema_id = id; references = some (sets.insert owner_ref s) }) o)
  put-IsAdded id owner_ref s o same j x =
      rw
        (has_at-insert id (record { schema_id = id; references = some (sets.insert owner_ref s) }) o
          j x)
        (ground (arith, sets.has_insert x owner_ref s, same x))

  cut-IsRemoved :
      (id owner_ref : Str) (s : S) (o : Dict (SchemaReference S))
      → ((x : Str) → has_at sets o id x ≡ sets.has s x)
      → IsRemoved id owner_ref o (
          Dict.insert id (record { schema_id = id; references = some (sets.delete owner_ref s) }) o)
  cut-IsRemoved id owner_ref s o same j x =
      rw
        (has_at-insert id (record { schema_id = id; references = some (sets.delete owner_ref s) }) o
          j x)
        (ground (arith, sets.has_delete x owner_ref s, same x))

  -- A schema whose last reference goes is dropped.
  erase-IsRemoved :
      (id owner_ref : Str) (s : S) (o : Dict (SchemaReference S))
      → ((x : Str) → has_at sets o id x ≡ sets.has s x)
      → sets.len (sets.delete owner_ref s) ≡ 0
      → IsRemoved id owner_ref o (Dict.erase id o)
  erase-IsRemoved id owner_ref s o same last j x = rw (has_at-erase id o j x) (
      ground (
        arith,
        sets.has_delete x owner_ref s,
        same x,
        sets.len_zero (sets.delete owner_ref s) x last,
      ))

  -- What a schema has, by the entry found.
  pub has_at_missing :
      (id : Str) (o : Dict (SchemaReference S))
      → Dict.lookup id o ≡ none
      → (x : Str) → has_at sets o id x ≡ sets.has sets.empty x
  unfolding has_at
  has_at_missing id o e x = rw e (sym (sets.has_empty x))

  pub has_at_found :
      (id : Str) (o : Dict (SchemaReference S)) (s : S)
      → Dict.lookup id o ≡ some (record { schema_id = id; references = some s })
      → (x : Str) → has_at sets o id x ≡ sets.has s x
  unfolding has_at
  has_at_found id o s e x = rw e (ground arith)

  has_at_same :
      (id owner_ref : Str) (o : Dict (SchemaReference S))
      → has_at sets o id owner_ref ≡ true
      → IsAdded id owner_ref o o
  has_at_same id owner_ref o e j x = ground (arith, e)

  has_at_absent :
      (id owner_ref : Str) (o : Dict (SchemaReference S))
      → has_at sets o id owner_ref ≡ false
      → IsRemoved id owner_ref o o
  has_at_absent id owner_ref o e j x = ground (arith, e)

  -- An entry of a well-keyed map, in full.
  pub found_entry :
      (o : Dict (SchemaReference S)) (id : Str) (r : SchemaReference S)
      → IsKeyed o
      → Dict.lookup id o ≡ some r
      → (s : S) × (r ≡ record { schema_id = id; references = some s })
  found_entry o id r keyed e =
      let (schema, set) = keyed id r e in
      elim (Option-cases r.references) [
        | inl missing ↦ absurd (set missing)
        | inr (s, there) ↦ (s, ground arith)
      ]

  -- Add tells whether the owner was new, panics on no well-keyed map, and adds the pair of the
  -- kind's schema and the owner to the relation; the map stays well keyed.
  pub add_refines :
      (o : Dict (SchemaReference S)) (gk : GroupKind) (owner : NamespacedName)
      → IsKeyed o
      → (o' : Dict (SchemaReference S)) × (add sets (some o) gk owner
          ≡ ok (not (has sets (some o) gk owner), some o'))
        × IsKeyed o'
        × IsAdded (group_kind_to_schema_id gk) (construct owner.namespace owner.name) o o'
  unfolding add has
  add_refines o gk owner keyed =
      let id = group_kind_to_schema_id gk in
      let x = construct owner.namespace owner.name in
      elim (Bool-cases (has_at sets o id x)) [
        | inl there ↦ (o, rw there refl, keyed, has_at_same id x o there)
        | inr new ↦ elim (Option-cases (Dict.lookup id o)) [
          | inl e ↦ (
            _,
            rw (new, e) refl,
            insert-IsKeyed id
                (record { schema_id = id; references = some (sets.insert x sets.empty) }) o keyed
                refl (λ n. cc),
            put-IsAdded id x sets.empty o (has_at_missing id o e),
          )
          | inr (r, e) ↦
              let (s, whole) = found_entry o id r keyed e in
              (
                _,
                rw (new, e, whole) refl,
                insert-IsKeyed id (record { schema_id = id; references = some (sets.insert x s) }) o
                    keyed refl (λ n. cc),
                put-IsAdded id x s o (has_at_found id o s (e ∙ ap some whole)),
              )
        ]
      ]

  -- Remove tells whether the owner was there, and removes the pair of the kind's schema and the owner
  -- from the relation; the map stays well keyed.
  remove_refines :
      (o : Dict (SchemaReference S)) (gk : GroupKind) (owner : NamespacedName)
      → IsKeyed o
      → (o' : Dict (SchemaReference S)) × (remove sets (some o) gk owner
          ≡ (has sets (some o) gk owner, some o'))
        × IsKeyed o'
        × IsRemoved (group_kind_to_schema_id gk) (construct owner.namespace owner.name) o o'
  unfolding remove has
  remove_refines o gk owner keyed =
      let id = group_kind_to_schema_id gk in
      let x = construct owner.namespace owner.name in
      elim (Bool-cases (has_at sets o id x)) [
        | inr absent ↦ (o, rw absent refl, keyed, has_at_absent id x o absent)
        | inl there ↦ elim (Option-cases (Dict.lookup id o)) [
          | inl e ↦ absurd (unfold has_at in ground arith)
          | inr (r, e) ↦
              let (s, whole) = found_entry o id r keyed e in
              let e' = e ∙ ap some whole in
              let same = has_at_found id o s e' in
              elim (Bool-cases (sets.len (sets.delete x s) == 0)) [
                | inl last ↦ (
                  _,
                  rw (there, e', last) refl,
                  erase-IsKeyed id o keyed,
                  erase-IsRemoved id x s o same (ground arith),
                )
                | inr more ↦ (
                  _,
                  rw (there, e', more) refl,
                  insert-IsKeyed id (record { schema_id = id; references = some (sets.delete x s) })
                      o keyed refl (λ n. cc),
                  cut-IsRemoved id x s o same,
                )
              ]
        ]
      ]
