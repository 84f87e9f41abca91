-- ===== src/Pkg/Owners.antt =====
-- pkg/ref/annotation.go: the owners of an object, by the schema of their kind, as they are kept in an
-- annotation. A nil map is `none`; a write to one panics. Texts to lower are ASCII.
pub mod Sets
pub mod Laws
pub mod Annotation
use hci_controller_manager.Base.{
  Str, text, ℕ, ◌+◌, Bool, true, false, not, ◌&&◌, Option, none, some, List, [], ◌∷◌, ◌++◌, ◌==◌,
  nat_eq, list_eq, if◌then◌else◌, leb, elements, map, length, Outcome, ok, err, panic, Err, errorf,
}
use hci_controller_manager.Base.Dict
use hci_controller_manager.Base.Dict.{Dict}
use hci_controller_manager.Api.{NamespacedName, ObjectMeta}
use hci_controller_manager.Pkg.Ref.{construct}
use hci_controller_manager.Pkg.Owners.Sets.{StringSet}

abbrev pub annotation_schema_owner_key_name : Str
annotation_schema_owner_key_name = text "hci.wjyl.com/owned-by"

-- `schema.GroupKind`
pub record GroupKind : Type 0 where
  pub group : Str
  pub kind : Str

abbrev pub lower : ℕ → ℕ
lower c = if leb 65 c && leb c 90 then c + 32 else c

unfoldable pub group_kind_to_schema_id : GroupKind → Str
group_kind_to_schema_id kind = map lower (kind.group ++ b'.' ∷ kind.kind)

pub record SchemaReference (S : Type 0) : Type 0 where
  pub schema_id : Str
  pub references : Option S

abbrev pub Owners : Type 0 → Type 0
Owners S = Option (Dict (SchemaReference S))

module _ {S : Type 0} (sets : StringSet S) where
  -- A nil set has no members.
  abbrev pub has_ref : Option S → Str → Bool
  has_ref none owner_ref = false
  has_ref (some s) owner_ref = sets.has s owner_ref

  abbrev pub has_in : Option (SchemaReference S) → Str → Str → Bool
  has_in none schema_id owner_ref = false
  has_in (some r) schema_id owner_ref = (r.schema_id == schema_id) && has_ref r.references owner_ref

  -- Is the reference among those of the schema?
  unfoldable pub has_at : Dict (SchemaReference S) → Str → Str → Bool
  has_at o schema_id owner_ref = has_in (Dict.lookup schema_id o) schema_id owner_ref

  unfoldable pub has : Owners S → GroupKind → NamespacedName → Bool
  unfolding has_at
  has o owner_gk owner =
      has_at (elements o) (group_kind_to_schema_id owner_gk) (construct owner.namespace owner.name)

  unfoldable pub owner_names : Owners S → GroupKind → List Str
  owner_names o owner_gk =
      let schema_id = group_kind_to_schema_id owner_gk in
      elim (Dict.lookup schema_id (elements o)) [
        | none ↦ []
        | some r ↦
            if r.schema_id == schema_id
            then elim r.references [ none ↦ [] | some s ↦ sets.unsorted_list s ]
            else []
      ]

  -- `schemaRef.References.Insert(ownerRef)` and `o[schemaID] = schemaRef`
  abbrev pub put_reference : Str → Str → SchemaReference S → Owners S → Outcome (Bool × Owners S)
  put_reference schema_id owner_ref r none = panic
  put_reference schema_id owner_ref r (some o) = elim r.references [
    | none ↦ panic
    | some s ↦ ok (
      true,
      some (Dict.insert schema_id (record r { references = some (sets.insert owner_ref s) }) o),
    )
  ]

  unfoldable pub add : Owners S → GroupKind → NamespacedName → Outcome (Bool × Owners S)
  unfolding has
  add o owner_gk owner =
      let schema_id = group_kind_to_schema_id owner_gk in
      let found : SchemaReference S = elim (Dict.lookup schema_id (elements o)) [
        | none ↦ record { schema_id = schema_id; references = some sets.empty }
        | some r ↦ r
      ] in
      if has o owner_gk owner
      then ok (false, o)
      else put_reference schema_id (construct owner.namespace owner.name) found o

  -- The set is shared with the map, so the deletion from it is one in the map too.
  unfoldable pub remove : Owners S → GroupKind → NamespacedName → Bool × Owners S
  unfolding has
  remove none owner_gk owner = (false, none)
  remove (some o) owner_gk owner =
      let schema_id = group_kind_to_schema_id owner_gk in
      let owner_ref = construct owner.namespace owner.name in
      if not (has (some o) owner_gk owner)
      then (false, some o)
      else elim (Dict.lookup schema_id o) [
        | none ↦ (true, some (Dict.erase schema_id o))
        | some r ↦ elim r.references [
          | none ↦ (true, some (Dict.erase schema_id o))
          | some s ↦
              if sets.len (sets.delete owner_ref s) == 0
              then (true, some (Dict.erase schema_id o))
              else (
                true,
                some (
                    Dict.insert schema_id (record r { references = some (sets.delete owner_ref s) })
                      o),
              )
        ]
      ]
