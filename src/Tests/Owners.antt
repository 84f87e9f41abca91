-- ===== src/Tests/Owners.antt =====
-- Owners with lists as sets, at small inputs.
use hci_controller_manager.Base.{
  Str, text, ◌≡◌, refl, true, false, not, none, some, List, [], ◌∷◌, ◌==◌, nat_eq, list_eq,
  if◌then◌else◌, arith, length, ok, panic,
}
use hci_controller_manager.Base.Dict
use hci_controller_manager.Base.Dict.{Dict}
use hci_controller_manager.Api.{NamespacedName, ObjectMeta}
use hci_controller_manager.Pkg.Strings.{contains_string}
use hci_controller_manager.Pkg.Ref.{construct}
use hci_controller_manager.Pkg.Owners.{
  SchemaReference, GroupKind, group_kind_to_schema_id, has, has_at, add,
  annotation_schema_owner_key_name,
}
use hci_controller_manager.Pkg.Owners.Sets.{StringSet}
use hci_controller_manager.Pkg.Owners.Laws.{IsKeyed, IsAdded, add_refines}
use hci_controller_manager.Pkg.Owners.Annotation.{
  JsonReference, sort_refs, entries_of, bind, get_schema_owners_from_annotation,
}
use hci_controller_manager.Pkg.Owners.Annotation.Laws.{
  get_schema_owners_from_annotation-bind, add_missing_refs,
}
use hci_controller_manager.Tests.World.{meta}

delete_item : Str → List Str → List Str
delete_item k [] = []
delete_item k (x ∷ s) = let rest = delete_item k s in if k == x then rest else x ∷ rest

contains_string-delete_item :
    (j k : Str) (s : List Str)
    → contains_string (delete_item k s) j ≡ (if k == j then false else contains_string s j)
unfolding delete_item contains_string
contains_string-delete_item j k [] = ground arith
contains_string-delete_item j k (x ∷ s) = ground (arith, contains_string-delete_item j k s)

contains_string-cons :
    (j k : Str) (s : List Str)
    → contains_string (k ∷ s) j ≡ (if k == j then true else contains_string s j)
unfolding contains_string
contains_string-cons j k s = refl

length_zero : (s : List Str) (j : Str) → length s ≡ 0 → contains_string s j ≡ false
unfolding contains_string
length_zero [] j e = refl
length_zero (x ∷ s) j e = absurd (omega arith)

list_sets : StringSet (List Str)
unfolding contains_string
list_sets = record {
  empty = [];
  insert = λ k s. k ∷ s;
  delete = delete_item;
  has = contains_string;
  len = length;
  list = λ s. s;
  unsorted_list = λ s. s;
  of_list = λ s. s;
  has_of_list = λ s j. refl;
  has_empty = λ j. refl;
  has_insert = contains_string-cons;
  has_delete = contains_string-delete_item;
  len_zero = length_zero;
  has_list = λ s j. refl;
  has_unsorted_list = λ s j. refl;
}

abbrev vm_kind : GroupKind
vm_kind = record { group = text "kubevirt.io"; kind = text "VirtualMachine" }

abbrev vm_name : NamespacedName
vm_name = record { namespace = text "ns"; name = text "vm" }

abbrev vm_owners : Dict (SchemaReference (List Str))
vm_owners =
    (
      text "kubevirt.io.virtualmachine",
      record {
        schema_id = text "kubevirt.io.virtualmachine";
        references = some (text "ns/vm" ∷ []);
      },
    )
    ∷ []

vm_owners-IsKeyed : IsKeyed vm_owners
unfolding Dict.lookup
vm_owners-IsKeyed k r e = (ground arith, λ n. ground arith)

abbrev vm_schema : Str
vm_schema = group_kind_to_schema_id vm_kind

abbrev vm_ref : Str
vm_ref = construct vm_name.namespace vm_name.name

add_refines_example :
    (o' : Dict (SchemaReference (List Str))) × (add list_sets (some vm_owners) vm_kind vm_name
      ≡ ok (not (has list_sets (some vm_owners) vm_kind vm_name), some o'))
    × IsKeyed o'
    × IsAdded list_sets vm_schema vm_ref vm_owners o'
add_refines_example = add_refines list_sets vm_owners vm_kind vm_name vm_owners-IsKeyed

abbrev vm_json : List JsonReference
vm_json = (text "kubevirt.io.virtualmachine", some (text "ns/vm" ∷ [])) ∷ []

get_schema_owners_from_annotation-bind_example :
    (meta' : ObjectMeta) × (o' : Dict (SchemaReference (List Str))) × (bind list_sets
        (λ refs. ok (text "json"))
        (some vm_owners)
        (meta (text "pvc"))
      ≡ ok meta')
    × (get_schema_owners_from_annotation list_sets (λ s. ok vm_json) meta' ≡ ok o')
    × IsKeyed o'
    × ((j x : Str) → has_at list_sets o' j x ≡ has_at list_sets vm_owners j x)
unfolding text Dict.lookup sort_refs entries_of list_sets
get_schema_owners_from_annotation-bind_example =
    get_schema_owners_from_annotation-bind list_sets (λ refs. ok (text "json")) (λ s. ok vm_json)
      vm_owners (text "json") (meta (text "pvc")) (refl, λ e. cc, λ e. cc, refl, tt) refl refl

abbrev owned_claim : ObjectMeta
owned_claim = record (meta (text "pvc")) {
  annotations = some ((annotation_schema_owner_key_name, text "json") ∷ []);
}

add_missing_refs_example :
    (o : Dict (SchemaReference (List Str))) × (get_schema_owners_from_annotation list_sets
        (λ s. ok ((vm_schema, none) ∷ []))
        owned_claim
      ≡ ok o)
    × (add list_sets (some o) vm_kind vm_name ≡ panic)
unfolding group_kind_to_schema_id Dict.lookup text
add_missing_refs_example =
    add_missing_refs list_sets (λ s. ok ((vm_schema, none) ∷ [])) owned_claim (text "json") vm_kind
      vm_name (ground arith) refl (λ e. cc)
