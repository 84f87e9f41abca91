-- ===== src/Pkg/Indexer.antt =====
-- pkg/indexer/indexer.go. The index of client-go is a parameter: `W` holds it, and `O` is what it
-- stores (`interface{}`).
use hci_controller_manager.Base.{
  Str, text, Option, none, some, List, [], ◌∷◌, ◌++◌, M, Err, Outcome, ok, err, panic, errorf, pure,
  crash, deref, catch, ◌>>=◌,
}
use hci_controller_manager.Api.{ObjectMeta, PersistentVolumeClaim}
use hci_controller_manager.Backup.State.{annotation}
use hci_controller_manager.Claims.{pvc_by_vm_index}

-- An index function: values and an error.
abbrev pub IndexFunc : Type 0 → Type 0
IndexFunc O = O → Outcome (List Str × Option Err)

-- `cache.Indexer`
pub record Index (W O : Type 0) : Type 0 where
  pub add_indexers : Str → IndexFunc O → M W Unit
  pub by_index : Str → Str → M W (List O)

-- `meta.Accessor`
unfoldable pub annotations_index_func : {O : Type 0} → (O → Outcome ObjectMeta) → IndexFunc O
annotations_index_func accessor obj = elim (accessor obj) [
  | ok m ↦ ok (annotation m pvc_by_vm_index ∷ [], none)
  | err e ↦ ok ([] ∷ [], some (errorf (text "object has no meta: " ++ e.message)))
  | panic ↦ panic
]

module _ {W O : Type 0} (index : Index W O) (to_claim : O → Option PersistentVolumeClaim) where
  -- `obj.(*corev1.PersistentVolumeClaim)`, which panics on another type
  abbrev claim_indexer : (PersistentVolumeClaim → List Str × Option Err) → IndexFunc O
  claim_indexer indexer obj = elim (to_claim obj) [ none ↦ panic | some claim ↦ ok (indexer claim) ]

  -- `utilruntime.Must` panics on an error.
  unfoldable pub add_indexer : Str → (PersistentVolumeClaim → List Str × Option Err) → M W Unit
  add_indexer index_name indexer =
      catch (index.add_indexers index_name (claim_indexer indexer)) (λ e. crash)

  -- The loop of `GetByIndex`.
  unfoldable pub cast_all : List O → M W (List PersistentVolumeClaim)
  cast_all [] = pure []
  cast_all (obj ∷ objs) =
      let rest = cast_all objs in
      do claim ← deref (to_claim obj); claims ← rest; pure (claim ∷ claims)

  unfoldable pub get_by_index : Str → Str → M W (List PersistentVolumeClaim)
  unfolding cast_all
  get_by_index index_name key = index.by_index index_name key >>= cast_all
