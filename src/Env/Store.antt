-- ===== src/Env/Store.antt =====
-- An API server that answers: a read of one kind of object finds what was written last under its
-- key, and no call fails for another reason. This is how Kubernetes' API behaves between two calls
-- of one client, without conflicts and faults.
use hci_controller_manager.Base.{true, ◌≡◌, ◌≢◌, Option, none, some, ok, err, Err, is_not_found}
use hci_controller_manager.Api.{NamespacedName}
use hci_controller_manager.Env.{Resource}

pub record Store {W A : Type 0} (r : Resource W A) (key : A → NamespacedName) : Type 0 where
  pub view : W → NamespacedName → Option A
  pub view_key : (w : W) (k : NamespacedName) (a : A) → view w k ≡ some a → key a ≡ k
  pub get_some : (w : W) (k : NamespacedName) (a : A) → view w k ≡ some a → r.get k w ≡ (ok a, w)
  pub get_none :
      (w : W) (k : NamespacedName)
      → view w k ≡ none
      → (e : Err) × (is_not_found e ≡ true) × (r.get k w ≡ (err e, w))
  pub create_none :
      (w : W) (a : A)
      → view w (key a) ≡ none
      → (w' : W) × (r.create a w ≡ (ok tt, w'))
        × (view w' (key a) ≡ some a)
        × ((k : NamespacedName) → key a ≢ k → view w' k ≡ view w k)
  pub update_some :
      (w : W) (a b : A)
      → view w (key a) ≡ some b
      → (w' : W) × (r.update a w ≡ (ok tt, w'))
        × (view w' (key a) ≡ some a)
        × ((k : NamespacedName) → key a ≢ k → view w' k ≡ view w k)
