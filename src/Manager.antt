-- ===== src/Manager.antt =====
-- main.go: the start of the manager. What controller-runtime and client-go do is a parameter.
pub mod Laws
use hci_controller_manager.Base.{
  Str, ℕ, Bool, List, [], ◌∷◌, M, pure, fail, crash, attempt, catch, ◌>>=◌, ◌>>◌,
}

-- The packages whose types `init` adds to the scheme.
pub data SchemeBuilder : Type 0 where
  client_go hci snapshot longhorn kubevirt : SchemeBuilder

-- The reconcilers that `main` sets up.
pub data Controller : Type 0 where
  virtual_machine_image backing_image virtual_machine_backup metadata backup_setting : Controller
  longhorn_backup volume_snapshot virtual_machine_restore persistent_volume_claim : Controller
  key_pair vm : Controller

-- The flags, with their defaults where they are not given.
pub record Flags : Type 0 where
  pub metrics_bind_address : Str
  pub health_probe_bind_address : Str
  pub leader_elect : Bool

pub record Runtime (W : Type 0) : Type 0 where
  pub add_to_scheme : SchemeBuilder → M W Unit
  pub parse_flags : M W Flags
  pub new_manager : Flags → M W Unit
  pub rest_client_for : M W Unit
  pub setup_with_manager : Controller → M W Unit
  pub add_healthz_check : M W Unit
  pub add_readyz_check : M W Unit
  -- `mgr.Start`, which returns when the manager is stopped
  pub start : M W Unit

module _ {W : Type 0} (r : Runtime W) where
  -- `utilruntime.Must`
  unfoldable pub add_all : List SchemeBuilder → M W Unit
  add_all [] = pure tt
  add_all (b ∷ builders) =
      let rest = add_all builders in catch (r.add_to_scheme b) (λ e. crash) >> rest

  unfoldable pub init : M W Unit
  unfolding add_all
  init = add_all (
      SchemeBuilder.client_go ∷ SchemeBuilder.hci ∷ SchemeBuilder.snapshot ∷ SchemeBuilder.longhorn
      ∷ SchemeBuilder.kubevirt ∷ [])

  -- The code of the process after a step: 1 if the step fails, else what follows.
  abbrev or_exit : {A : Type 0} → M W A → (A → M W ℕ) → M W ℕ
  or_exit step next = attempt step next (λ e. pure 1)

  unfoldable pub setup_all : List Controller → M W ℕ → M W ℕ
  setup_all [] next = next
  setup_all (c ∷ controllers) next =
      let rest = setup_all controllers next in or_exit (r.setup_with_manager c) (λ u. rest)

  abbrev pub controllers : List Controller
  controllers =
      virtual_machine_image ∷ backing_image ∷ virtual_machine_backup ∷ metadata ∷ backup_setting
      ∷ longhorn_backup ∷ volume_snapshot ∷ virtual_machine_restore ∷ persistent_volume_claim
      ∷ key_pair ∷ vm ∷ []

  -- The exit code; a manager that is stopped ends the process with 0.
  unfoldable pub main : M W ℕ
  unfolding setup_all
  main = r.parse_flags >>= λ flags. or_exit (r.new_manager flags) (λ u.
      or_exit r.rest_client_for (λ u. setup_all controllers (
        or_exit r.add_healthz_check
          (λ u. or_exit r.add_readyz_check (λ u. or_exit r.start (λ u. pure 0))))))
