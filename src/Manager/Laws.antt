-- ===== src/Manager/Laws.antt =====
-- On the start of the manager.
use hci_controller_manager.Base.{
  ℕ, ◌≡◌, ◌↔◌, refl, List, [], ◌∷◌, ◌++◌, map, M, ok, pure, attempt, cases-ok, inl, inr, pure-ok,
  arith,
}
use hci_controller_manager.Manager.{Runtime, Flags, Controller, main, setup_all, controllers}

module _ {W : Type 0} where
  -- The steps run in this order from `w` to `v`, each with success.
  abbrev pub Runs : List (M W Unit) → W → W → Type 0
  Runs [] w v = w ≡ v
  Runs (m ∷ ms) w v = (u : W) × (m w ≡ (ok tt, u)) × Runs ms u v

  step-0 :
      (m : M W Unit) (next : M W ℕ) (ms : List (M W Unit)) (w v : W)
      → ((u : W) → (next u ≡ (ok 0, v)) ↔ Runs ms u v)
      → (attempt m (λ _. next) (λ e. pure 1) w ≡ (ok 0, v)) ↔ Runs (m ∷ ms) w v
  step-0 m next ms w v iff = (
    λ e. elim (cases-ok (m w) e) [
      | inl (t, u, ran, rest) ↦ (u, ran, (iff u).0 rest)
      | inr (x, u, ran, rest) ↦ absurd (ground (arith, pure-ok rest))
    ],
    λ (u, ran, rest). rw ran ((iff u).1 rest),
  )

  setup_all-0 :
      (r : Runtime W) (cs : List Controller) (next : M W ℕ) (ms : List (M W Unit)) (w v : W)
      → ((u : W) → (next u ≡ (ok 0, v)) ↔ Runs ms u v)
      → (setup_all r cs next w ≡ (ok 0, v)) ↔ Runs (map r.setup_with_manager cs ++ ms) w v
  unfolding setup_all
  setup_all-0 r [] next ms w v iff = iff w
  setup_all-0 r (c ∷ cs) next ms w v iff =
      step-0 (r.setup_with_manager c) (setup_all r cs next) _ w v
        (λ u. setup_all-0 r cs next ms u v iff)

  abbrev checks : Runtime W → List (M W Unit)
  checks r = r.add_healthz_check ∷ r.add_readyz_check ∷ r.start ∷ []

  abbrev setups : Runtime W → List (M W Unit)
  setups r = map r.setup_with_manager (controllers r) ++ checks r

  -- What `main` runs behind the flags.
  abbrev pub steps : Runtime W → Flags → List (M W Unit)
  steps r flags = r.new_manager flags ∷ r.rest_client_for ∷ setups r

  -- The process exits with 0 exactly where every step of `main` has run with success, in the order of
  -- the source.
  pub main-0 :
      (r : Runtime W) (w u v : W) (flags : Flags)
      → r.parse_flags w ≡ (ok flags, u)
      → (main r w ≡ (ok 0, v)) ↔ Runs (steps r flags) u v
  unfolding main
  main-0 r w u v flags parsed = rw parsed (
      step-0 (r.new_manager flags) _ (r.rest_client_for ∷ setups r) u v (λ a.
        step-0 r.rest_client_for _ (setups r) a v (λ b.
          setup_all-0 r (controllers r) _ (checks r) b v (λ c.
            step-0 r.add_healthz_check _ (r.add_readyz_check ∷ r.start ∷ []) c v (λ d.
              step-0 r.add_readyz_check _ (r.start ∷ []) d v (λ e.
                step-0 r.start (pure 0) [] e v (λ x. (λ q. (pure-ok q).1, λ q. rw q refl))))))))
