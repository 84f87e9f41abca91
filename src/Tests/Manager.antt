-- ===== src/Tests/Manager.antt =====
-- The start of the manager, the index of claims, and plurals, at small inputs.
use hci_controller_manager.Base.{
  ◌≡◌, refl, text, ℕ, suc, [], ◌∷◌, map, M, ok, list_eq, nat_eq, pure, false, get_elem?, take,
}
use native.Mathlib.Decide.{ℕ_discrete}
use hci_controller_manager.Manager.{Runtime, Flags, main, setup_all}
use hci_controller_manager.Pkg.Names.Plural.{guess_plural_name, suffix}

-- A world that counts the steps.
abbrev step : M ℕ Unit
step n = (ok tt, suc n)

abbrev flags : Flags
flags = record {
  metrics_bind_address = text ":8080";
  health_probe_bind_address = text ":8081";
  leader_elect = false;
}

abbrev runtime : Runtime ℕ
runtime = record {
  add_to_scheme = λ b. pure tt;
  parse_flags = pure flags;
  new_manager = λ f. step;
  rest_client_for = step;
  setup_with_manager = λ c. step;
  add_healthz_check = step;
  add_readyz_check = step;
  start = step;
}

main_runs : main runtime 0 ≡ (ok 0, 16)
unfolding main setup_all
main_runs = refl

-- The plural of a name on `f` keeps the `f`.
plurals :
    map guess_plural_name
      (text "Pod" ∷ text "Policy" ∷ text "Gateway" ∷ text "endpoints" ∷ text "Leaf" ∷ [])
    ≡ text "Pods" ∷ text "Policies" ∷ text "Gateways" ∷ text "endpoints" ∷ text "Leafves" ∷ []
unfolding guess_plural_name suffix text list_eq nat_eq ℕ_discrete get_elem? take
plurals = refl
