-- ===== src/Tests/Settings.antt =====
-- The registry of settings at small inputs.
use hci_controller_manager.Base.{
  text, ◌≡◌, refl, true, false, none, some, map, [], ◌∷◌, nat_eq, list_eq, arith,
}
use native.Mathlib.Decide.{ℕ_discrete}
use hci_controller_manager.Base.Dict
use hci_controller_manager.Base.Dict.{Dict}
use hci_controller_manager.Pkg.Settings.{NamedSetting, Registry, set, get, get_env_key, new_setting}
use hci_controller_manager.Pkg.Settings.Registered.{
  pos, negsuc, number, digits, atoi, get_int, is_release, contains, matches_release, register_all,
  registered_settings, server_version,
}
use hci_controller_manager.Pkg.Settings.Registered.Laws.{register_all-IsRegistry}
use hci_controller_manager.Pkg.Strings.{has_prefix}
use hci_controller_manager.Pkg.Settings.Laws.{IsRegistry}

abbrev ui_path : NamedSetting
ui_path = record { name = text "ui-path"; default = text "/usr"; read_only = false }

abbrev ui_source : NamedSetting
ui_source = record { name = text "ui-source"; default = text "auto"; read_only = false }

abbrev two_settings : Registry Unit
two_settings = record {
  settings = (text "ui-path", ui_path) ∷ (text "ui-source", ui_source) ∷ [];
  provider = none;
  world = tt;
}

two_settings-IsRegistry : IsRegistry two_settings.settings
unfolding Dict.lookup
two_settings-IsRegistry k s e = ground arith

get_env_key_runs : get_env_key (text "ui-path") ≡ text "HARVESTER_UI_PATH"
unfolding get_env_key text list_eq nat_eq ℕ_discrete
get_env_key_runs = refl

atoi_runs :
    map atoi (text "10" ∷ text "-7" ∷ text "1e3" ∷ []) ≡ some (pos 10) ∷ some (negsuc 6) ∷ none ∷ []
unfolding atoi number digits text list_eq nat_eq ℕ_discrete
atoi_runs = refl

atoi_too_large : map atoi (text "9223372036854775808" ∷ text "" ∷ []) ≡ none ∷ none ∷ []
unfolding atoi number digits text list_eq nat_eq ℕ_discrete
atoi_too_large = refl

abbrev no_settings : Registry Unit
no_settings = record { settings = []; provider = none; world = tt }

abbrev started : Registry Unit
started = register_all (registered_settings [] []) no_settings

support_bundle_timeout_reads :
    get_int
      (record { name = text "support-bundle-timeout"; default = text "10"; read_only = false })
      started
    ≡ pos 10
unfolding register_all registered_settings new_setting get get_int atoi number digits Dict.lookup
    Dict.insert text list_eq nat_eq ℕ_discrete
support_bundle_timeout_reads = refl

is_release_runs :
    map
      (λ v. is_release (set server_version v started).1)
      (text "dev" ∷ text "v1.1.0" ∷ text "v1.1-head" ∷ [])
    ≡ false ∷ true ∷ false ∷ []
unfolding register_all registered_settings new_setting get set is_release contains matches_release
    has_prefix Dict.lookup Dict.insert text list_eq nat_eq ℕ_discrete
is_release_runs = refl

-- What the package registers stands under its own names, so that setting and reading agree.
started-IsRegistry : IsRegistry started.settings
unfolding Dict.lookup
started-IsRegistry =
    register_all-IsRegistry (registered_settings [] []) no_settings (λ k s e. ground arith)
