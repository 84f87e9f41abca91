-- ===== src/Pkg/Settings/Registered/Laws.antt =====
-- On the settings that are registered when the package starts.
use hci_controller_manager.Base.{
  Str, ◌≡◌, refl, inl, inr, List, [], ◌∷◌, nat_eq, list_eq, arith, Option-cases,
}
use hci_controller_manager.Base.Dict
use hci_controller_manager.Base.Dict.{Dict, lookup-insert}
use hci_controller_manager.Pkg.Settings.{NamedSetting, Registry, new_setting, inject_defaults}
use hci_controller_manager.Pkg.Settings.Laws.{IsRegistry}
use hci_controller_manager.Pkg.Settings.Registered.{register_all}

insert-IsRegistry :
    (n : Str) (s : NamedSetting) (m : Dict NamedSetting)
    → s.name ≡ n
    → IsRegistry m
    → IsRegistry (Dict.insert n s m)
insert-IsRegistry n s m named registry k t found =
    ground (arith, named, registry k t, lookup-insert k n s m, found)

-- The injected defaults leave every setting under its own name.
pub inject_defaults-IsRegistry :
    (defaults : Dict Str) (m : Dict NamedSetting)
    → IsRegistry m
    → IsRegistry (inject_defaults defaults m)
unfolding inject_defaults
inject_defaults-IsRegistry [] m registry = registry
inject_defaults-IsRegistry ((name, v) ∷ defaults) m registry =
    elim (Option-cases (Dict.lookup name m)) [
      | inl none_found ↦ rw none_found (inject_defaults-IsRegistry defaults m registry)
      | inr (value, found) ↦ rw found (
          inject_defaults-IsRegistry defaults _ (
            insert-IsRegistry name (record value { default = v }) m (registry name value found)
              registry))
    ]

-- The settings that NewSetting registers stand under their own names.
pub register_all-IsRegistry :
    {W : Type 0} (rows : List (Str × Str)) (r : Registry W)
    → IsRegistry r.settings
    → IsRegistry (register_all rows r).settings
unfolding register_all new_setting
register_all-IsRegistry [] r registry = registry
register_all-IsRegistry ((name, def) ∷ rows) r registry =
    register_all-IsRegistry rows _ (insert-IsRegistry name _ r.settings refl registry)
