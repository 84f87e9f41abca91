-- ===== src/Pkg/Settings/Laws.antt =====
-- On the registry of settings.
use hci_controller_manager.Base.{Str, ◌≡◌, none, some, ◌==◌, nat_eq, list_eq, if◌then◌else◌, arith}
use hci_controller_manager.Base.Dict
use hci_controller_manager.Base.Dict.{Dict, lookup-insert}
use hci_controller_manager.Pkg.Settings.{NamedSetting, Registry, set, get, set_default, default_of}

-- Every setting is registered under its own name.
abbrev pub IsRegistry : Dict NamedSetting → Type 0
IsRegistry settings = (k : Str) (s : NamedSetting) → Dict.lookup k settings ≡ some s → s.name ≡ k

set_default_reads :
    (n k : Str) (old : NamedSetting) (value : Str) (settings : Dict NamedSetting)
    → Dict.lookup n settings ≡ some old
    → old.name ≡ n
    → default_of (Dict.lookup k (set_default (Dict.lookup n settings) value settings))
      ≡ (if n == k then value else default_of (Dict.lookup k settings))
set_default_reads n k old value settings found named =
    rw (found, lookup-insert k old.name (record old { default = value }) settings, named)
      (ground arith)

module _ {W : Type 0} where
  -- Without a provider, a setting that is registered reads as it was set, and every other setting as
  -- before.
  get-set :
      (s j old : NamedSetting) (value : Str) (r : Registry W)
      → r.provider ≡ none
      → IsRegistry r.settings
      → Dict.lookup s.name r.settings ≡ some old
      → get j (set s value r).1 ≡ (if s.name == j.name then value else get j r)
  unfolding get set
  get-set s j old value r alone registry found = ground (
    arith,
    alone,
    set_default_reads s.name j.name old value r.settings found (registry s.name old found),
  )
