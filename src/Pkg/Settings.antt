-- ===== src/Pkg/Settings.antt =====
-- pkg/settings/settings.go: the registry of settings and the provider that takes its place once it is
-- set. `W` is what the provider keeps.
pub mod Laws
pub mod Registered
use hci_controller_manager.Base.{
  Str, text, ℕ, ◌-◌, Bool, true, false, ◌&&◌, Option, none, some, List, [], ◌∷◌, ◌++◌, ◌==◌, nat_eq,
  list_eq, if◌then◌else◌, leb, map, M, Outcome, ok, err, panic, errorf,
}
use hci_controller_manager.Base.Dict
use hci_controller_manager.Base.Dict.{Dict}
use hci_controller_manager.Api.{CsiDriverInfo}

-- `Setting` of this package
pub record NamedSetting : Type 0 where
  pub name : Str
  pub default : Str
  pub read_only : Bool

pub record Provider (W : Type 0) : Type 0 where
  pub get : Str → W → Str
  pub set : Str → Str → M W Unit
  pub set_if_unset : Str → Str → M W Unit
  pub set_all : Dict NamedSetting → M W Unit

-- The package's variables, and the provider's world.
pub record Registry (W : Type 0) : Type 0 where
  pub settings : Dict NamedSetting
  pub provider : Option (Provider W)
  pub world : W

-- The loop of `init`: a default that was injected for a setting that is registered.
unfoldable pub inject_defaults : Dict Str → Dict NamedSetting → Dict NamedSetting
inject_defaults [] settings = settings
inject_defaults ((name, default_value) ∷ defaults) settings =
    inject_defaults defaults (elim (Dict.lookup name settings) [
      | none ↦ settings
      | some value ↦ Dict.insert name (record value { default = default_value }) settings
    ])

-- `strings.ToUpper` and `strings.Replace(key, "-", "_", -1)` at one byte of an ASCII text
abbrev pub env_byte : ℕ → ℕ
env_byte c = if c == b'-' then b'_' else if leb 97 c && leb c 122 then c - 32 else c

unfoldable pub get_env_key : Str → Str
get_env_key key = text "HARVESTER_" ++ map env_byte key

-- Without a provider, a setting that is not registered is not set.
abbrev pub set_default : Option NamedSetting → Str → Dict NamedSetting → Dict NamedSetting
set_default none value settings = settings
set_default (some s) value settings = Dict.insert s.name (record s { default = value }) settings

abbrev pub default_of : Option NamedSetting → Str
default_of none = []
default_of (some s) = s.default

module _ {W : Type 0} where
  -- What a call of the provider leaves.
  abbrev pub with_world : Registry W → Outcome Unit × W → Outcome Unit × Registry W
  with_world r (o, w) = (o, record r { world = w })

  unfoldable pub new_setting : Str → Str → Registry W → NamedSetting × Registry W
  new_setting name def r =
      let s : NamedSetting = record { name = name; default = def; read_only = false } in
      (s, record r { settings = Dict.insert name s r.settings })

  unfoldable pub set : NamedSetting → Str → M (Registry W) Unit
  set s value r = elim r.provider [
    | none ↦ (
      ok tt,
      record r { settings = set_default (Dict.lookup s.name r.settings) value r.settings },
    )
    | some provider ↦ with_world r (provider.set s.name value r.world)
  ]

  unfoldable pub set_if_unset : NamedSetting → Str → M (Registry W) Unit
  unfolding set
  set_if_unset s value r = elim r.provider [
    | none ↦ set s value r
    | some provider ↦ with_world r (provider.set_if_unset s.name value r.world)
  ]

  unfoldable pub get : NamedSetting → Registry W → Str
  get s r = elim r.provider [
    | none ↦ default_of (Dict.lookup s.name r.settings)
    | some provider ↦ provider.get s.name r.world
  ]

  abbrev pub take_over : Provider W → Outcome Unit × Registry W → Outcome Unit × Registry W
  take_over p (ok t, r) = (ok t, record r { provider = some p })
  take_over p (err e, r) = (err e, r)
  take_over p (panic, r) = (panic, r)

  unfoldable pub set_provider : Provider W → M (Registry W) Unit
  set_provider p r = take_over p (with_world r (p.set_all r.settings r.world))

-- `GetCSIDriverInfo`, from the setting's value and its JSON
unfoldable pub get_csi_driver_info :
    (Str → Outcome (Dict CsiDriverInfo)) → Str → Str → Outcome CsiDriverInfo
get_csi_driver_info decode value provisioner = elim (decode value) [
  | ok csi_driver_config ↦ elim (Dict.lookup provisioner csi_driver_config) [
    | none ↦ err (errorf (text "can not find csi driver info for " ++ provisioner))
    | some info ↦ ok info
  ]
  | err e ↦ err e
  | panic ↦ panic
]
