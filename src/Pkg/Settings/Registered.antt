-- ===== src/Pkg/Settings/Registered.antt =====
-- pkg/settings/settings.go: the settings that the package registers, and its readers GetInt and
-- IsRelease.
pub mod Laws
use hci_controller_manager.Base.{
  Str, text, ℕ, ◌+◌, ◌-◌, Bool, true, false, ◌&&◌, Option, none, some, List, [], ◌∷◌, ◌==◌, nat_eq,
  not, if◌then◌else◌, leb, ltb,
}
use Prim.Native.Nat.{◌*◌, ◌^◌, suc, zero}
use hci_controller_manager.Pkg.Strings.{has_prefix}
use hci_controller_manager.Pkg.Settings.{NamedSetting, Registry, new_setting, get}

-- Names and defaults in the order of the source. The two that the package computes are
-- `InitBackupTargetToString()` and `InitVMForceResetPolicy()`.
unfoldable pub registered_settings : Str → Str → List (Str × Str)
registered_settings backup_target vm_force_reset_policy =
    (text "additional-ca", [])
    ∷ (text "api-ui-version", text "1.1.9")
    ∷ (text "cluster-registration-url", [])
    ∷ (text "server-version", text "dev")
    ∷ (
      text "ui-index",
      text "https://releases.rancher.com/harvester-ui/dashboard/latest/index.html",
    )
    ∷ (text "ui-path", text "/usr/share/harvester/harvester")
    ∷ (text "ui-source", text "auto")
    ∷ (
      text "ui-plugin-index",
      text
          "https://releases.rancher.com/harvester-ui/plugin/harvester-latest/harvester-latest.umd.min.js",
    )
    ∷ (text "volume-snapshot-class", text "longhorn")
    ∷ (text "backup-target", backup_target)
    ∷ (text "upgradable-versions", [])
    ∷ (text "upgrade-checker-enabled", text "true")
    ∷ (
      text "upgrade-checker-url",
      text "https://harvester-upgrade-responder.rancher.io/v1/checkupgrade",
    )
    ∷ (text "release-download-url", text "https://releases.rancher.com/harvester")
    ∷ (text "log-level", text "info")
    ∷ (text "ssl-certificates", text "{}")
    ∷ (text "ssl-parameters", text "{}")
    ∷ (text "support-bundle-image", text "{}")
    ∷ (text "support-bundle-namespaces", [])
    ∷ (text "support-bundle-timeout", text "10")
    ∷ (text "default-storage-class", text "longhorn")
    ∷ (text "http-proxy", text "{}")
    ∷ (text "vm-force-reset-policy", vm_force_reset_policy)
    ∷ (text "overcommit-config", text "{\"cpu\":1600,\"memory\":150,\"storage\":200}")
    ∷ (text "vip-pools", [])
    ∷ (text "auto-disk-provision-paths", [])
    ∷ (
      text "csi-driver-config",
      text
          "{\"driver.longhorn.io\":{\"volumeSnapshotClassName\":\"longhorn-snapshot\",\"backupVolumeSnapshotClassName\":\"longhorn\"}}",
    )
    ∷ (text "containerd-registry", [])
    ∷ (text "storage-network", [])
    ∷ (
      text "harvester-csi-ccm-versions",
      text
          "{\"harvester-cloud-provider\":\">=0.0.1 <0.1.14\",\"harvester-csi-provider\":\">=0.0.1 <0.1.15\"}",
    )
    ∷ []

-- The package's variables after its `var` block.
unfoldable pub register_all : {W : Type 0} → List (Str × Str) → Registry W → Registry W
register_all [] r = r
register_all ((name, def) ∷ rest) r = register_all rest (new_setting name def r).1

-- Go's `int`
pub data ℤ : Type 0 where
  pos : ℕ → ℤ
  negsuc : ℕ → ℤ

-- The decimal digits behind a number that was read so far.
unfoldable pub digits : ℕ → Str → Option ℕ
digits n [] = some n
digits n (c ∷ cs) =
    let rest = digits (n * 10 + (c - 48)) cs in if leb 48 c && leb c 57 then rest else none

unfoldable pub number : Str → Option ℕ
unfolding digits
number [] = none
number (c ∷ cs) = digits 0 (c ∷ cs)

abbrev negate : ℕ → ℤ
negate zero = pos 0
negate (suc n) = negsuc n

-- Integers of 64 bits; what is out of range is an error.
abbrev in_range : Bool → Option ℕ → Option ℤ
in_range negative none = none
in_range false (some n) = if ltb n (2 ^ 63) then some (pos n) else none
in_range true (some n) = if leb n (2 ^ 63) then some (negate n) else none

-- `strconv.Atoi`, with `none` for an error
unfoldable pub atoi : Str → Option ℤ
unfolding number
atoi [] = none
atoi (c ∷ cs) =
    if c == b'-'
    then in_range true (number cs)
    else if c == b'+'
    then in_range false (number cs)
    else in_range false (number (c ∷ cs))

abbrev pub int_or : Option ℤ → ℤ → ℤ
int_or none d = d
int_or (some i) d = i

-- `GetInt`: the value, else the default that the setting was made with, else 0.
unfoldable pub get_int : {W : Type 0} → NamedSetting → Registry W → ℤ
get_int s r = int_or (atoi (get s r)) (int_or (atoi s.default) (pos 0))

-- `strings.Contains`
unfoldable pub contains : Str → Str → Bool
contains [] sub = has_prefix [] sub
contains (c ∷ cs) sub = let rest = contains cs sub in if has_prefix (c ∷ cs) sub then true else rest

-- `^v[0-9]`
unfoldable pub matches_release : Str → Bool
matches_release [] = false
matches_release (v ∷ []) = false
matches_release (v ∷ d ∷ rest) = v == b'v' && (leb 48 d && leb d 57)

-- `ServerVersion`
abbrev pub server_version : NamedSetting
server_version = record { name = text "server-version"; default = text "dev"; read_only = false }

unfoldable pub is_release : {W : Type 0} → Registry W → Bool
is_release r =
    not (contains (get server_version r) (text "head")) && matches_release (get server_version r)
