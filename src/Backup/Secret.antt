-- ===== src/Backup/Secret.antt =====
-- controllers/hci/backup_target.go: the data of the secret that Longhorn reads the credentials of the
-- backup target from.
use hci_controller_manager.Base.{
  Str, text, Bool, true, false, ◌&&◌, Option, none, some, [], ◌∷◌, ◌==◌, ◌!=◌, nat_eq, list_eq,
  if◌then◌else◌, length,
}
use hci_controller_manager.Base.Dict
use hci_controller_manager.Base.Dict.{Dict}
use hci_controller_manager.Api.{
  TargetSetting, TargetType, s3, nfs, unset, other_type, HttpProxyConfig, longhorn_setting_eq,
}
use hci_controller_manager.Pkg.Proxy.{add_built_in_no_proxy}

-- `strconv.FormatBool`
abbrev pub format_bool : Bool → Str
format_bool true = text "true"
format_bool false = text "false"

abbrev pub target_type_text : TargetType → Str
target_type_text s3 = text "s3"
target_type_text nfs = text "nfs"
target_type_text unset = []
target_type_text (other_type t) = t

-- The target without its credentials, as it is written back.
abbrev pub without_credentials : TargetSetting → TargetSetting
without_credentials target = record target { secret_access_key = []; access_key_id = [] }

-- `reflect.DeepEqual` on two maps without repeated keys
unfoldable pub contains_all : Dict Str → Dict Str → Bool
contains_all m [] = true
contains_all m ((k, v) ∷ entries) =
    let rest = contains_all m entries in
    elim (Dict.lookup k m) [ none ↦ false | some v' ↦ (v == v') && rest ]

abbrev pub same_data : Option (Dict Str) → Dict Str → Bool
same_data none n = false
same_data (some m) n = (length m == length n) && contains_all m n

-- The data of the secret, from the target, the setting `additional-ca` and the proxies.
unfoldable pub secret_data : TargetSetting → Str → HttpProxyConfig → Dict Str
secret_data target additional_ca config =
    let entries =
      (text "AWS_ACCESS_KEY_ID", target.access_key_id)
      ∷ (text "AWS_SECRET_ACCESS_KEY", target.secret_access_key)
      ∷ (text "AWS_ENDPOINTS", target.endpoint)
      ∷ (text "AWS_CERT", target.cert)
      ∷ (text "VIRTUAL_HOSTED_STYLE", format_bool target.virtual_hosted_style)
      ∷ [] in
    let with_ca =
      if additional_ca != []
      then Dict.insert (text "AWS_CERT") additional_ca entries
      else entries in
    Dict.insert (text "NO_PROXY") (add_built_in_no_proxy config.no_proxy) (
      Dict.insert (text "HTTPS_PROXY") config.https_proxy
        (Dict.insert (text "HTTP_PROXY") config.http_proxy with_ca))
