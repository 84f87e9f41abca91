-- ===== src/Backup/Setting/Credentials.antt =====
-- The secret of the backup target, written by the reconciler of the setting and read by the one of
-- backups.
use hci_controller_manager.Base.{
  Str, text, ◌≡◌, refl, some, [], ◌∷◌, ◌==◌, nat_eq, list_eq, if◌then◌else◌, arith, ok,
  Outcome-cases, inl, inr, ◌>>◌, M,
}
use native.Mathlib.Decide.{ℕ_discrete}
use hci_controller_manager.Base.Dict.{Dict, lookup, insert}
use hci_controller_manager.Api.{TargetSetting, HttpProxyConfig, Secret}
use hci_controller_manager.Env.{Env}
use hci_controller_manager.Pkg.Proxy.{add_built_in_no_proxy}
use hci_controller_manager.Backup.Target.{set_credentials, backup_target_secret_name}
use hci_controller_manager.Backup.Setting.{get_backup_secret_data, longhorn_key}
use hci_controller_manager.Backup.Secret.{secret_data}

-- What the secret of a target says.
abbrev pub Describes : TargetSetting → Str → HttpProxyConfig → Dict Str → Type 0
Describes target ca config contents =
    (lookup (text "AWS_ACCESS_KEY_ID") contents ≡ some target.access_key_id)
    × (lookup (text "AWS_SECRET_ACCESS_KEY") contents ≡ some target.secret_access_key)
    × (lookup (text "AWS_ENDPOINTS") contents ≡ some target.endpoint)
    × (lookup (text "AWS_CERT") contents ≡ some (if ca == [] then target.cert else ca))
    × (lookup (text "HTTP_PROXY") contents ≡ some config.http_proxy)
    × (lookup (text "HTTPS_PROXY") contents ≡ some config.https_proxy)
    × (lookup (text "NO_PROXY") contents ≡ some (add_built_in_no_proxy config.no_proxy))

secret_data_lem :
    (target : TargetSetting) (ca : Str) (config : HttpProxyConfig)
    → Describes target ca config (secret_data target ca config)
unfolding secret_data lookup insert text list_eq nat_eq ℕ_discrete
secret_data_lem target [] config = (refl, refl, refl, refl, refl, refl, refl)
secret_data_lem target (x ∷ ca) config = (refl, refl, refl, refl, refl, refl, refl)

module _ {W : Type 0} (h : Env W) where
  get_backup_secret_data-ok :
      (target : TargetSetting) (contents : Dict Str) (w w' : W)
      → get_backup_secret_data h target w ≡ (ok contents, w')
      → (config : HttpProxyConfig) × (contents ≡ secret_data target (h.additional_ca w) config)
  unfolding get_backup_secret_data
  get_backup_secret_data-ok target contents w w' made =
      elim (Outcome-cases (h.decode_http_proxy_config (h.http_proxy w))) [
        | inl (config, e) ↦ (config, ground arith)
        | inr (inl (f, e)) ↦ absurd (ground arith)
        | inr (inr e) ↦ absurd (ground arith)
      ]

  -- The four variables that a driver of the target wants.
  unfoldable pub set_target_credentials : TargetSetting → Str → M W Unit
  set_target_credentials target ca = do
    h.setenv (text "AWS_ACCESS_KEY_ID") target.access_key_id
    h.setenv (text "AWS_SECRET_ACCESS_KEY") target.secret_access_key
    h.setenv (text "AWS_ENDPOINTS") target.endpoint
    h.setenv (text "AWS_CERT") (if ca == [] then target.cert else ca)

  -- Where a secret with the data of a target is found later, the backup controller's driver gets the
  -- target's own credentials and endpoint, and the additional certificate if there is one.
  pub set_credentials-get_backup_secret_data :
      (target : TargetSetting) (contents : Dict Str) (secret : Secret) (w w' u v : W)
      → get_backup_secret_data h target w ≡ (ok contents, w')
      → h.secrets.get (longhorn_key backup_target_secret_name) u ≡ (ok secret, v)
      → secret.contents ≡ contents
      → set_credentials h u ≡ set_target_credentials target (h.additional_ca w) v
  unfolding set_credentials get_backup_secret_data set_target_credentials
  set_credentials-get_backup_secret_data target contents secret w w' u v made found kept =
      let (config, e) = get_backup_secret_data-ok target contents w w' made in
      let says = secret_data_lem target (h.additional_ca w) config in
      rw (found, kept, e, says.0, says.1, says.2, says.3) refl
