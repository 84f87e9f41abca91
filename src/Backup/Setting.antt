-- ===== src/Backup/Setting.antt =====
-- controllers/hci/backup_target.go: the reconciler of the setting `backup-target`. Every `ctrl.Result`
-- that it returns is empty, so a call returns a unit or an error.
pub mod Laws
pub mod Credentials
use hci_controller_manager.Base.{
  Str, text, ℕ, Bool, true, false, not, ◌&&◌, ◌||◌, Option, none, some, List, [], ◌∷◌, ◌++◌, ◌==◌,
  ◌!=◌, nat_eq, list_eq, if◌then◌else◌, length, M, ok, err, panic, Err, errorf, is_not_found, pure,
  fail, of_outcome, attempt, catch, ◌>>=◌, ◌>>◌,
}
use hci_controller_manager.Base.Dict
use hci_controller_manager.Base.Dict.{Dict}
use hci_controller_manager.Api.{
  ObjectMeta, NamespacedName, Condition, condition_false, Setting, TargetSetting, TargetType, s3,
  nfs, unset, other_type, LonghornSetting, HttpProxyConfig, longhorn_setting_eq,
}
use hci_controller_manager.Env.{Env}
use hci_controller_manager.Pkg.Condition.{set_error, set_status, set_message, set_reason, is_false}
use hci_controller_manager.Pkg.Proxy.{add_built_in_no_proxy}
use hci_controller_manager.Backup.Objects.{empty_meta}
use hci_controller_manager.Backup.Machine.{longhorn_system_namespace_name}
use hci_controller_manager.Backup.Target.{
  backup_target_secret_name, backup_target_setting_name, construct_endpoint,
  is_default_backup_target, decode_backup_target,
}
use hci_controller_manager.Backup.Secret.{
  contains_all, format_bool, same_data, secret_data, target_type_text, without_credentials,
}

-- `v1beta1.SettingConfigured`
abbrev pub setting_configured : Str
setting_configured = text "configured"

abbrev pub longhorn_backup_target_setting_name : Str
longhorn_backup_target_setting_name = text "backup-target"

abbrev pub longhorn_backup_target_secret_setting_name : Str
longhorn_backup_target_secret_setting_name = text "backup-target-credential-secret"

abbrev pub longhorn_key : Str → NamespacedName
longhorn_key name = record { namespace = longhorn_system_namespace_name; name = name }

abbrev pub longhorn_meta : Str → ObjectMeta
longhorn_meta name = record empty_meta { name = name; namespace = longhorn_system_namespace_name }

module _ {W : Type 0} (h : Env W) where
  unfoldable pub get_backup_secret_data : TargetSetting → M W (Dict Str)
  unfolding secret_data
  get_backup_secret_data target w =
      (of_outcome (h.decode_http_proxy_config (h.http_proxy w)) >>= λ config.
      pure (secret_data target (h.additional_ca w) config))
        w

  unfoldable pub update_longhorn_target : TargetSetting → M W Unit
  update_longhorn_target backup_target =
      attempt (h.longhorn_settings.get (longhorn_key longhorn_backup_target_setting_name))
        (λ target.
          let target_copy = record target { value = construct_endpoint backup_target } in
          if target != target_copy then h.longhorn_settings.update target_copy else pure tt)
        (λ e.
          if not (is_not_found e)
          then fail e
          else h.longhorn_settings.create (record {
            object_meta = longhorn_meta longhorn_backup_target_setting_name;
            value = construct_endpoint backup_target;
          }))

  unfoldable pub update_longhorn_backup_target_secret_setting : M W Unit
  update_longhorn_backup_target_secret_setting =
      attempt (h.longhorn_settings.get (longhorn_key longhorn_backup_target_secret_setting_name))
        (λ target_secret.
          if target_secret.value != backup_target_secret_name
          then h.longhorn_settings.update
              (record target_secret { value = backup_target_secret_name })
          else pure tt)
        (λ e.
          if not (is_not_found e)
          then fail e
          else h.longhorn_settings.create (record {
            object_meta = longhorn_meta longhorn_backup_target_secret_setting_name;
            value = backup_target_secret_name;
          }))

  -- The secret as it is written, made or changed.
  unfoldable pub put_backup_target_secret : Dict Str → M W Unit
  put_backup_target_secret backup_secret_data =
      attempt (h.secrets.get (longhorn_key backup_target_secret_name))
        (λ secret.
          if not (same_data secret.string_data backup_secret_data)
          then h.secrets.update (record secret { string_data = some backup_secret_data })
          else pure tt)
        (λ e.
          if not (is_not_found e)
          then fail e
          else h.secrets.create (record {
            object_meta = longhorn_meta backup_target_secret_name;
            contents = [];
            string_data = some backup_secret_data;
          }))

  unfoldable pub update_backup_target_secret : TargetSetting → M W Unit
  update_backup_target_secret target = do
    backup_secret_data ← get_backup_secret_data target
    put_backup_target_secret backup_secret_data
    update_longhorn_backup_target_secret_setting

  abbrev pub unless_not_found : M W Unit → M W Unit
  unless_not_found call = catch call (λ e. if is_not_found e then pure tt else fail e)

  unfoldable pub delete_backup_target_secret : M W Unit
  delete_backup_target_secret = do
    unless_not_found (
        h.secrets.delete (record {
          object_meta = longhorn_meta backup_target_secret_name;
          contents = [];
          string_data = none;
        }))
    unless_not_found (
        h.longhorn_settings.delete (record {
          object_meta = longhorn_meta longhorn_backup_target_secret_setting_name;
          value = [];
        }))

  -- The setting with the condition that SetError leaves.
  unfoldable pub configured : Setting → Str → Option Str → W → Setting
  configured setting reason error w = record setting {
    conditions =
        set_error setting_configured (λ i. h.rfc3339 (h.clock w i)) reason error setting.conditions;
  }

  unfoldable pub set_configured_condition : Setting → Str → Option Str → M W Unit
  set_configured_condition setting reason error w =
      h.settings.update (configured setting reason error w) w

  unfoldable pub re_update_backup_target_setting_secret : Setting → TargetSetting → M W Unit
  re_update_backup_target_setting_secret setting target = elim target.type [
    | s3 ↦ do
      target_bytes ← of_outcome (h.marshal_target (without_credentials target))
      h.settings.update (record setting { value = target_bytes })
    | _ ↦ pure tt
  ]

  -- The setting of a target that was reset.
  unfoldable pub unconfigured : Setting → W → Setting
  unconfigured setting w =
      let now = λ (i : ℕ). h.rfc3339 (h.clock w i) in
      record setting {
        conditions = set_reason setting_configured [] (
            set_message setting_configured (now 1) []
              (set_status setting_configured (now 0) condition_false setting.conditions));
      }

  -- `if err = call; err != nil { return h.setConfiguredCondition(setting, "", err) }`, and the rest
  abbrev pub or_report : Setting → M W Unit → M W Unit → M W Unit
  or_report setting call rest =
      attempt call (λ _. rest) (λ e. set_configured_condition setting [] (some e.message))

  -- What follows the switch.
  unfoldable pub report_configured : Setting → M W Unit
  report_configured setting =
      if (length setting.conditions == 0) || is_false setting_configured setting.conditions
      then set_configured_condition setting [] none
      else pure tt

  -- The switch over the target's type.
  unfoldable pub apply_target : Setting → TargetSetting → M W Unit
  apply_target setting target =
      let reset =
        if is_default_backup_target target
        then or_report setting (update_longhorn_target target) (
            or_report setting delete_backup_target_secret
              (λ w. h.settings.update (unconfigured setting w) w))
        else set_configured_condition setting [] (
            some (
              text "Invalid backup target type:"
              ++ target_type_text target.type
              ++ text " or parameter")) in
      elim target.type [
        | s3 ↦
            if (target.secret_access_key == []) && (target.access_key_id == [])
            then report_configured setting
            else or_report setting (update_longhorn_target target) (
                or_report setting (update_backup_target_secret target)
                  (re_update_backup_target_setting_secret setting target))
        | nfs ↦
            or_report setting (update_longhorn_target target)
              (or_report setting delete_backup_target_secret (report_configured setting))
        | unset ↦ reset
        | other_type t ↦ reset
      ]

  unfoldable pub on_setting_change : Setting → M W Unit
  on_setting_change setting =
      let rest =
        attempt (decode_backup_target h setting.value) (apply_target setting)
          (λ e. set_configured_condition setting [] (some e.message)) in
      elim setting.object_meta.deletion_timestamp [
        | some t ↦ pure tt
        | none ↦
            if (setting.object_meta.name != backup_target_setting_name) || (setting.value == [])
            then pure tt
            else rest
      ]

  unfoldable pub reconcile_setting : NamespacedName → M W Unit
  reconcile_setting key =
      attempt (h.settings.get key) on_setting_change
        (λ e. if is_not_found e then pure tt else fail e)
