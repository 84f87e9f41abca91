-- ===== src/Backup/Setting/Laws.antt =====
-- On the setting `backup-target`: what Longhorn's setting holds afterwards, and that the reconciler
-- comes to rest.
use hci_controller_manager.Base.{
  Str, ◌≡◌, ◌≢◌, refl, ◌||◌, none, some, [], ◌==◌, nat_eq, list_eq, arith, length, ok, ◌⊎◌,
  Option-cases, Bool-cases, inl, inr, sym, ap, ◌∙◌,
}
use hci_controller_manager.Api.{
  NamespacedName, Setting, TargetSetting, s3, LonghornSetting, longhorn_setting_eq,
}
use hci_controller_manager.Env.{Env}
use hci_controller_manager.Env.Store.{Store}
use hci_controller_manager.Pkg.Condition.{is_false}
use hci_controller_manager.Pkg.Condition.Laws.{is_false-set_error, length-set_error}
use hci_controller_manager.Backup.Target.{
  construct_endpoint, decode_backup_target, backup_target_setting_name,
}
use hci_controller_manager.Backup.Setting.{
  update_longhorn_target, longhorn_meta, update_backup_target_secret, longhorn_key,
  longhorn_backup_target_setting_name, setting_configured, configured, on_setting_change,
  apply_target, report_configured, re_update_backup_target_setting_secret, set_configured_condition,
}
use hci_controller_manager.Backup.Secret.{without_credentials}

abbrev pub longhorn_setting_key : LonghornSetting → NamespacedName
longhorn_setting_key s = record { namespace = s.object_meta.namespace; name = s.object_meta.name }

abbrev pub endpoint_key : NamespacedName
endpoint_key = longhorn_key longhorn_backup_target_setting_name

module _ {W : Type 0} (h : Env W) (store : Store h.longhorn_settings longhorn_setting_key) where
  -- A setting that holds the endpoint is left alone.
  update_longhorn_target_same :
      (target : TargetSetting) (w : W) (s : LonghornSetting)
      → store.view w endpoint_key ≡ some s
      → s.value ≡ construct_endpoint target
      → update_longhorn_target h target w ≡ (ok tt, w)
  unfolding update_longhorn_target
  update_longhorn_target_same target w s v e = rw (store.get_some w endpoint_key s v) (ground arith)

  -- What one call leaves: the endpoint under Longhorn's key, and the other settings as they were.
  abbrev pub Holds : TargetSetting → W → W → Type 0
  Holds target w w' =
      ((s : LonghornSetting) × (store.view w' endpoint_key ≡ some s)
        × (s.value ≡ construct_endpoint target))
      × ((k : NamespacedName) → endpoint_key ≢ k → store.view w' k ≡ store.view w k)

  update_longhorn_target_created :
      (target : TargetSetting) (w : W)
      → store.view w endpoint_key ≡ none
      → (w' : W) × (update_longhorn_target h target w ≡ (ok tt, w')) × Holds target w w'
  unfolding update_longhorn_target
  update_longhorn_target_created target w v =
      let (e, missing, got) = store.get_none w endpoint_key v in
      let (w', made, kept, frame) =
        store.create_none w
          (record {
            object_meta = longhorn_meta longhorn_backup_target_setting_name;
            value = construct_endpoint target;
          })
          v in
      (w', rw got (rw missing made), ((_, kept, refl), frame))

  update_longhorn_target_updated :
      (target : TargetSetting) (w : W) (s : LonghornSetting)
      → store.view w endpoint_key ≡ some s
      → (w' : W) × (update_longhorn_target h target w ≡ (ok tt, w')) × Holds target w w'
  unfolding update_longhorn_target
  update_longhorn_target_updated target w s v =
      elim (list_eq.dec s.value (construct_endpoint target)) [
        | yes e ↦ (w, update_longhorn_target_same target w s v e, ((s, v, e), λ k n. refl))
        | no n ↦
            let copy = record s { value = construct_endpoint target } in
            let key : longhorn_setting_key copy ≡ endpoint_key =
              store.view_key w endpoint_key s v in
            let (w', made, kept, frame) = store.update_some w copy s (rw key v) in
            (
              w',
              rw (store.get_some w endpoint_key s v) (ground (arith, made)),
              (
                (copy, sym (ap (store.view w') key) ∙ kept, refl),
                λ k m. frame k (λ e. m (sym key ∙ e)),
              ),
            )
      ]

  -- Against an API server that answers, updateLonghornTarget succeeds, leaves the endpoint of the
  -- target in Longhorn's setting and every other setting of Longhorn as it was, and a second call
  -- changes nothing.
  pub update_longhorn_target_stores :
      (target : TargetSetting) (w : W)
      → (w' : W) × (update_longhorn_target h target w ≡ (ok tt, w'))
        × Holds target w w'
        × (update_longhorn_target h target w' ≡ (ok tt, w'))
  update_longhorn_target_stores target w = elim (Option-cases (store.view w endpoint_key)) [
    | inl v ↦
        let (w', run, holds) = update_longhorn_target_created target w v in
        (w', run, holds, update_longhorn_target_same target w' holds.0.0 holds.0.1 holds.0.2)
    | inr (s, v) ↦
        let (w', run, holds) = update_longhorn_target_updated target w s v in
        (w', run, holds, update_longhorn_target_same target w' holds.0.0 holds.0.1 holds.0.2)
  ]

module _ {W : Type 0} (h : Env W) where
  -- A setting that the reconciler looks at, with the target that it holds.
  abbrev pub HoldsTarget : Setting → TargetSetting → Type 0
  HoldsTarget setting target =
      (setting.object_meta.name ≡ backup_target_setting_name)
      × (setting.object_meta.deletion_timestamp ≡ none)
      × (setting.value ≢ [])
      × (h.decode_target setting.value ≡ ok target)

  on_setting_change_applies :
      (setting : Setting) (target : TargetSetting) (w : W)
      → HoldsTarget setting target
      → on_setting_change h setting w ≡ apply_target h setting target w
  unfolding on_setting_change decode_backup_target
  on_setting_change_applies setting target w (name, alive, value, decoded) = rw alive (ground arith)

  apply_target_stripped :
      (setting : Setting) (target : TargetSetting) (w : W)
      → target.type ≡ s3
      → apply_target h setting (without_credentials target) w ≡ report_configured h setting w
  unfolding apply_target
  apply_target_stripped setting target w type = rw type (ground arith)

  report_configured_cases :
      (setting : Setting) (a : W)
      → (report_configured h setting a ≡ (ok tt, a))
        ⊎ (report_configured h setting a ≡ h.settings.update (configured h setting [] none a) a)
  unfolding report_configured set_configured_condition
  report_configured_cases setting a =
      elim (Bool-cases
        ((length setting.conditions == 0) || is_false setting_configured setting.conditions)) [
          | inl e ↦ inr (rw e refl)
          | inr e ↦ inl (rw e refl)
        ]

  report_configured_settles :
      (setting : Setting) (u v : W)
      → report_configured h (configured h setting [] none u) v ≡ (ok tt, v)
  unfolding report_configured configured
  report_configured_settles setting u v = ground (
    arith,
    is_false-set_error setting_configured (λ i. h.rfc3339 (h.clock u i)) [] setting.conditions,
    length-set_error setting_configured (λ i. h.rfc3339 (h.clock u i)) [] none setting.conditions,
  )

  apply_target_strips :
      (setting : Setting) (target : TargetSetting) (json : Str) (w u v : W)
      → target.type ≡ s3
      → target.secret_access_key ≢ []
      → update_longhorn_target h target w ≡ (ok tt, u)
      → update_backup_target_secret h target u ≡ (ok tt, v)
      → h.marshal_target (without_credentials target) ≡ ok json
      → apply_target h setting target w ≡ h.settings.update (record setting { value = json }) v
  unfolding apply_target re_update_backup_target_setting_secret
  apply_target_strips setting target json w u v type secret longhorn stored marshalled =
      rw type (ground (arith, longhorn, stored, marshalled))

  -- An S3 target with a secret key comes to rest in three changes. The first one, where Longhorn's
  -- target and the secret are stored, writes the setting with the credentials removed. The second
  -- one, on what was written, calls neither again and writes the condition at most. The third one,
  -- on a setting with that condition, does nothing. The JSON of the setting is to read back.
  pub on_setting_change_settles :
      (setting : Setting) (target : TargetSetting) (json : Str) (w u v : W)
      → HoldsTarget setting target
      → target.type ≡ s3
      → target.secret_access_key ≢ []
      → update_longhorn_target h target w ≡ (ok tt, u)
      → update_backup_target_secret h target u ≡ (ok tt, v)
      → h.marshal_target (without_credentials target) ≡ ok json
      → json ≢ []
      → h.decode_target json ≡ ok (without_credentials target)
      → (on_setting_change h setting w ≡ h.settings.update (record setting { value = json }) v)
        × ((a : W)
            → (on_setting_change h (record setting { value = json }) a ≡ (ok tt, a))
              ⊎ (on_setting_change h (record setting { value = json }) a
                  ≡ h.settings.update (configured h (record setting { value = json }) [] none a) a))
        × ((a b : W)
            → on_setting_change h (configured h (record setting { value = json }) [] none a) b
              ≡ (ok tt, b))
  on_setting_change_settles setting target json w u v holds type secret longhorn stored marshalled
        some_json back =
      let stripped = without_credentials target in
      let written : Setting = record setting { value = json } in
      let holds' : HoldsTarget written stripped = (holds.0, holds.1, some_json, back) in
      (
        on_setting_change_applies setting target w holds
            ∙ apply_target_strips setting target json w u v type secret longhorn stored marshalled,
        λ a.
            rw
              (
                on_setting_change_applies written stripped a holds',
                apply_target_stripped written target a type,
              )
              (report_configured_cases written a),
        λ a b.
            on_setting_change_applies (configured h written [] none a) stripped b
              (unfold configured in holds')
            ∙ apply_target_stripped (configured h written [] none a) target b type
            ∙ report_configured_settles written a b,
      )
