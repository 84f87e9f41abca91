-- ===== src/Tests/Setting.antt =====
-- The reconciler of the setting backup-target in the small cluster.
use hci_controller_manager.Base.{
  text, ◌≡◌, ◌≢◌, refl, Option, none, some, [], ◌∷◌, nat_eq, list_eq, ok, inl, inr, ◌⊎◌, arith,
  Bool-cases, ◌==◌,
}
use native.Mathlib.Decide.{ℕ_discrete}
use hci_controller_manager.Api.{
  NamespacedName, namespaced_name_eq, Setting, TargetSetting, s3, LonghornSetting,
  longhorn_setting_eq, Secret,
}
use hci_controller_manager.Env.{Env}
use hci_controller_manager.Env.Store.{Store}
use hci_controller_manager.Backup.Setting.{
  update_longhorn_target, update_backup_target_secret, put_backup_target_secret,
  update_longhorn_backup_target_secret_setting, on_setting_change, configured,
  get_backup_secret_data,
}
use hci_controller_manager.Backup.Secret.{secret_data, without_credentials}
use hci_controller_manager.Backup.Setting.Laws.{
  longhorn_setting_key, Holds, HoldsTarget, update_longhorn_target_stores,
  on_setting_change_settles,
}
use hci_controller_manager.Backup.Setting.Credentials.{
  set_credentials-get_backup_secret_data, set_target_credentials,
}
use hci_controller_manager.Backup.Target.{default_target, set_credentials}
use hci_controller_manager.Tests.World.{
  World, cluster, start_world, meta, always_there, missing, stored_longhorn_settings, view_longhorn,
  put_longhorn, at_key,
}

abbrev s3_target : TargetSetting
s3_target = record default_target {
  type = s3;
  access_key_id = text "id";
  secret_access_key = text "key";
  bucket_name = text "b";
}

-- A cluster where the setting holds an S3 target; "k" is its JSON, "s" the JSON without the keys.
abbrev s3_cluster : Env World
s3_cluster = record cluster {
  decode_target = λ s. elim s [
    | [] ↦ ok default_target
    | x ∷ r ↦ elim r [ [] ↦ ok s3_target | y ∷ q ↦ ok (without_credentials s3_target) ]
  ];
  marshal_target = λ t. ok (text "ss");
}

abbrev s3_setting : Setting
s3_setting = record { object_meta = meta (text "backup-target"); value = text "k"; conditions = [] }

at_key-key :
    (k : NamespacedName) (found : Option LonghornSetting) (a : LonghornSetting)
    → at_key k found ≡ some a
    → longhorn_setting_key a ≡ k
at_key-key k none a e = cc
at_key-key k (some s) a e = ground arith

view-put :
    (w : World) (a : LonghornSetting)
    → view_longhorn (put_longhorn a w) (longhorn_setting_key a) ≡ some a
view-put w a = ground arith

view-put_other :
    (w : World) (a : LonghornSetting) (k : NamespacedName)
    → longhorn_setting_key a ≢ k
    → view_longhorn (put_longhorn a w) k ≡ view_longhorn w k
view-put_other w a k n = elim (Bool-cases (k == longhorn_setting_key a)) [
  | inl e ↦ absurd (n (ground arith))
  | inr e ↦ rw e refl
]

longhorn_store : Store stored_longhorn_settings longhorn_setting_key
longhorn_store = record {
  view = view_longhorn;
  view_key = λ w k a e. at_key-key k (w.longhorn k) a e;
  get_some = λ w k a e. rw e refl;
  get_none = λ w k e. (missing, refl, rw e refl);
  create_none = λ w a e. (put_longhorn a w, refl, view-put w a, λ k n. view-put_other w a k n);
  update_some = λ w a b e. (put_longhorn a w, refl, view-put w a, λ k n. view-put_other w a k n);
}

update_longhorn_target_stores_example :
    (w' : World) × (update_longhorn_target s3_cluster s3_target start_world ≡ (ok tt, w'))
    × Holds s3_cluster longhorn_store s3_target start_world w'
    × (update_longhorn_target s3_cluster s3_target w' ≡ (ok tt, w'))
update_longhorn_target_stores_example =
    update_longhorn_target_stores s3_cluster longhorn_store s3_target start_world

s3_HoldsTarget : HoldsTarget s3_cluster s3_setting s3_target
unfolding text
s3_HoldsTarget = (refl, refl, λ e. cc, refl)

abbrev stripped_setting : Setting
stripped_setting = record s3_setting { value = text "ss" }

first_call : World
first_call = (update_longhorn_target s3_cluster s3_target start_world).1

second_call : World
second_call = (update_backup_target_secret s3_cluster s3_target first_call).1

first_call_succeeds : update_longhorn_target s3_cluster s3_target start_world ≡ (ok tt, first_call)
unfolding first_call update_longhorn_target
first_call_succeeds = refl

second_call_succeeds :
    update_backup_target_secret s3_cluster s3_target first_call ≡ (ok tt, second_call)
unfolding second_call first_call update_backup_target_secret get_backup_secret_data
    put_backup_target_secret update_longhorn_target update_longhorn_backup_target_secret_setting
    text list_eq nat_eq ℕ_discrete namespaced_name_eq
second_call_succeeds = refl

on_setting_change_settles_example :
    (on_setting_change s3_cluster s3_setting start_world
      ≡ s3_cluster.settings.update stripped_setting second_call)
    × ((a : World)
        → (on_setting_change s3_cluster stripped_setting a ≡ (ok tt, a))
          ⊎ (on_setting_change s3_cluster stripped_setting a
              ≡ s3_cluster.settings.update (configured s3_cluster stripped_setting [] none a) a))
    × ((a b : World)
        → on_setting_change s3_cluster (configured s3_cluster stripped_setting [] none a) b
          ≡ (ok tt, b))
unfolding text
on_setting_change_settles_example =
    on_setting_change_settles s3_cluster s3_setting s3_target (text "ss") start_world first_call
      second_call s3_HoldsTarget refl (λ e. cc) first_call_succeeds second_call_succeeds refl
      (λ e. cc) refl

-- A cluster whose secret has the data of the target.
abbrev target_secret : Secret
target_secret = record {
  object_meta = meta (text "hci-backup-target-secret");
  contents = secret_data s3_target [] (record { http_proxy = []; https_proxy = []; no_proxy = [] });
  string_data = none;
}

abbrev secret_cluster : Env World
secret_cluster = record s3_cluster { secrets = always_there target_secret }

set_credentials-get_backup_secret_data_example :
    set_credentials secret_cluster start_world
    ≡ set_target_credentials secret_cluster s3_target [] start_world
unfolding get_backup_secret_data
set_credentials-get_backup_secret_data_example =
    set_credentials-get_backup_secret_data secret_cluster s3_target target_secret.contents
      target_secret start_world start_world start_world start_world refl refl refl
