-- ===== src/Env/Calm.antt =====
-- Outside calls that keep a property of the world, such as one of the objects of one kind: calls on
-- objects of the other kinds keep it.
use hci_controller_manager.Base.{Str}
use hci_controller_manager.Base.Keeps.{Keeps, Any}
use hci_controller_manager.Api.{NamespacedName}
use hci_controller_manager.Env.{Env, Resource, Driver}

pub record Calm {W A : Type 0} (I : W → Type 0) (r : Resource W A) : Type 0 where
  pub get_keeps : (k : NamespacedName) → Keeps I Any (r.get k)
  pub create_keeps : (a : A) → Keeps I Any (r.create a)
  pub update_keeps : (a : A) → Keeps I Any (r.update a)
  pub delete_keeps : (a : A) → Keeps I Any (r.delete a)

pub record CalmDriver {W : Type 0} (I : W → Type 0) (d : Driver W) : Type 0 where
  pub file_exists_keeps : (p : Str) → Keeps I Any (d.file_exists p)
  pub read_keeps : (p : Str) → Keeps I Any (d.read p)
  pub write_keeps : (p c : Str) → Keeps I Any (d.write p c)
  pub remove_keeps : (p : Str) → Keeps I Any (d.remove p)

-- Everything but the backups and the restores keeps `I`.
pub record CalmEnv {W : Type 0} (I : W → Type 0) (h : Env W) : Type 0 where
  pub virtual_machines : Calm I h.virtual_machines
  pub claims : Calm I h.claims
  pub volumes : Calm I h.volumes
  pub storage_classes : Calm I h.storage_classes
  pub secrets : Calm I h.secrets
  pub snapshots : Calm I h.snapshots
  pub snapshot_contents : Calm I h.snapshot_contents
  pub snapshot_classes : Calm I h.snapshot_classes
  pub longhorn_backups : Calm I h.longhorn_backups
  pub longhorn_volumes : Calm I h.longhorn_volumes
  pub settings : Calm I h.settings
  pub record_event_keeps : (k r m : Str) → Keeps I Any (h.record_event k r m)
  pub setenv_keeps : (n v : Str) → Keeps I Any (h.setenv n v)
  pub instance_running_keeps : (k : NamespacedName) → Keeps I Any (h.instance_running k)
  pub start_keeps : (k : NamespacedName) → Keeps I Any (h.start k)
  pub driver_keeps : (e : Str) → Keeps I (CalmDriver I) (h.get_backup_store_driver e)
