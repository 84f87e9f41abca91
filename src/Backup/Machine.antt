-- ===== src/Backup/Machine.antt =====
-- What a backup reads off a machine: the claims of its volumes and the secrets that it names
-- (controllers/hci/virtualmachinebackup_controller.go).
use hci_controller_manager.Base.{
  Str, text, Option, none, some, List, [], ◌∷◌, ◌++◌, ◌==◌, nat_eq, list_eq, if◌then◌else◌,
}
use hci_controller_manager.Base.Dict
use hci_controller_manager.Base.Dict.{Dict}
use hci_controller_manager.Api.{
  BackupType, backup, snapshot, Volume, AccessCredential, CredentialSource, NamespacedName,
  LonghornVolume, detached, detaching, longhorn_volume_eq, CsiDriverInfo,
}

abbrev pub longhorn_system_namespace_name : Str
longhorn_system_namespace_name = text "longhorn-system"

-- The name of the claim of each volume that is one. A later volume of the same name wins.
unfoldable pub put_claims : Dict Str → List Volume → Dict Str
put_claims pvcs [] = pvcs
put_claims pvcs (volume ∷ volumes) =
    put_claims
      (elim volume.persistent_volume_claim [
        | none ↦ pvcs
        | some pvc_name ↦ Dict.insert volume.name pvc_name pvcs
      ])
      volumes

unfoldable pub volume_to_pvc_mappings : List Volume → Dict Str
volume_to_pvc_mappings volumes = put_claims [] volumes

abbrev pub named : Option Str → List Str → List Str
named none names = names
named (some n) names = n ∷ names

abbrev pub secret_of : Option CredentialSource → List Str → List Str
secret_of none names = names
secret_of (some source) names = named source.secret names

-- The secrets that the credentials name, in order.
unfoldable pub credential_secret_refs : List AccessCredential → List Str
credential_secret_refs [] = []
credential_secret_refs (credential ∷ credentials) =
    let rest = credential_secret_refs credentials in
    secret_of credential.ssh_public_key (secret_of credential.user_password rest)

-- The secrets that the volumes' cloud-init data name, in order.
unfoldable pub volume_secret_refs : List Volume → List Str
volume_secret_refs [] = []
volume_secret_refs (volume ∷ volumes) =
    let rest = volume_secret_refs volumes in
    elim volume.cloud_init_no_cloud [
      | none ↦ rest
      | some c ↦ named c.user_data_secret_ref (named c.network_data_secret_ref rest)
    ]

-- `delete(data, k)` for each key of an empty value
unfoldable pub drop_empty : Dict Str → Dict Str → Dict Str
drop_empty contents [] = contents
drop_empty contents ((k, v) ∷ entries) =
    drop_empty (if v == [] then Dict.erase k contents else contents) entries

-- `%s/%s`
abbrev pub slashed : Str → Str → Str
slashed a b = a ++ b'/' ∷ b

abbrev pub type_name : BackupType → Str
type_name backup = text "backup"
type_name snapshot = text "snapshot"

-- `types.NamespacedName{Name: n}`
abbrev pub cluster_key : Str → NamespacedName
cluster_key n = record { namespace = []; name = n }

-- The volume as `mountLonghornVolumes` wants it: attached to its owner's node if it is detached.
unfoldable pub mounted : LonghornVolume → LonghornVolume
mounted volume = elim volume.state [
  | detached ↦ record volume { node_id = volume.owner_id }
  | detaching ↦ record volume { node_id = volume.owner_id }
  | _ ↦ volume
]

-- The snapshot class that a driver's configuration gives for a type of backup.
abbrev pub class_for : BackupType → CsiDriverInfo → Str
class_for backup info = info.backup_volume_snapshot_class_name
class_for snapshot info = info.volume_snapshot_class_name
