-- ===== src/Pkg/Names.antt =====
-- pkg/name/name.go, and the names that controllers/hci/util.go, backup_status.go and pkg/util/image.go
-- build. The digests are parameters: `md5` and `sha256` yield the hexadecimal text.
pub mod Laws
pub mod Plural
use Prim.Native.Nat.{compare, Ordering}
use hci_controller_manager.Base.{
  Str, text, ℕ, ◌-◌, Bool, true, false, ◌&&◌, ◌||◌, Option, none, some, List, ◌∷◌, [], ◌++◌,
  Outcome, ok, panic, if◌then◌else◌, length, take, get_elem?, ltb, leb,
}
use hci_controller_manager.Pkg.Strings.{join}

-- `'a' <= c && c <= 'z' || '0' <= c && c <= '9'`
abbrev is_alphanumeric : ℕ → Bool
is_alphanumeric c = (leb b'a' c && leb c b'z') || (leb b'0' c && leb c b'9')

module _ (md5 : Str → Str) where
  unfoldable pub hex : Str → ℕ → Str
  hex s n = take n (md5 s)

  -- A count below 6 is a slice bound out of range.
  unfoldable pub limit : Str → ℕ → Outcome Str
  unfolding hex
  limit s count =
      if ltb (length s) count
      then ok s
      else if ltb count 6
      then panic
      else ok (take (count - 6) s ++ b'-' ∷ hex s 5)

  unfoldable pub get_secret_ref_name : Str → Str → Str
  unfolding hex
  get_secret_ref_name vm_name secret_name =
      text "vm-" ++ vm_name ++ text "-" ++ hex secret_name 8 ++ text "-ref"

module _ (sha256 : Str → Str) where
  unfoldable pub safe_concat_name : List Str → Str
  safe_concat_name name =
      let full_path = join b'-' name in
      if ltb (length full_path) 64
      then full_path
      else if elim (get_elem? full_path 56) [ none ↦ false | some c ↦ is_alphanumeric c ]
      then take 57 full_path ++ b'-' ∷ take 5 (sha256 full_path)
      else take 56 full_path ++ b'-' ∷ take 6 (sha256 full_path)

  unfoldable pub construct_volume_snapshot_name : Str → Str → Str
  construct_volume_snapshot_name restore_name volume_backup_name =
      safe_concat_name (text "restore" ∷ restore_name ∷ volume_backup_name ∷ [])

  unfoldable pub construct_volume_snapshot_content_name : Str → Str → Str → Str
  construct_volume_snapshot_content_name restore_namespace restore_name volume_backup_name =
      safe_concat_name (text "restore" ∷ restore_namespace ∷ restore_name ∷ volume_backup_name ∷ [])

unfoldable pub get_vm_backup_metadata_file_name : Str → Str → Str
get_vm_backup_metadata_file_name vm_backup_namespace vm_backup_name =
    vm_backup_namespace ++ b'-' ∷ (vm_backup_name ++ text ".cfg")

unfoldable pub get_backing_image_name : Str → Str → Str
get_backing_image_name namespace name = namespace ++ b'-' ∷ name

unfoldable pub get_image_storage_class_name : Str → Str
get_image_storage_class_name image_name = text "longhorn-" ++ image_name

unfoldable pub get_volume_snapshot_content_name : Str → Str
get_volume_snapshot_content_name volume_backup_name = volume_backup_name ++ text "-vsc"
