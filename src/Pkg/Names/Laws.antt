-- ===== src/Pkg/Names/Laws.antt =====
-- Bounds on the names, and when two objects get one name.
use hci_controller_manager.Base.{
  Str, text, ℕ, ◌≤◌, ◌+◌, ◌-◌, ◌≡◌, sym, ◌∙◌, Option, some, List, ◌∷◌, ◌++◌, ok, arith, length,
  take, ap, length-append, length-take,
}
use mathlib.Core.List.{append_assoc, append_cancel_right}
use hci_controller_manager.Pkg.Strings.{join, cut}
use hci_controller_manager.Pkg.Strings.Laws.{Avoids, cut-append}
use hci_controller_manager.Pkg.Names.{
  limit, hex, safe_concat_name, get_vm_backup_metadata_file_name,
}

length-take-append : (n m : ℕ) (s d : Str) → length (take n s ++ b'-' ∷ take m d) ≤ n + m + 1
length-take-append n m s d =
    omega (arith, length-append (take n s) (b'-' ∷ take m d), length-take n s, length-take m d)

-- A concatenated name has at most 63 bytes, the limit of a Kubernetes label, whatever the digest
-- is.
pub length-safe_concat_name :
    (sha256 : Str → Str) (name : List Str) → length (safe_concat_name sha256 name) ≤ 63
unfolding safe_concat_name
length-safe_concat_name sha256 name =
    let p : Str = join b'-' name in
    ground (arith, length-take-append 57 5 p (sha256 p), length-take-append 56 6 p (sha256 p))

-- Where `Limit` returns a text, it has at most as many bytes as the bound.
length-limit :
    (md5 : Str → Str) (s : Str) (count : ℕ) {r : Str} → limit md5 s count ≡ ok r → length r ≤ count
unfolding limit hex
length-limit md5 s count h = ground (arith, length-take-append (count - 6) 5 s (md5 s))

-- Two backups share the file of their metadata if a dash moves from the name to the namespace.
get_vm_backup_metadata_file_name_collides :
    (namespace middle name : Str)
    → get_vm_backup_metadata_file_name (namespace ++ b'-' ∷ middle) name
      ≡ get_vm_backup_metadata_file_name namespace (middle ++ b'-' ∷ name)
unfolding get_vm_backup_metadata_file_name
get_vm_backup_metadata_file_name_collides namespace middle name = simp append_assoc

-- Among backups in namespaces without a dash the file names tell the backups apart.
get_vm_backup_metadata_file_name_injective :
    (n m a b : Str)
    → Avoids b'-' n
    → Avoids b'-' m
    → get_vm_backup_metadata_file_name n a ≡ get_vm_backup_metadata_file_name m b
    → (n ≡ m) × (a ≡ b)
unfolding get_vm_backup_metadata_file_name
get_vm_backup_metadata_file_name_injective n m a b hn hm h =
    let e : ◌≡◌ {A = Option (Str × Str)} (some (n, a ++ text ".cfg")) (some (m, b ++ text ".cfg")) =
      sym (cut-append b'-' n (a ++ text ".cfg") hn)
      ∙ ap (cut b'-') h
      ∙ cut-append b'-' m (b ++ text ".cfg") hm in
    (cc, append_cancel_right a b (text ".cfg") (cc))
