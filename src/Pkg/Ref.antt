-- ===== src/Pkg/Ref.antt =====
-- pkg/ref/api_id.go
pub mod Laws
use hci_controller_manager.Base.{
  Str, ◌++◌, ◌∷◌, [], Option, none, some, ◌==◌, list_eq, nat_eq, if◌then◌else◌,
}
use hci_controller_manager.Pkg.Strings.{cut}

-- The namespace and the name.
unfoldable pub parse : Str → Str × Str
unfolding cut
parse ref = elim (cut b'/' ref) [ none ↦ ([], ref) | some (namespace, name) ↦ (namespace, name) ]

unfoldable pub construct : Str → Str → Str
construct namespace name = if namespace == [] then name else namespace ++ b'/' ∷ name
