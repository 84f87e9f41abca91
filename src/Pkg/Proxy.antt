-- ===== src/Pkg/Proxy.antt =====
-- pkg/util/proxy.go
pub mod Laws
use hci_controller_manager.Base.{Str, text, List, [], ◌∷◌, ◌++◌, if◌then◌else◌}
use hci_controller_manager.Pkg.Strings.{split, join, contains_string}

abbrev pub built_in_no_proxy : List Str
built_in_no_proxy =
    text "localhost"
    ∷ text "127.0.0.1"
    ∷ text "0.0.0.0"
    ∷ text "10.0.0.0/8"
    ∷ text "longhorn-system"
    ∷ text "cattle-system"
    ∷ text "cattle-system.svc"
    ∷ text ".svc"
    ∷ text ".cluster.local"
    ∷ []

-- The loop over the built-in items.
add_missing : List Str → List Str → List Str
add_missing no_proxy_slice [] = no_proxy_slice
add_missing no_proxy_slice (item ∷ items) =
    add_missing
      (if contains_string no_proxy_slice item
        then no_proxy_slice
        else no_proxy_slice ++ (item ∷ []))
      items

unfoldable pub add_built_in_no_proxy : Str → Str
unfolding add_missing
add_built_in_no_proxy no_proxy = join b',' (add_missing (split b',' no_proxy) built_in_no_proxy)
