-- ===== src/Tests/Pkg.antt =====
-- Runs of the packages under pkg/, and the theorems on them at small inputs.
use hci_controller_manager.Base.{Str, text, ◌≡◌, ◌≤◌, true, [], ◌∷◌, length, list_eq, nat_eq}
use hci_controller_manager.Pkg.Strings.{contains_string, split, join}
use hci_controller_manager.Pkg.Strings.Laws.{join-split}
use hci_controller_manager.Pkg.Names.{safe_concat_name}
use hci_controller_manager.Pkg.Names.Laws.{length-safe_concat_name}
use hci_controller_manager.Pkg.Proxy.{built_in_no_proxy, add_built_in_no_proxy}
use hci_controller_manager.Pkg.Proxy.Laws.{Holds, add_built_in_no_proxy_complete}

length-safe_concat_name_example :
    length (safe_concat_name (λ s. s) (text "restore" ∷ text "ns" ∷ text "r" ∷ [])) ≤ 63
length-safe_concat_name_example =
    length-safe_concat_name (λ s. s) (text "restore" ∷ text "ns" ∷ text "r" ∷ [])

join-split_example : join b',' (split b',' (text "a,b")) ≡ text "a,b"
join-split_example = join-split b',' (text "a,b")

add_built_in_no_proxy_complete_example :
    Holds (split b',' (add_built_in_no_proxy (text "a"))) built_in_no_proxy
    × ((item : Str)
        → contains_string (split b',' (text "a")) item ≡ true
        → contains_string (split b',' (add_built_in_no_proxy (text "a"))) item ≡ true)
    × (add_built_in_no_proxy (add_built_in_no_proxy (text "a")) ≡ add_built_in_no_proxy (text "a"))
add_built_in_no_proxy_complete_example = add_built_in_no_proxy_complete (text "a")
