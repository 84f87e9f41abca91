-- ===== src/Pkg/Ref/Laws.antt =====
-- Printing and parsing an object's identifier.
use hci_controller_manager.Base.{
  Str, ◌≡◌, ◌≢◌, ◌⊎◌, inl, inr, refl, ◌∷◌, [], list_eq, nat_eq, arith, Option-cases,
}
use hci_controller_manager.Pkg.Strings.{cut}
use hci_controller_manager.Pkg.Strings.Laws.{Avoids, cut-append, cut-eq-none, cut-eq-some}
use hci_controller_manager.Pkg.Ref.{parse, construct}

-- Parsing a constructed identifier gives the namespace and the name back, if the namespace holds no
-- slash and, where it is empty, neither does the name.
parse-construct :
    (namespace name : Str)
    → Avoids b'/' namespace
    → (namespace ≢ []) ⊎ Avoids b'/' name
    → parse (construct namespace name) ≡ (namespace, name)
parse-construct [] name h (inl n) = absurd (n refl)
parse-construct [] name h (inr a) =
    unfold parse construct in ground (arith, cut-eq-none b'/' name a)
parse-construct (x ∷ namespace) name h _ =
    unfold parse construct in ground (arith, cut-append b'/' (x ∷ namespace) name h)

-- Constructing from the parts of an identifier gives it back, unless it begins with a slash.
construct-parse :
    (ref : Str) → ((rest : Str) → ref ≢ b'/' ∷ rest) → construct (parse ref).0 (parse ref).1 ≡ ref
unfolding parse construct
construct-parse ref h = elim (Option-cases (cut b'/' ref)) [
  | inl e ↦ ground arith
  | inr ((a, b), e) ↦ ground (arith, cut-eq-some b'/' ref a b e, h b)
]
