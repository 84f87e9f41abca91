-- ===== src/Pkg/Finalizers/Laws.antt =====
-- Adding and removing finalizers.
use hci_controller_manager.Base.{
  Str, suc, ◌-◌, ◌≡◌, refl, Bool, true, false, some, List, [], ◌∷◌, ◌++◌, list_eq, nat_eq,
  if◌then◌else◌, length, take, get_elem?, arith, ap, length-append,
}
use mathlib.Core.List.{append_assoc}
use hci_controller_manager.Pkg.Strings.{contains_string}
use hci_controller_manager.Pkg.Finalizers.{
  construct_finalizer_key, has_finalizer, add_finalizer, remove_finalizer, remove_loop, close_gap,
}

-- The last element.
abbrev last : Str → List Str → Str
last x [] = x
last x (y ∷ ys) = last y ys

close_gap-zero : (x : Str) (s : List Str) → close_gap 0 (x ∷ s) ≡ s ++ (last x s ∷ [])
close_gap-zero x [] = refl
close_gap-zero x (y ∷ s) = ap (◌∷◌ y) (close_gap-zero y s)

close_gap-append :
    (p : List Str) (x : Str) (s : List Str)
    → close_gap (length p) (p ++ x ∷ s) ≡ p ++ (s ++ (last x s ∷ []))
close_gap-append [] x s = close_gap-zero x s
close_gap-append (y ∷ []) x s = ap (◌∷◌ y) (close_gap-append [] x s)
close_gap-append (y ∷ z ∷ p) x s = ap (◌∷◌ y) (close_gap-append (z ∷ p) x s)

get_elem?-append :
    (p : List Str) (x : Str) (s : List Str) → get_elem? (p ++ x ∷ s) (length p) ≡ some x
unfolding get_elem?
get_elem?-append [] x s = refl
get_elem?-append (y ∷ p) x s = get_elem?-append p x s

take-append : (p s : List Str) → take (length p) (p ++ s) ≡ p
unfolding take
take-append [] s = refl
take-append (x ∷ p) s = ap (◌∷◌ x) (take-append p s)

contains_string-snoc :
    (key x : Str) (s : List Str)
    → contains_string (x ∷ s) key ≡ false
    → contains_string (s ++ (last x s ∷ [])) key ≡ false
unfolding contains_string
contains_string-snoc key x [] h = h
contains_string-snoc key x (y ∷ s) h = ground (arith, contains_string-snoc key y s)

length-snoc : (p : List Str) (x : Str) → length (p ++ (x ∷ [])) ≡ suc (length p)
length-snoc [] x = refl
length-snoc (y ∷ p) x = ap suc (length-snoc p x)

-- A loop that meets no key changes nothing.
remove_loop-absent :
    (key : Str) (p s : List Str) (assigned : Bool)
    → contains_string s key ≡ false
    → remove_loop key (length s) (length p) (p ++ s) assigned ≡ (p ++ s, assigned)
unfolding remove_loop contains_string
remove_loop-absent key p [] assigned h = refl
remove_loop-absent key p (x ∷ s) assigned h = ground (
  arith,
  get_elem?-append p x s,
  rw (length-snoc p x, append_assoc p (x ∷ []) s) at
      (remove_loop-absent key (p ++ (x ∷ [])) s assigned (ground arith)),
)

-- Once the gap is closed, the rest of the loop meets no key.
remove_loop-after_gap :
    (key : Str) (p post : List Str)
    → contains_string post key ≡ false
    → remove_loop key (length post) (suc (length p)) (p ++ (post ++ (last key post ∷ []))) true
      ≡ (p ++ (post ++ (last key post ∷ [])), true)
remove_loop-after_gap key p [] h = unfold remove_loop in refl
remove_loop-after_gap key p (y ∷ ys) h =
    rw
      (
        length-snoc p y,
        length-snoc ys (last y ys),
        append_assoc p (y ∷ []) (ys ++ (last y ys ∷ [])),
      )
      at
      (remove_loop-absent key (p ++ (y ∷ [])) (ys ++ (last y ys ∷ [])) true
        (contains_string-snoc key y ys h))

-- The array after the loop, which meets the key once: behind it the elements have moved down.
remove_loop-present :
    (key : Str) (p pre post : List Str)
    → contains_string pre key ≡ false
    → contains_string post key ≡ false
    → remove_loop key (length (pre ++ (key ∷ post))) (length p) (p ++ (pre ++ (key ∷ post))) false
      ≡ (p ++ (pre ++ (post ++ (last key post ∷ []))), true)
unfolding remove_loop contains_string
remove_loop-present key p [] post h k = ground (
  arith,
  get_elem?-append p key post,
  close_gap-append p key post,
  remove_loop-after_gap key p post k,
)
remove_loop-present key p (x ∷ pre) post h k = ground (
  arith,
  get_elem?-append p x (pre ++ (key ∷ post)),
  rw
      (
        length-snoc p x,
        append_assoc p (x ∷ []) (pre ++ (key ∷ post)),
        append_assoc p (x ∷ []) (pre ++ (post ++ (last key post ∷ []))),
      )
      at (remove_loop-present key (p ++ (x ∷ [])) pre post (ground arith) k),
)

contains_string-append :
    (p s : List Str) (key : Str)
    → contains_string (p ++ s) key ≡ (if contains_string p key then true else contains_string s key)
unfolding contains_string
contains_string-append [] s key = refl
contains_string-append (x ∷ p) s key = ground (arith, contains_string-append p s key)

contains_string_self : (key : Str) → contains_string (key ∷ []) key ≡ true
unfolding contains_string
contains_string_self key = ground arith

-- An added finalizer is there.
pub has_finalizer-add_finalizer :
    (finalizers : List Str) (name : Str) → has_finalizer (add_finalizer finalizers name) name ≡ true
has_finalizer-add_finalizer finalizers name =
    unfold has_finalizer add_finalizer in
    ground (
      arith,
      contains_string-append finalizers (construct_finalizer_key name ∷ [])
          (construct_finalizer_key name),
      contains_string_self (construct_finalizer_key name),
    )

length-middle :
    (pre post : List Str) (key : Str) → length (pre ++ (key ∷ post)) - 1 ≡ length (pre ++ post)
length-middle pre post key = omega (arith, length-append pre (key ∷ post), length-append pre post)

has_finalizer-middle :
    (pre post : List Str) (name : Str)
    → has_finalizer (pre ++ (construct_finalizer_key name ∷ post)) name ≡ true
unfolding has_finalizer contains_string
has_finalizer-middle pre post name = ground (
  arith,
  contains_string-append pre (construct_finalizer_key name ∷ post) (construct_finalizer_key name),
)

-- A finalizer that is listed once is removed, and the others keep their order.
remove_finalizer_once :
    (pre post : List Str) (name : Str)
    → has_finalizer pre name ≡ false
    → has_finalizer post name ≡ false
    → remove_finalizer (pre ++ (construct_finalizer_key name ∷ post)) name ≡ pre ++ post
remove_finalizer_once pre post name h k =
    let key : Str = construct_finalizer_key name in
    unfold remove_finalizer in
    rw
      (
        has_finalizer-middle pre post name,
        remove_loop-present key [] pre post (unfold has_finalizer in h) (unfold has_finalizer in k),
        length-middle pre post key,
        ← append_assoc pre post (last key post ∷ []),
      )
      (take-append (pre ++ post) (last key post ∷ []))
