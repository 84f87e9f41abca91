-- ===== src/Base/Text.antt =====
-- A Go string is a sequence of bytes. Literals of the source are ASCII, so their code points are
-- their bytes. `text` stays shut in proofs: a literal is then one opaque term.
use Prim.Native.Nat.{ℕ}
use Prim.Native.Char.{code}
use Prim.Native.String.{String}
use mathlib.Core.List.{List, [], ◌∷◌}

abbrev pub Str : Type 0
Str = List ℕ

unfoldable pub text : String → Str
text String.[] = []
text (String.◌∷◌ c s) = code c ∷ text s
