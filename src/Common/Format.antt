-- ===== src/Common/Format.antt =====
-- `format!`: the pieces of a text, one after another.
use Prim.Native.String.{String, ◌++◌ as append_text}
use mathlib.Core.List.{List, [], ◌∷◌}

abbrev pub format : List String → String
format [] = ""
format (piece ∷ pieces) = append_text piece (format pieces)
