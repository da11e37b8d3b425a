-- ===== src/Prelude/Texts.antt =====
-- Prefixes of texts.
use Prim.Native.Char.{code}
use Prim.Native.String.{String, [] as no_chars, ◌∷◌ as char_and}
use mathlib.Core.Bool.{Bool, true, false}
use mathlib.Core.Option.{Option, none, some}
use andnp_searchkernel.Prelude.Tests.{◌==◌, if◌then◌else◌}

-- What is left of a text behind a prefix.
abbrev pub strip_prefix : String → String → Option String
strip_prefix no_chars s = some s
strip_prefix (char_and c p) no_chars = none
strip_prefix (char_and c p) (char_and d s) = if code c == code d then strip_prefix p s else none

abbrev pub starts_with : String → String → Bool
starts_with s prefix = elim (strip_prefix prefix s) [ none ↦ false | some rest ↦ true ]
