-- ===== src/Prelude/Text.antt =====
-- The order of texts: Go compares their UTF-8 bytes, which orders them as their code points do.
use Prim.Native.Char.{code}
use Prim.Native.String.{String}
use mathlib.Core.Bool.{Bool, true, false}
use cnpg_connect_plugin.Prelude.Tests.{ltb, if◌then◌else◌, nat_beq}

unfoldable pub string_less : String → String → Bool
string_less _ String.[] = false
string_less String.[] (String.◌∷◌ d t) = true
string_less (String.◌∷◌ c s) (String.◌∷◌ d t) =
    let rest = string_less s t in if nat_beq (code c) (code d) then rest else ltb (code c) (code d)
