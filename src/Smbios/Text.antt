-- ===== src/Smbios/Text.antt =====
-- The test of `_s` for a string of one repeated character.
use Prim.Native.Char.{Char, code}
use Prim.Native.String.{String, [], ◌∷◌, count}
use jt_snmpd.Prelude.{Bool, true, false, ◌&&◌, ltb, ◌==◌}

all_are : Char → String → Bool
all_are c [] = true
all_are c (d ∷ s) = (code c == code d) && all_are c s

-- len(val) > 2 and len(set(val)) == 1
unfoldable pub is_repeated : String → Bool
unfolding all_are
is_repeated [] = false
is_repeated (c ∷ s) = ltb 2 (count (c ∷ s)) && all_are c s
