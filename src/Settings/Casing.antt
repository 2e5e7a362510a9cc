-- ===== src/Settings/Casing.antt =====
-- `upper` and `lower` of Python's `str`, on the letters of ASCII; every other character is left as
-- it is. The program calls them on environment names, on the names of schemas and on layers.
use Prim.Native.Char.{Char, code}
use snowflake_trade_pipeline.Prelude.{String, if◌then◌else◌, ◌==◌, nat_eq}

unfoldable pub swapped : String → String → Char → Char
swapped (String.◌∷◌ a from) (String.◌∷◌ b to) c = if code c == code a then b else swapped from to c
swapped _ _ c = c

unfoldable pub map_chars : (Char → Char) → String → String
map_chars f String.[] = ""
map_chars f (String.◌∷◌ c s) = String.◌∷◌ (f c) (map_chars f s)

abbrev small_letters : String
small_letters = "abcdefghijklmnopqrstuvwxyz"

abbrev capital_letters : String
capital_letters = "ABCDEFGHIJKLMNOPQRSTUVWXYZ"

unfoldable pub upper : String → String
unfolding map_chars swapped
upper s = map_chars (swapped small_letters capital_letters) s

unfoldable pub lower : String → String
unfolding map_chars swapped
lower s = map_chars (swapped capital_letters small_letters) s
