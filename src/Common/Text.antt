-- ===== src/Common/Text.antt =====
-- The text methods of Python that the simulator calls, on ASCII letters and blanks.
use Prim.Native.Char.{Char, code}
use Prim.Native.String.{String, [], ◌∷◌}
use text.Mathlib.Text.{starts_with}
use mathlib.Core.Path.{◌≡◌, refl}
use mathlib.Core.Bool.{Bool, ◌||◌, ◌&&◌}
use daemon_supply_chain.Common.Tests.{nat_eq, leb, ◌==◌, if◌then◌else◌}

-- The character of `to` that stands where `c` stands in `from`.
translate : String → String → Char → Char
translate (a ∷ from) (b ∷ to) c = if nat_eq (code a) (code c) then b else translate from to c
translate _ _ c = c

abbrev lower_letters : String
lower_letters = "abcdefghijklmnopqrstuvwxyz"

abbrev upper_letters : String
upper_letters = "ABCDEFGHIJKLMNOPQRSTUVWXYZ"

is_blank : Char → Bool
is_blank c = nat_eq (code c) 32 || (leb 9 (code c) && leb (code c) 13)

map_text : (Char → Char) → String → String
map_text f [] = []
map_text f (c ∷ s) = f c ∷ map_text f s

-- `text.upper()`
unfoldable pub upper : String → String
unfolding translate map_text
upper s = map_text (translate lower_letters upper_letters) s

-- `text.lower()`
unfoldable pub lower : String → String
unfolding translate map_text
lower s = map_text (translate upper_letters lower_letters) s

strip_left : String → String
strip_left [] = []
strip_left (c ∷ s) = if is_blank c then strip_left s else c ∷ s

strip_right : String → String
strip_right [] = []
strip_right (c ∷ s) = let r = strip_right s in if is_blank c && (r == "") then "" else c ∷ r

-- `text.strip()`
unfoldable pub strip : String → String
unfolding strip_left strip_right is_blank
strip s = strip_right (strip_left s)

-- `token in text`
unfoldable pub contains : String → String → Bool
contains [] token = starts_with [] token
contains (c ∷ s) token = starts_with (c ∷ s) token || contains s token

upper_mixed : upper "In_Transit" ≡ "IN_TRANSIT"
unfolding upper
upper_mixed = refl

strip_both : strip "  afternoon " ≡ "afternoon"
unfolding strip
strip_both = refl
