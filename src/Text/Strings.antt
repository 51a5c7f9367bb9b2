-- ===== src/Text/Strings.antt =====
-- The functions of Go's package strings on texts: TrimSpace, ToLower on ASCII letters, and the
-- concatenation `+`.
use Prim.Native.Char.{Char, code}
use Prim.Native.String as Native
use ainode.Prelude.{◌-◌, ◌≡◌, refl, String, ◌&&◌, if◌then◌else◌, leb}
use ainode.Text.{is_space}

-- strings.TrimSpace, from the left and from the right.
unfoldable pub trim_start : String → String
trim_start String.[] = ""
trim_start (String.◌∷◌ c s) =
    let rest = trim_start s in if is_space (code c) then rest else String.◌∷◌ c s

unfoldable pub drop_blank : Char → String → String
drop_blank c String.[] = if is_space (code c) then "" else String.◌∷◌ c ""
drop_blank c (String.◌∷◌ d s) = String.◌∷◌ c (String.◌∷◌ d s)

unfoldable pub trim_end : String → String
unfolding drop_blank
trim_end String.[] = ""
trim_end (String.◌∷◌ c s) = drop_blank c (trim_end s)

unfoldable pub trim : String → String
unfolding trim_start trim_end
trim s = trim_end (trim_start s)

abbrev letters : String
letters = "abcdefghijklmnopqrstuvwxyz"

abbrev lower_char : Char → Char
lower_char c =
    if leb 65 (code c) && leb (code c) 90 then Native.char_at letters (code c - 65) else c

-- strings.ToLower
unfoldable pub lower_text : String → String
lower_text String.[] = ""
lower_text (String.◌∷◌ c s) = String.◌∷◌ (lower_char c) (lower_text s)

infixr 65 ◌<>◌
abbrev pub ◌<>◌ : String → String → String
s <> t = Native.◌++◌ s t

trim_lower_example : trim (lower_text " CASH ") ≡ "cash"
unfolding trim lower_text
trim_lower_example = refl
