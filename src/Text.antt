-- ===== src/Text.antt =====
-- Texts as lists of code points, and the functions of Go's package strings that the code calls.
-- ToLower is modelled on ASCII letters; other letters are left as they are.
pub mod Strings
use Prim.Native.Char.{code}
use ainode.Prelude.{
  ℕ, ◌+◌, ◌≡◌, refl, String, Bool, true, false, ◌&&◌, ◌||◌, if◌then◌else◌, ◌==◌, leb, List, [], ◌∷◌,
  ◌++◌, map,
}

-- The code points of a text.
abbrev pub codes : String → List ℕ
codes String.[] = []
codes (String.◌∷◌ c s) = code c ∷ codes s

-- unicode.IsSpace
abbrev pub is_space : ℕ → Bool
is_space c =
    (leb 9 c && leb c 13)
    || (c == 32)
    || (c == 133)
    || (c == 160)
    || (c == 5760)
    || (leb 8192 c && leb c 8202)
    || (c == 8232)
    || (c == 8233)
    || (c == 8239)
    || (c == 8287)
    || (c == 12288)

unfoldable pub same_codes : List ℕ → List ℕ → Bool
same_codes [] [] = true
same_codes [] (d ∷ ds) = false
same_codes (c ∷ cs) [] = false
same_codes (c ∷ cs) (d ∷ ds) = (c == d) && same_codes cs ds

-- strings.ReplaceAll of one character by another.
unfoldable pub replace_all : ℕ → ℕ → List ℕ → List ℕ
replace_all old new [] = []
replace_all old new (c ∷ cs) = (if c == old then new else c) ∷ replace_all old new cs

unfoldable pub keep_word : List ℕ → List (List ℕ) → List (List ℕ)
keep_word [] ws = ws
keep_word (c ∷ cs) ws = (c ∷ cs) ∷ ws

-- The words of a text whose first word has begun with the codes of `word`.
unfoldable pub words_from : List ℕ → List ℕ → List (List ℕ)
unfolding keep_word
words_from word [] = keep_word word []
words_from word (c ∷ cs) =
    let at_end = keep_word word (words_from [] cs) in
    let inside = words_from (word ++ (c ∷ [])) cs in if is_space c then at_end else inside

-- strings.Fields
abbrev pub fields : List ℕ → List (List ℕ)
fields = words_from []

unfoldable pub trim_left : List ℕ → List ℕ
trim_left [] = []
trim_left (c ∷ cs) = if is_space c then trim_left cs else c ∷ cs

unfoldable pub trim_right : List ℕ → List ℕ
trim_right [] = []
trim_right (c ∷ cs) = drop_blank c (trim_right cs)
  where
    drop_blank : ℕ → List ℕ → List ℕ
    drop_blank c [] = if is_space c then [] else c ∷ []
    drop_blank c (d ∷ ds) = c ∷ d ∷ ds

-- strings.TrimSpace
abbrev pub trim_space : List ℕ → List ℕ
trim_space cs = trim_right (trim_left cs)

abbrev pub lower : ℕ → ℕ
lower c = if leb 65 c && leb c 90 then c + 32 else c

-- strings.ToLower
abbrev pub to_lower : List ℕ → List ℕ
to_lower = map lower

fields_example : fields (codes "a, b") ≡ codes "a," ∷ codes "b" ∷ []
unfolding words_from
fields_example = refl

trim_example : trim_space (codes " ab ") ≡ codes "ab"
unfolding trim_left trim_right
trim_example = refl
