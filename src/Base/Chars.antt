-- ===== src/Base/Chars.antt =====
-- What the program does to the characters of a text, over lists of code points: `lower`,
-- `replace` of one character by another, `strip`, `split` and `startswith`. `lower` changes
-- the letters of ASCII only, and `strip` knows all the white space of Python's texts.
use Prim.Native.Nat.{ℕ, ◌+◌}
use Prim.Native.Char.{code}
use Prim.Native.String.{String}
use mathlib.Core.Bool.{Bool, true, false, ◌&&◌, ◌||◌}
use mathlib.Core.List.{List, [], ◌∷◌, ◌++◌, map, reverse}
use tristar.Base.Tests.{leb, nat_eq, if◌then◌else◌}

abbrev pub Text : Type 0
Text = List ℕ

-- The code points of a text. `String` has its own `[]` and `∷`.
abbrev pub codes : String → Text
codes String.[] = []
codes (String.◌∷◌ c s) = code c ∷ codes s

abbrev pub text_eq : Text → Text → Bool
text_eq [] [] = true
text_eq (a ∷ s) (b ∷ t) = nat_eq a b && text_eq s t
text_eq _ _ = false

abbrev lower_code : ℕ → ℕ
lower_code c = if leb b'A' c && leb c b'Z' then c + 32 else c

-- `s.lower()`
abbrev pub lower : Text → Text
lower = map lower_code

abbrev replace_code : ℕ → ℕ → ℕ → ℕ
replace_code old new c = if nat_eq c old then new else c

-- `s.replace(old, new)` for two single characters
abbrev pub replace : ℕ → ℕ → Text → Text
replace old new = map (replace_code old new)

abbrev is_wide_space : ℕ → Bool
is_wide_space c =
    (leb 8192 c && leb c 8202)
    || nat_eq c 8232
    || nat_eq c 8233
    || nat_eq c 8239
    || nat_eq c 8287
    || nat_eq c 12288

-- white space, as `str.isspace` has it and `str.strip` takes it
abbrev is_space : ℕ → Bool
is_space c =
    nat_eq c 32
    || (leb 9 c && leb c 13)
    || (leb 28 c && leb c 31)
    || nat_eq c 133
    || nat_eq c 160
    || nat_eq c 5760
    || is_wide_space c

abbrev strip_left : Text → Text
strip_left [] = []
strip_left (c ∷ s) = let rest = strip_left s in if is_space c then rest else c ∷ s

-- `s.strip()`
abbrev pub strip : Text → Text
strip s = reverse (strip_left (reverse (strip_left s)))

-- `s.startswith(prefix)`
abbrev pub starts_with : Text → Text → Bool
starts_with s [] = true
starts_with [] (p ∷ ps) = false
starts_with (c ∷ s) (p ∷ ps) = nat_eq c p && starts_with s ps

abbrev add_to_head : ℕ → List Text → List Text
add_to_head c [] = (c ∷ []) ∷ []
add_to_head c (line ∷ lines) = (c ∷ line) ∷ lines

-- `s.split(sep)` for a single character
abbrev pub split : ℕ → Text → List Text
split sep [] = [] ∷ []
split sep (c ∷ s) = let rest = split sep s in if nat_eq c sep then [] ∷ rest else add_to_head c rest

-- `sep.join(parts)` for a single character
abbrev pub join : ℕ → List Text → Text
join sep [] = []
join sep (line ∷ []) = line
join sep (line ∷ next ∷ lines) = line ++ sep ∷ join sep (next ∷ lines)

abbrev pub member : Text → List Text → Bool
member t [] = false
member t (u ∷ us) = text_eq t u || member t us
