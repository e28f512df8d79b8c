-- ===== src/Contracts/Text.antt =====
-- Strings as lists of UTF-16 code units, with the tests that the schemas' patterns are made of.
use Prim.Native.Char.{code}
use surfgate.Common.{
  ℕ, Bool, true, false, ◌&&◌, ◌||◌, List, [], ◌∷◌, Option, none, some, String, ℕ_discrete, nat_eq,
  leb, ltb, length, all, if◌then◌else◌, Eq,
}
use mathlib.Core.List.{reverse}

abbrev pub Text : Type 0
Text = List ℕ

-- A literal of the source; all of them are ASCII.
abbrev pub codes : String → Text
codes String.[] = []
codes (String.◌∷◌ c s) = code c ∷ codes s

unfoldable pub Text-discrete : Discrete Text
Text-discrete = hlevel ℕ_discrete

instance abbrev pub text_eq : Eq Text
text_eq = record { tell_apart = Text-discrete }

abbrev pub is_digit : ℕ → Bool
is_digit c = leb b'0' c && leb c b'9'

abbrev pub is_lower : ℕ → Bool
is_lower c = leb b'a' c && leb c b'z'

abbrev pub is_upper : ℕ → Bool
is_upper c = leb b'A' c && leb c b'Z'

-- `[0-9a-f]`
abbrev pub is_hex : ℕ → Bool
is_hex c = is_digit c || (leb b'a' c && leb c b'f')

-- `[A-Za-z0-9]`
abbrev pub is_alnum : ℕ → Bool
is_alnum c = is_digit c || is_lower c || is_upper c

-- `[A-Za-z0-9_-]`
abbrev pub is_word : ℕ → Bool
is_word c = is_alnum c || nat_eq c b'_' || nat_eq c b'-'

-- What stands behind a literal prefix.
unfoldable pub strip_prefix : Text → Text → Option Text
strip_prefix [] t = some t
strip_prefix (p ∷ ps) [] = none
strip_prefix (p ∷ ps) (c ∷ t) = if nat_eq p c then strip_prefix ps t else none

abbrev pub length_within : ℕ → ℕ → Text → Bool
length_within lo hi t = leb lo (length t) && leb (length t) hi

-- White space and line terminators, as `String.prototype.trim` reads them.
abbrev pub is_space : ℕ → Bool
is_space c =
    (leb 9 c && leb c 13)
    || nat_eq c 32
    || nat_eq c 160
    || nat_eq c 0x1680
    || (leb 0x2000 c && leb c 0x200a)
    || nat_eq c 0x2028
    || nat_eq c 0x2029
    || nat_eq c 0x202f
    || nat_eq c 0x205f
    || nat_eq c 0x3000
    || nat_eq c 0xfeff

unfoldable pub trim_start : Text → Text
trim_start [] = []
trim_start (c ∷ t) = if is_space c then trim_start t else c ∷ t

unfoldable pub trim : Text → Text
unfolding trim_start
trim t = reverse (trim_start (reverse (trim_start t)))

-- `<` on strings compares code units from the left.
unfoldable pub text_lt : Text → Text → Bool
text_lt s [] = false
text_lt [] (d ∷ t) = true
text_lt (c ∷ s) (d ∷ t) = if nat_eq c d then text_lt s t else ltb c d

-- `/^[a-z][a-z0-9-]{0,63}$/u`, the pattern of provider identifiers and runtime classes.
unfoldable pub is_slug : Text → Bool
unfolding all
is_slug [] = false
is_slug (c ∷ t) =
    is_lower c && leb (length t) 63 && all (λ d. is_lower d || is_digit d || nat_eq d b'-') t

-- `/^[a-z][a-z0-9_]{0,127}$/u`, the pattern of termination reasons.
unfoldable pub is_reason : Text → Bool
unfolding all
is_reason [] = false
is_reason (c ∷ t) =
    is_lower c && leb (length t) 127 && all (λ d. is_lower d || is_digit d || nat_eq d b'_') t

-- The longest start of a text that passes a test, and the rest.
unfoldable pub span : (ℕ → Bool) → Text → Text × Text
span p [] = ([], [])
span p (c ∷ t) = let (u, v) = span p t in if p c then (c ∷ u, v) else ([], c ∷ t)
