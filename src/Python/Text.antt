-- ===== src/Python/Text.antt =====
-- The methods of `str` that the program calls. Case and white space are those of ASCII.
pub mod Prefixes
pub mod Search
pub mod Chars
use Prim.Native.Char.{Char, code}
use Prim.Native.String.{slice, ◌++◌ as append}
use mathlib.Core.Option
use enterprise_multi_agent_s.Prelude.{
  ℕ, zero, suc, ◌+◌, ◌/◌, ◌%◌, ◌*◌, ◌-◌, String, ◌≡◌, refl, Bool, true, false, ◌&&◌, ◌||◌, Option,
  none, some, List, [], ◌∷◌, eqb, leb, ltb, if◌then◌else◌, ℤ, pos, negsuc,
}

-- The character that stands in the second text where `c` stands in the first.
translate : String → String → Char → Char
translate (String.◌∷◌ a s) (String.◌∷◌ b t) c = if eqb (code a) (code c) then b else translate s t c
translate _ _ c = c

abbrev capitals : String
capitals = "ABCDEFGHIJKLMNOPQRSTUVWXYZ"

abbrev small_letters : String
small_letters = "abcdefghijklmnopqrstuvwxyz"

map_chars : (Char → Char) → String → String
map_chars f String.[] = ""
map_chars f (String.◌∷◌ c s) = String.◌∷◌ (f c) (map_chars f s)

-- str.lower, and str.casefold
unfoldable pub lower : String → String
unfolding translate map_chars
lower = map_chars (translate capitals small_letters)

-- str.upper
unfoldable pub upper : String → String
unfolding translate map_chars
upper = map_chars (translate small_letters capitals)

abbrev is_space : Char → Bool
is_space c =
    eqb (code c) 32 || leb 9 (code c) && leb (code c) 13 || leb 28 (code c) && leb (code c) 31

unfoldable pub lstrip : String → String
lstrip String.[] = ""
lstrip (String.◌∷◌ c s) = if is_space c then lstrip s else String.◌∷◌ c s

reverse_onto : String → String → String
reverse_onto acc String.[] = acc
reverse_onto acc (String.◌∷◌ c s) = reverse_onto (String.◌∷◌ c acc) s

-- str.strip
unfoldable pub strip : String → String
unfolding lstrip reverse_onto
strip s = reverse_onto "" (lstrip (reverse_onto "" (lstrip s)))

-- s[:n], in characters
unfoldable pub take : ℕ → String → String
take zero s = ""
take (suc n) String.[] = ""
take (suc n) (String.◌∷◌ c s) = String.◌∷◌ c (take n s)

-- str.startswith, and the text behind the prefix
unfoldable pub after_prefix : String → String → Option String
after_prefix String.[] s = some s
after_prefix (String.◌∷◌ a p) String.[] = none
after_prefix (String.◌∷◌ a p) (String.◌∷◌ c s) =
    if eqb (code a) (code c) then after_prefix p s else none

-- s.removeprefix(p)
abbrev pub removeprefix : String → String → String
removeprefix s p = elim (after_prefix p s) [ none ↦ s | some rest ↦ rest ]

-- str.isascii
unfoldable pub is_ascii : String → Bool
is_ascii String.[] = true
is_ascii (String.◌∷◌ c s) = ltb (code c) 128 && is_ascii s

-- sep.join(parts)
unfoldable pub join : String → List String → String
join sep [] = ""
join sep (p ∷ []) = p
join sep (p ∷ q ∷ ps) = append p (append sep (join sep (q ∷ ps)))

-- The decimal digits of a number, most significant first; `fuel` bounds their count.
digits_of : ℕ → ℕ → String → String
digits_of zero n acc = acc
digits_of (suc fuel) n acc =
    let here = append (slice "0123456789" (n % 10) (n % 10 + 1)) acc in
    elim (ltb n 10) [ true ↦ here | false ↦ digits_of fuel (n / 10) here ]

-- str(n)
unfoldable pub decimal : ℕ → String
unfolding digits_of
decimal n = digits_of (suc n) n ""

unfoldable pub decimal_ℤ : ℤ → String
unfolding decimal
decimal_ℤ (pos n) = decimal n
decimal_ℤ (negsuc n) = append "-" (decimal (suc n))

-- The digits of int(text): one underscore may stand between two digits.
digit_value : ℕ → Bool → String → Option ℕ
digit_value n ready String.[] = if ready then some n else none
digit_value n ready (String.◌∷◌ c s) = elim (leb 48 (code c) && leb (code c) 57) [
  | true ↦ digit_value (n * 10 + (code c - 48)) true s
  | false ↦ elim (eqb (code c) 95 && ready) [ true ↦ digit_value n false s | false ↦ none ]
]

negate : ℕ → ℤ
negate zero = pos 0
negate (suc n) = negsuc n

signed : String → Option ℤ
unfolding digit_value negate
signed String.[] = none
signed (String.◌∷◌ c s) =
    if eqb (code c) 45
    then Option.map negate (digit_value 0 false s)
    else if eqb (code c) 43
    then Option.map pos (digit_value 0 false s)
    else Option.map pos (digit_value 0 false (String.◌∷◌ c s))

-- int(text); `none` is ValueError
unfoldable pub parse_int : String → Option ℤ
unfolding signed strip
parse_int s = signed (strip s)

lower_example : lower "X-GitHub-Event" ≡ "x-github-event"
unfolding lower
lower_example = refl

strip_example : strip "  a b\t" ≡ "a b"
unfolding strip
strip_example = refl

decimal_example : decimal 90210 ≡ "90210"
unfolding decimal
decimal_example = refl

parse_int_examples :
    (parse_int " 1_700 " ≡ some (pos 1700))
    × (parse_int "-5" ≡ some (negsuc 4))
    × (parse_int "1__0" ≡ none)
    × (parse_int "1.5" ≡ none)
unfolding parse_int
parse_int_examples = (refl, refl, refl, refl)
