-- ===== src/Python/Text/Chars.antt =====
-- The methods of `str` at one character, which is given by its code.
use Prim.Native.Char.{code}
use Prim.Native.String.{◌++◌ as append}
use enterprise_multi_agent_s.Prelude.{ℕ, String, List, [], ◌∷◌, ◌==◌, ◌&&◌, eqb, if◌then◌else◌}

-- s.lstrip(c)
unfoldable pub lstrip_char : ℕ → String → String
lstrip_char a String.[] = ""
lstrip_char a (String.◌∷◌ c s) =
    let rest = lstrip_char a s in if eqb (code c) a then rest else String.◌∷◌ c s

-- s.rstrip(c)
unfoldable pub rstrip_char : ℕ → String → String
rstrip_char a String.[] = ""
rstrip_char a (String.◌∷◌ c s) =
    let rest = rstrip_char a s in if eqb (code c) a && (rest == "") then "" else String.◌∷◌ c rest

-- s.replace(c, by)
unfoldable pub replace_char : ℕ → String → String → String
replace_char a by String.[] = ""
replace_char a by (String.◌∷◌ c s) =
    let rest = replace_char a by s in if eqb (code c) a then append by rest else String.◌∷◌ c rest

abbrev pub onto_first : String → List String → List String
onto_first c [] = c ∷ []
onto_first c (s ∷ parts) = append c s ∷ parts

-- s.split(c)
unfoldable pub split_char : ℕ → String → List String
split_char a String.[] = "" ∷ []
split_char a (String.◌∷◌ c s) =
    let rest = split_char a s in
    if eqb (code c) a then "" ∷ rest else onto_first (String.◌∷◌ c String.[]) rest
