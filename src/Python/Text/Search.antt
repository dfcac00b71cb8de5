-- ===== src/Python/Text/Search.antt =====
-- `needle in s`, and s.replace(c, "") for the character with the code c.
use Prim.Native.Char.{code}
use enterprise_multi_agent_s.Prelude.{ℕ, String, Bool, ◌||◌, is_some, eqb, if◌then◌else◌}
use enterprise_multi_agent_s.Python.Text.{after_prefix}

unfoldable pub includes : String → String → Bool
unfolding after_prefix
includes needle String.[] = is_some (after_prefix needle "")
includes needle (String.◌∷◌ c s) =
    is_some (after_prefix needle (String.◌∷◌ c s)) || includes needle s

unfoldable pub erase : ℕ → String → String
erase a String.[] = ""
erase a (String.◌∷◌ c s) =
    let rest = erase a s in if eqb (code c) a then rest else String.◌∷◌ c rest
