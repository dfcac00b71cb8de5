-- ===== src/Analysis/Sanitize.antt =====
-- `sanitize_for_model`. The substitution of the SECRET_PATTERNS in a text is a parameter.
pub mod Limits
use Prim.Native.String.{count, ◌++◌ as append}
use Prim.Native.Char.{Char, code}
use enterprise_multi_agent_s.Prelude.{
  ℕ, suc, ◌+◌, String, Bool, true, false, ◌&&◌, ◌||◌, List, [], ◌∷◌, leb, ltb, if◌then◌else◌,
}
use enterprise_multi_agent_s.Python.Text.{lower, take}
use enterprise_multi_agent_s.Python.Text.Search.{includes}
use enterprise_multi_agent_s.Python.Json.{
  Json, null, bool, int, float, str, arr, obj, Items, nil, item, Fields, end, field, put,
}

abbrev pub sensitive_key_parts : List String
sensitive_key_parts =
    "authorization" ∷ "clientstate" ∷ "cookie" ∷ "credential" ∷ "downloadurl" ∷ "password"
    ∷ "privatekey" ∷ "secret" ∷ "signature" ∷ "token" ∷ []

abbrev is_small_letter_or_digit : Char → Bool
is_small_letter_or_digit c =
    leb 97 (code c) && leb (code c) 122 || leb 48 (code c) && leb (code c) 57

-- re.sub(r"[^a-z0-9]", "", s)
unfoldable pub letters_and_digits : String → String
letters_and_digits String.[] = ""
letters_and_digits (String.◌∷◌ c s) =
    let rest = letters_and_digits s in
    if is_small_letter_or_digit c then String.◌∷◌ c rest else rest

unfoldable pub has_part : String → List String → Bool
unfolding includes
has_part s [] = false
has_part s (part ∷ parts) = includes part s || has_part s parts

unfoldable pub is_sensitive : String → Bool
unfolding letters_and_digits has_part lower
is_sensitive key = has_part (letters_and_digits (lower key)) sensitive_key_parts

module _ (redact : String → String) where
  unfoldable pub sanitize_text : String → String
  unfolding take
  sanitize_text value =
      let text = redact (take 4000 value) in
      if ltb 4000 (count value) then append text "...[truncated]" else text

  unfoldable mutual
    unfolding sanitize_text is_sensitive put

    pub sanitize_for_model : ℕ → Json → Json
    sanitize_for_model depth (obj fs) =
        let output = sanitize_fields (depth + 1) 0 fs end in
        if ltb 8 depth then str "[truncated]" else obj output
    sanitize_for_model depth (arr xs) =
        let items = sanitize_items (depth + 1) 0 xs in
        if ltb 8 depth then str "[truncated]" else arr items
    sanitize_for_model depth (str s) =
        if ltb 8 depth then str "[truncated]" else str (sanitize_text s)
    sanitize_for_model depth null = if ltb 8 depth then str "[truncated]" else null
    sanitize_for_model depth (bool b) = if ltb 8 depth then str "[truncated]" else bool b
    sanitize_for_model depth (int z) = if ltb 8 depth then str "[truncated]" else int z
    sanitize_for_model depth (float t) = if ltb 8 depth then str "[truncated]" else float t

    -- the loop over the items from `index` on, with the dictionary `output` built so far
    pub sanitize_fields : ℕ → ℕ → Fields → Fields → Fields
    sanitize_fields depth index end output = output
    sanitize_fields depth index (field key v fs) output =
        let value = if is_sensitive key then str "[redacted]" else sanitize_for_model depth v in
        let rest = sanitize_fields depth (index + 1) fs (put output key value) in
        if leb 100 index then put output "_truncated" (bool true) else rest

    -- value[:100], and the mark behind it
    pub sanitize_items : ℕ → ℕ → Items → Items
    sanitize_items depth index nil = nil
    sanitize_items depth index (item v xs) =
        let here = sanitize_for_model depth v in
        let rest = sanitize_items depth (index + 1) xs in
        if leb 100 index then item (str "[truncated]") nil else item here rest
