-- ===== src/OnedriveSync/DriveItem.antt =====
-- `_safe_drive_item`: a change without its preauthenticated download addresses.
use enterprise_multi_agent_s.Prelude.{
  String, ◌≡◌, refl, Bool, false, if◌then◌else◌, Bool-cases, inl, inr, eq_iff, arith,
}
use enterprise_multi_agent_s.Python.Text.{lower}
use enterprise_multi_agent_s.Python.Text.Search.{includes, erase}
use enterprise_multi_agent_s.Python.Json.{
  Json, null, bool, int, float, str, arr, obj, Items, nil, item, Fields, end, field, get,
}

unfoldable pub normalized : String → String
normalized key = erase 46 (erase 64 (lower key))

unfoldable pub is_download_url : String → Bool
is_download_url key = includes "downloadurl" (normalized key)

-- The keys of a dictionary are texts and distinct, so `output[str(key)] = …` adds an item at the end.
unfoldable mutual
  pub safe_drive_item : Json → Json
  safe_drive_item (obj fs) = obj (safe_fields fs)
  safe_drive_item (arr xs) = arr (safe_items xs)
  safe_drive_item null = null
  safe_drive_item (bool b) = bool b
  safe_drive_item (int z) = int z
  safe_drive_item (float t) = float t
  safe_drive_item (str s) = str s

  pub safe_items : Items → Items
  safe_items nil = nil
  safe_items (item x xs) = item (safe_drive_item x) (safe_items xs)

  pub safe_fields : Fields → Fields
  safe_fields end = end
  safe_fields (field k v fs) =
      let rest = safe_fields fs in
      let here = safe_drive_item v in if is_download_url k then rest else field k here rest

-- No dictionary in the value has a key of a download address.
mutual
  pub IsSafe : Json → Type 0
  IsSafe (obj fs) = IsSafeFields fs
  IsSafe (arr xs) = IsSafeItems xs
  IsSafe null = Unit
  IsSafe (bool b) = Unit
  IsSafe (int z) = Unit
  IsSafe (float t) = Unit
  IsSafe (str s) = Unit

  pub IsSafeItems : Items → Type 0
  IsSafeItems nil = Unit
  IsSafeItems (item x xs) = IsSafe x × IsSafeItems xs

  pub IsSafeFields : Fields → Type 0
  IsSafeFields end = Unit
  IsSafeFields (field k v fs) = (is_download_url k ≡ false) × IsSafe v × IsSafeFields fs

mutual
  unfolding safe_drive_item IsSafe

  safe_drive_item-IsSafe : (v : Json) → IsSafe (safe_drive_item v)
  safe_drive_item-IsSafe (obj fs) = safe_fields-IsSafe fs
  safe_drive_item-IsSafe (arr xs) = safe_items-IsSafe xs
  safe_drive_item-IsSafe null = tt
  safe_drive_item-IsSafe (bool b) = tt
  safe_drive_item-IsSafe (int z) = tt
  safe_drive_item-IsSafe (float t) = tt
  safe_drive_item-IsSafe (str s) = tt

  safe_items-IsSafe : (xs : Items) → IsSafeItems (safe_items xs)
  safe_items-IsSafe nil = tt
  safe_items-IsSafe (item x xs) = (safe_drive_item-IsSafe x, safe_items-IsSafe xs)

  safe_fields-IsSafe : (fs : Fields) → IsSafeFields (safe_fields fs)
  safe_fields-IsSafe end = tt
  safe_fields-IsSafe (field k v fs) =
      let rest = safe_fields-IsSafe fs in
      let here = safe_drive_item-IsSafe v in
      elim (Bool-cases (is_download_url k)) [
        | inl bad ↦ rw bad rest
        | inr good ↦ rw good (good, here, rest)
      ]

safe_fields-get :
    (fs : Fields) (k : String)
    → get (safe_fields fs) k ≡ (if is_download_url k then null else safe_drive_item (get fs k))
unfolding safe_drive_item get
safe_fields-get end k = ground arith
safe_fields-get (field j v fs) k = ground (arith, eq_iff j k, safe_fields-get fs k)

-- Of a dictionary, _safe_drive_item returns a dictionary in which no key at any depth contains
-- downloadurl, upper and lower case and the characters @ and . aside, and in which every other key
-- of the top level has the cleaned value that it had.
pub safe_drive_item_lem :
    (fs : Fields)
    → IsSafe (safe_drive_item (obj fs))
      × ((out : Fields) × (safe_drive_item (obj fs) ≡ obj out)
          × ((k : String)
              → get out k ≡ (if is_download_url k then null else safe_drive_item (get fs k))))
unfolding safe_drive_item
safe_drive_item_lem fs =
    (safe_drive_item-IsSafe (obj fs), (safe_fields fs, refl, λ k. safe_fields-get fs k))
