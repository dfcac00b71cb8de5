-- ===== src/Python/Json.antt =====
-- JSON values as Python holds them, and the operations that the program makes on them.
use Prim.Native.String.{compare}
use Prim.Native.Nat.{Ordering}
use enterprise_multi_agent_s.Prelude.{
  String, ◌≡◌, refl, Bool, true, false, not, ◌||◌, Option, none, some, ◌==◌, if◌then◌else◌, ℤ,
  is_zero, arith, eq_iff, eq_refl,
}
use enterprise_multi_agent_s.Python.Text.{decimal_ℤ}

-- `float` holds the text of the number, as repr prints it. A dictionary is the list of its items.
mutual
  pub data Json : Type 0 where
    null : Json
    bool : Bool → Json
    int : ℤ → Json
    float : String → Json
    str : String → Json
    arr : Items → Json
    obj : Fields → Json

  pub data Items : Type 0 where
    nil : Items
    item : Json → Items → Items

  pub data Fields : Type 0 where
    end : Fields
    field : String → Json → Fields → Fields

-- d.get(k), with None for a key that is not there
unfoldable pub get : Fields → String → Json
get end k = null
get (field j v fs) k = if j == k then v else get fs k

-- k in d
unfoldable pub has : Fields → String → Bool
has end k = false
has (field j v fs) k = j == k || has fs k

-- d.get(k, default)
abbrev pub get_or : Fields → String → Json → Json
get_or fs k default = if has fs k then get fs k else default

-- d[k] = v
unfoldable pub put : Fields → String → Json → Fields
put end k v = field k v end
put (field j w fs) k v = if j == k then field j v fs else field j w (put fs k v)

-- d.pop(k, None)
unfoldable pub pop : Fields → String → Fields
pop end k = end
pop (field j w fs) k = if j == k then fs else field j w (pop fs k)

-- bool(v)
unfoldable pub truthy : Json → Bool
truthy null = false
truthy (bool b) = b
truthy (int z) = not (is_zero z)
truthy (float t) = not (t == "0.0" || t == "-0.0")
truthy (str s) = not (s == "")
truthy (arr nil) = false
truthy (arr (item _ _)) = true
truthy (obj end) = false
truthy (obj (field _ _ _)) = true

-- isinstance(v, Mapping)
abbrev pub as_object : Json → Option Fields
as_object (obj fs) = some fs
as_object _ = none

-- isinstance(v, list)
abbrev pub as_list : Json → Option Items
as_list (arr xs) = some xs
as_list _ = none

-- isinstance(v, str)
abbrev pub as_text : Json → Option String
as_text (str s) = some s
as_text _ = none

-- `s or None`, as JSON
abbrev pub text_or_null : Option String → Json
text_or_null none = null
text_or_null (some s) = str s

-- str(v); the text of a list or a dictionary is `repr`, a parameter.
module _ (repr : Json → String) where
  unfoldable pub to_text : Json → String
  to_text null = "None"
  to_text (bool true) = "True"
  to_text (bool false) = "False"
  to_text (int z) = decimal_ℤ z
  to_text (float t) = t
  to_text (str s) = s
  to_text v = repr v

  -- str(v or "")
  unfoldable pub text_or_empty : Json → String
  text_or_empty v = if truthy v then to_text v else ""

-- The items of a dictionary in the order of their keys, at every depth: json.dumps(sort_keys=True).
abbrev pub before : String → String → Bool
before j k = elim (compare j k) [ Ordering.gt ↦ false | _ ↦ true ]

unfoldable pub insert_sorted : String → Json → Fields → Fields
insert_sorted k v end = field k v end
insert_sorted k v (field j w fs) =
    if before k j then field k v (field j w fs) else field j w (insert_sorted k v fs)

unfoldable mutual
  pub sort_keys : Json → Json
  sort_keys null = null
  sort_keys (bool b) = bool b
  sort_keys (int z) = int z
  sort_keys (float t) = float t
  sort_keys (str s) = str s
  sort_keys (arr xs) = arr (sort_items xs)
  sort_keys (obj fs) = obj (sort_fields fs)

  pub sort_items : Items → Items
  sort_items nil = nil
  sort_items (item x xs) = item (sort_keys x) (sort_items xs)

  pub sort_fields : Fields → Fields
  sort_fields end = end
  sort_fields (field k v fs) = insert_sorted k (sort_keys v) (sort_fields fs)

pub get-put :
    (fs : Fields) (k j : String) (v : Json) → get (put fs k v) j ≡ (if k == j then v else get fs j)
unfolding get put
get-put end k j v = refl
get-put (field i w fs) k j v = ground (arith, eq_iff k j, eq_iff i k, eq_iff i j, get-put fs k j v)

pub text_or_empty-str : (repr : Json → String) (s : String) → text_or_empty repr (str s) ≡ s
unfolding text_or_empty truthy to_text
text_or_empty-str repr s = ground (arith, eq_iff s "")

pub truthy-put :
    (fs : Fields) (k : String) (v : Json) → truthy v ≡ true → truthy (get (put fs k v) k) ≡ true
truthy-put fs k v h = rw (get-put fs k k v, eq_refl k) h
