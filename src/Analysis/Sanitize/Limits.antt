-- ===== src/Analysis/Sanitize/Limits.antt =====
-- The size of what sanitize_for_model returns, and its secrets.
use enterprise_multi_agent_s.Prelude.{
  ℕ, zero, suc, ◌+◌, ◌≤◌, String, ◌≡◌, refl, true, false, ◌==◌, eq_iff, arith, leb, ltb, subst, sym,
  if◌then◌else◌, Bool-cases, inl, inr,
}
use enterprise_multi_agent_s.Python.Text.{lower, after_prefix}
use enterprise_multi_agent_s.Python.Text.Search.{includes}
use enterprise_multi_agent_s.Python.Json.{
  Json, null, bool, int, float, str, arr, obj, Items, nil, item, Fields, end, field, put,
}
use enterprise_multi_agent_s.Analysis.Sanitize.{
  letters_and_digits, has_part, is_sensitive, sanitize_for_model, sanitize_fields, sanitize_items,
}

abbrev pub width : Fields → ℕ
width end = 0
width (field k v fs) = suc (width fs)

abbrev pub items_count : Items → ℕ
items_count nil = 0
items_count (item v xs) = suc (items_count xs)

-- At most `n` levels of dictionaries and lists, of at most 101 items each, and under a sensitive key
-- nothing but the mark.
unfoldable mutual
  pub IsBounded : ℕ → Json → Type 0
  IsBounded zero (obj fs) = ⊥
  IsBounded (suc n) (obj fs) = (width fs ≤ 101) × AreBoundedFields n fs
  IsBounded zero (arr xs) = ⊥
  IsBounded (suc n) (arr xs) = (items_count xs ≤ 101) × AreBoundedItems n xs
  IsBounded n null = Unit
  IsBounded n (bool b) = Unit
  IsBounded n (int z) = Unit
  IsBounded n (float t) = Unit
  IsBounded n (str s) = Unit

  pub AreBoundedFields : ℕ → Fields → Type 0
  AreBoundedFields n end = Unit
  AreBoundedFields n (field k v fs) =
      (is_sensitive k ≡ true → v ≡ str "[redacted]") × IsBounded n v × AreBoundedFields n fs

  pub AreBoundedItems : ℕ → Items → Type 0
  AreBoundedItems n nil = Unit
  AreBoundedItems n (item v xs) = IsBounded n v × AreBoundedItems n xs

width-put : (fs : Fields) (k : String) (v : Json) → width (put fs k v) ≤ suc (width fs)
unfolding put
width-put end k v = omega arith
width-put (field j w fs) k v = ground (arith, width-put fs k v)

put-AreBounded :
    (n : ℕ) (fs : Fields) (k : String) (v : Json)
    → AreBoundedFields n fs
    → (is_sensitive k ≡ true → v ≡ str "[redacted]")
    → IsBounded n v
    → AreBoundedFields n (put fs k v)
unfolding put AreBoundedFields
put-AreBounded n end k v b marked small = (marked, small, tt)
put-AreBounded n (field j w fs) k v b marked small = elim (Bool-cases (j == k)) [
  | inl same ↦ rw same (
    λ h. marked (subst (λ (x : String). is_sensitive x ≡ true) ((eq_iff j k).0 same) h),
    small,
    b.2,
  )
  | inr other ↦ rw other (b.0, b.1, put-AreBounded n fs k v b.2 marked small)
]

truncated_plain : is_sensitive "_truncated" ≡ false
unfolding is_sensitive letters_and_digits has_part lower includes after_prefix
truncated_plain = refl

plain-IsBounded : (n : ℕ) (s : String) → IsBounded n (str s)
unfolding IsBounded
plain-IsBounded zero s = tt
plain-IsBounded (suc n) s = tt

shallow : (depth n : ℕ) → depth + suc n ≡ 9 → ltb 8 depth ≡ false
shallow depth n e = ground (arith, e)

true-IsBounded : (n : ℕ) → IsBounded n (bool true)
unfolding IsBounded
true-IsBounded zero = tt
true-IsBounded (suc n) = tt

module _ (redact : String → String) where
  -- Below eight levels there is only the mark.
  deep_truncated :
      (depth : ℕ) (v : Json)
      → ltb 8 depth ≡ true
      → sanitize_for_model redact depth v ≡ str "[truncated]"
  unfolding sanitize_for_model
  deep_truncated depth null h = rw h refl
  deep_truncated depth (bool b) h = rw h refl
  deep_truncated depth (int z) h = rw h refl
  deep_truncated depth (float t) h = rw h refl
  deep_truncated depth (str s) h = rw h refl
  deep_truncated depth (arr xs) h = rw h refl
  deep_truncated depth (obj fs) h = rw h refl

  mutual
    unfolding sanitize_for_model IsBounded

    value-IsBounded :
        (depth n : ℕ) → depth + n ≡ 9 → (v : Json) → IsBounded n (sanitize_for_model redact depth v)
    value-IsBounded depth zero e v =
        subst (IsBounded zero) (sym (deep_truncated depth v (ground (arith, e)))) tt
    value-IsBounded depth (suc n) e null = rw (shallow depth n e) tt
    value-IsBounded depth (suc n) e (bool b) = rw (shallow depth n e) tt
    value-IsBounded depth (suc n) e (int z) = rw (shallow depth n e) tt
    value-IsBounded depth (suc n) e (float t) = rw (shallow depth n e) tt
    value-IsBounded depth (suc n) e (str s) = rw (shallow depth n e) tt
    value-IsBounded depth (suc n) e (arr xs) =
        let inside = items-AreBounded (depth + 1) n (omega arith) 0 xs (omega arith) in
        rw (shallow depth n e) (ground (arith, inside.0), inside.1)
    value-IsBounded depth (suc n) e (obj fs) =
        let inside =
          fields-AreBounded (depth + 1) n (omega arith) 0 fs end (omega arith) (omega arith) tt in
        rw (shallow depth n e) inside

    items-AreBounded :
        (depth n : ℕ)
        → depth + n ≡ 9
        → (index : ℕ) (xs : Items) → index ≤ 100
        → (index + items_count (sanitize_items redact depth index xs) ≤ 101)
          × AreBoundedItems n (sanitize_items redact depth index xs)
    items-AreBounded depth n e index nil small = (omega arith, tt)
    items-AreBounded depth n e index (item v xs) small = elim (Bool-cases (leb 100 index)) [
      | inl full ↦ rw full (omega arith, (plain-IsBounded n "[truncated]", tt))
      | inr room ↦
          let here = value-IsBounded depth n e v in
          let rest = items-AreBounded depth n e (index + 1) xs (ground (arith, room)) in
          rw room (omega (arith, rest.0), (here, rest.1))
    ]

    fields-AreBounded :
        (depth n : ℕ)
        → depth + n ≡ 9
        → (index : ℕ) (fs output : Fields) → index ≤ 100
        → width output ≤ index
        → AreBoundedFields n output
        → (width (sanitize_fields redact depth index fs output) ≤ 101)
          × AreBoundedFields n (sanitize_fields redact depth index fs output)
    fields-AreBounded depth n e index end output small fits b = (omega arith, b)
    fields-AreBounded depth n e index (field k v fs) output small fits b =
        elim (Bool-cases (leb 100 index)) [
          | inl full ↦ rw full (
            omega (arith, width-put output "_truncated" (bool true)),
            put-AreBounded n output "_truncated" (bool true) b
                (λ h. absurd (ground (arith, h, truncated_plain))) (true-IsBounded n),
          )
          | inr room ↦
              let inside = value-IsBounded depth n e v in
              let value =
                if is_sensitive k then str "[redacted]" else sanitize_for_model redact depth v in
              let kept =
                put-AreBounded n output k value b (λ h. rw h refl)
                  (elim (Bool-cases (is_sensitive k)) [
                    | inl secret ↦ rw secret (plain-IsBounded n "[redacted]")
                    | inr open_key ↦ rw open_key inside
                  ]) in
              rw room (
                fields-AreBounded depth n e (index + 1) fs (put output k value)
                  (ground (arith, room)) (omega (arith, width-put output k value)) kept)
        ]

  -- What sanitize_for_model returns of any value has at most nine levels of dictionaries and
  -- lists, each of at most 101 items, and under every key with a sensitive part only the text
  -- [redacted].
  pub sanitize_for_model-IsBounded : (v : Json) → IsBounded 9 (sanitize_for_model redact 0 v)
  sanitize_for_model-IsBounded v = value-IsBounded 0 9 refl v
