-- ===== src/Python/Set.antt =====
-- Sets of texts as lists, and the pigeonhole principle on lists.
use enterprise_multi_agent_s.Prelude.{
  suc, ◌≤◌, String, ◌≡◌, ◌≢◌, refl, sym, ◌∙◌, ◌↔◌, Bool, true, false, ◌||◌, List, [], ◌∷◌, ◌==◌,
  eq_iff, arith, inl, inr, Among, All, length, ap,
}

-- x in s
unfoldable pub contains : List String → String → Bool
contains [] x = false
contains (y ∷ s) x = y == x || contains s x

pub contains_iff : (s : List String) (x : String) → (contains s x ≡ true) ↔ Among x s
unfolding contains
contains_iff [] x = (λ h. ground arith, λ h. elim h [ ])
contains_iff (y ∷ s) x = (
  λ h. ground (arith, eq_iff y x, contains_iff s x),
  λ h. ground (arith, eq_iff y x, contains_iff s x),
)

module _ {A : Type 0} where
  -- No two elements are equal.
  abbrev pub Distinct : List A → Type 0
  Distinct [] = Unit
  Distinct (x ∷ xs) = (¬ Among x xs) × Distinct xs

  without : (a : A) (xs : List A) → Among a xs → List A
  without a [] h = []
  without a (x ∷ xs) (inl e) = xs
  without a (x ∷ xs) (inr h) = x ∷ without a xs h

  length-without :
      (a : A) (xs : List A) (h : Among a xs) → length xs ≡ suc (length (without a xs h))
  unfolding without
  length-without a [] h = elim h [ ]
  length-without a (x ∷ xs) (inl e) = refl
  length-without a (x ∷ xs) (inr h) = ap suc (length-without a xs h)

  Among-without :
      (a b : A) (xs : List A) (h : Among a xs) → a ≢ b → Among b xs → Among b (without a xs h)
  unfolding without
  Among-without a b [] h other k = elim h [ ]
  Among-without a b (x ∷ xs) (inl e) other (inl f) = absurd (other (sym e ∙ f))
  Among-without a b (x ∷ xs) (inl e) other (inr k) = k
  Among-without a b (x ∷ xs) (inr h) other (inl f) = inl f
  Among-without a b (x ∷ xs) (inr h) other (inr k) = inr (Among-without a b xs h other k)

  All-without :
      (a : A) (xs : List A) (h : Among a xs) (ds : List A)
      → ¬ Among a ds
      → All (λ d. Among d xs) ds
      → All (λ d. Among d (without a xs h)) ds
  All-without a xs h [] new s = tt
  All-without a xs h (d ∷ ds) new s = (
    Among-without a d xs h (λ e. new (inl (sym e))) s.0,
    All-without a xs h ds (λ k. new (inr k)) s.1,
  )

  -- Distinct elements of a list are no more than the list has.
  pub length-Distinct-le :
      (ds xs : List A) → Distinct ds → All (λ d. Among d xs) ds → length ds ≤ length xs
  length-Distinct-le [] xs d s = omega arith
  length-Distinct-le (a ∷ ds) xs d s =
      let rest = length-Distinct-le ds (without a xs s.0) d.1 (All-without a xs s.0 ds d.0 s.1) in
      omega (arith, length-without a xs s.0)
