-- ===== src/Quota/Bound.antt =====
-- The memory quota over any run of calls.

use enterprise_multi_agent_s.Prelude.{
  ℕ, ◌≤◌, String, ◌≡◌, ap, sym, subst, Bool, true, ◌&&◌, List, [], ◌∷◌, ◌++◌, arith, leb, length,
  length-append, if◌then◌else◌, Bool-cases, inl, inr, Among, All, All-append, Among-append_left,
  Among-append_last,
}
use enterprise_multi_agent_s.Python.Result.{Result, ok, Result-cases}
use enterprise_multi_agent_s.Python.Dict
use enterprise_multi_agent_s.Python.Dict.{pair_eq, pair_beq, pair_beq_iff, get-put, beq_refl}
use enterprise_multi_agent_s.Python.Set.{contains, contains_iff, Distinct, length-Distinct-le}
use enterprise_multi_agent_s.Runtime.{Runtime}
use enterprise_multi_agent_s.Quota.{
  MemoryDailyQuota, accepted_at, reserve, reserve_at, Call, request, allow,
}

-- The set under a key after a reservation under another or the same key.
accepted-reserve_at :
    (key k : String × String) (h : String) (limit : ℕ) (q : MemoryDailyQuota)
    → accepted_at (reserve_at key h limit q).1 k
      ≡ (if pair_beq key k then (reserve limit h (accepted_at q key)).1 else accepted_at q k)
unfolding reserve_at
accepted-reserve_at key k h limit q =
    ground (arith, get-put key k (reserve limit h (accepted_at q key)).1 q.events)

-- One reservation: the bound, what stays, and what a grant puts in.
length-reserve-le :
    (limit cap : ℕ) (h : String) (accepted : List String)
    → limit ≤ cap
    → length accepted ≤ cap
    → length (reserve limit h accepted).1 ≤ cap
unfolding reserve
length-reserve-le limit cap h accepted small fits = ground (arith, length-append accepted (h ∷ []))

reserve_keeps :
    (limit : ℕ) (h x : String) (accepted : List String)
    → Among x accepted
    → Among x (reserve limit h accepted).1
unfolding reserve
reserve_keeps limit h x accepted m = elim (Bool-cases (contains accepted h)) [
  | inl old ↦ rw old m
  | inr new ↦ elim (Bool-cases (leb limit (length accepted))) [
    | inl full ↦ rw (new, full) m
    | inr room ↦ rw (new, room) (Among-append_left x accepted (h ∷ []) m)
  ]
]

reserve_granted :
    (limit : ℕ) (h : String) (accepted : List String)
    → (reserve limit h accepted).0 ≡ true
    → Among h (reserve limit h accepted).1
unfolding reserve
reserve_granted limit h accepted g = elim (Bool-cases (contains accepted h)) [
  | inl old ↦ rw old ((contains_iff accepted h).0 old)
  | inr new ↦ elim (Bool-cases (leb limit (length accepted))) [
    | inl full ↦ absurd (ground arith)
    | inr room ↦ rw (new, room) (Among-append_last h accepted)
  ]
]

module _ {Bytes : Type 0} (rt : Runtime Bytes) where
  -- The quota after a run of calls, whatever they answer or raise.
  unfoldable pub run : List Call → MemoryDailyQuota → MemoryDailyQuota
  run [] q = q
  run (c ∷ calls) q = run calls (allow rt c q).1

  -- The event digests that a call was granted under a key.
  abbrev granted_by :
      String × String → Result ((String × String) × String) → Result Bool → List String
  granted_by k (ok (key, h)) (ok answer) = if pair_beq key k && answer then h ∷ [] else []
  granted_by k _ _ = []

  -- The event digests that a run is granted under a key.
  unfoldable pub granted : String × String → List Call → MemoryDailyQuota → List String
  granted k [] q = []
  granted k (c ∷ calls) q =
      granted_by k (request rt c) (allow rt c q).0 ++ granted k calls (allow rt c q).1

  allow_fits :
      (cap : ℕ) (c : Call) (q : MemoryDailyQuota) (k : String × String)
      → c.limit ≤ cap
      → ((j : String × String) → length (accepted_at q j) ≤ cap)
      → length (accepted_at (allow rt c q).1 k) ≤ cap
  unfolding allow
  allow_fits cap c q k small fits = elim (Result-cases (request rt c)) [
    | inr (e, bad) ↦ rw bad (fits k)
    | inl ((key, h), good) ↦ rw good (
        rw (accepted-reserve_at key k h c.limit q) (elim (Bool-cases (pair_beq key k)) [
          | inl same ↦
              rw same (length-reserve-le c.limit cap h (accepted_at q key) small (fits key))
          | inr other ↦ rw other (fits k)
        ]))
  ]

  allow_keeps :
      (c : Call) (q : MemoryDailyQuota) (k : String × String) (x : String)
      → Among x (accepted_at q k)
      → Among x (accepted_at (allow rt c q).1 k)
  unfolding allow
  allow_keeps c q k x m = elim (Result-cases (request rt c)) [
    | inr (e, bad) ↦ rw bad m
    | inl ((key, h), good) ↦ rw good (
        rw (accepted-reserve_at key k h c.limit q) (elim (Bool-cases (pair_beq key k)) [
          | inl same ↦ rw same (
              reserve_keeps c.limit h x (accepted_at q key) (
                subst (λ (j : String × String). Among x (accepted_at q j))
                  (sym ((pair_beq_iff key k).0 same)) m))
          | inr other ↦ rw other m
        ]))
  ]

  granted_here :
      (k key : String × String) (h : String) (limit : ℕ) (q : MemoryDailyQuota)
      → All
          (λ d. Among d (accepted_at (reserve_at key h limit q).1 k))
          (granted_by k (ok (key, h)) (ok (reserve_at key h limit q).0))
  granted_here k key h limit q = elim (Bool-cases (pair_beq key k)) [
    | inr other ↦ rw other tt
    | inl same ↦ rw same (elim (Bool-cases (reserve_at key h limit q).0) [
      | inr refused ↦ rw refused tt
      | inl answer ↦ rw answer (
        rw (accepted-reserve_at key k h limit q, same)
            (reserve_granted limit h (accepted_at q key) (unfold reserve_at in answer)),
        tt,
      )
    ])
  ]

  allow_granted :
      (c : Call) (q : MemoryDailyQuota) (k : String × String)
      → All
          (λ d. Among d (accepted_at (allow rt c q).1 k))
          (granted_by k (request rt c) (allow rt c q).0)
  unfolding allow
  allow_granted c q k = elim (Result-cases (request rt c)) [
    | inr (e, bad) ↦ rw bad tt
    | inl ((key, h), good) ↦ rw good (granted_here k key h c.limit q)
  ]

  run_fits :
      (cap : ℕ) (calls : List Call) (q : MemoryDailyQuota) (k : String × String)
      → All (λ c. c.limit ≤ cap) calls
      → ((j : String × String) → length (accepted_at q j) ≤ cap)
      → length (accepted_at (run calls q) k) ≤ cap
  unfolding run
  run_fits cap [] q k small fits = fits k
  run_fits cap (c ∷ calls) q k small fits =
      run_fits cap calls (allow rt c q).1 k small.1 (λ j. allow_fits cap c q j small.0 fits)

  run_keeps :
      (calls : List Call) (q : MemoryDailyQuota) (k : String × String) (x : String)
      → Among x (accepted_at q k)
      → Among x (accepted_at (run calls q) k)
  unfolding run
  run_keeps [] q k x m = m
  run_keeps (c ∷ calls) q k x m = run_keeps calls (allow rt c q).1 k x (allow_keeps c q k x m)

  All-keep :
      (calls : List Call) (q : MemoryDailyQuota) (k : String × String) (xs : List String)
      → All (λ d. Among d (accepted_at q k)) xs
      → All (λ d. Among d (accepted_at (run calls q) k)) xs
  All-keep calls q k [] m = tt
  All-keep calls q k (x ∷ xs) m = (run_keeps calls q k x m.0, All-keep calls q k xs m.1)

  run-granted :
      (calls : List Call) (q : MemoryDailyQuota) (k : String × String)
      → All (λ d. Among d (accepted_at (run calls q) k)) (granted k calls q)
  unfolding run granted
  run-granted [] q k = tt
  run-granted (c ∷ calls) q k =
      let q' = (allow rt c q).1 in
      All-append (λ d. Among d (accepted_at (run calls q') k))
        (granted_by k (request rt c) (allow rt c q).0) (granted k calls q')
        (All-keep calls q' k _ (allow_granted c q k)) (run-granted calls q' k)

  Among-of_All : (P : String → Type 0) (xs : List String) (x : String) → All P xs → Among x xs → P x
  Among-of_All P [] x a m = elim m [ ]
  Among-of_All P (y ∷ xs) x a (inl e) = subst P e a.0
  Among-of_All P (y ∷ xs) x a (inr m) = Among-of_All P xs x a.1 m

  All-Among :
      (P : String → Type 0) (xs ds : List String) → All P xs → All (λ d. Among d xs) ds → All P ds
  All-Among P xs [] a m = tt
  All-Among P xs (d ∷ ds) a m = (Among-of_All P xs d a m.0, All-Among P xs ds a m.1)

  -- Over any run of calls of the memory quota whose limits are at most cap, from an empty quota,
  -- no repository-day is granted more than cap distinct event digests.
  pub granted-Distinct-le :
      (cap : ℕ) (calls : List Call) (k : String × String)
      → All (λ c. c.limit ≤ cap) calls
      → (ds : List String) → Distinct ds
      → All (λ d. Among d (granted k calls (record { events = [] }))) ds
      → length ds ≤ cap
  unfolding Dict.get
  granted-Distinct-le cap calls k small ds distinct within =
      let start : MemoryDailyQuota = record { events = [] } in
      let accepted = accepted_at (run calls start) k in
      let held =
        All-Among (λ d. Among d accepted) (granted k calls start) ds (run-granted calls start k)
          within in
      let bound = run_fits cap calls start k small (λ j. omega arith) in
      omega (arith, length-Distinct-le ds accepted distinct held)

  -- A digest that is there is granted, and no set changes.
  allow_held :
      (c : Call) (q : MemoryDailyQuota) (key k : String × String) (h : String)
      → request rt c ≡ ok (key, h)
      → Among h (accepted_at q key)
      → ((allow rt c q).0 ≡ ok true) × (accepted_at (allow rt c q).1 k ≡ accepted_at q k)
  unfolding allow
  allow_held c q key k h asked m =
      let there = (contains_iff (accepted_at q key) h).1 m in
      let kept : reserve c.limit h (accepted_at q key) ≡ (true, accepted_at q key) =
        unfold reserve in rw there in
      rw asked (
        unfold reserve_at in rw kept,
        rw (accepted-reserve_at key k h c.limit q, kept)
            (elim (Bool-cases (pair_beq key k)) [
              | inl same ↦ rw same (ap (accepted_at q) ((pair_beq_iff key k).0 same))
              | inr other ↦ rw other
            ]),
      )

  -- An event granted by the memory quota is granted again after any further calls: a repeated call
  -- that is valid, so of a positive limit, and has the same digests of repository, event and UTC
  -- date returns true under whatever such limit, also when the day is full, and changes the set of
  -- no repository-day.
  pub allow-granted_again :
      (c again : Call) (calls : List Call) (q : MemoryDailyQuota) (key k : String × String)
      (h : String)
      → request rt c ≡ ok (key, h)
      → request rt again ≡ ok (key, h)
      → (allow rt c q).0 ≡ ok true
      → ((allow rt again (run calls (allow rt c q).1)).0 ≡ ok true)
        × (accepted_at (allow rt again (run calls (allow rt c q).1)).1 k
            ≡ accepted_at (run calls (allow rt c q).1) k)
  allow-granted_again c again calls q key k h first second answer =
      let q1 = (allow rt c q).1 in
      let given : All (λ d. Among d (accepted_at q1 key)) (h ∷ []) =
        rw (first, answer, beq_refl key) at (allow_granted c q key) in
      allow_held again (run calls q1) key k h second (run_keeps calls q1 key h given.0)
