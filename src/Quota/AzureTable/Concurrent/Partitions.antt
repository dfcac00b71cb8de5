-- ===== src/Quota/AzureTable/Concurrent/Partitions.antt =====
-- What the service keeps for one partition of the quota's table, and what a committed transaction does
-- to it.
use enterprise_multi_agent_s.Prelude.{
  ℕ, ◌+◌, ◌≤◌, String, ◌≡◌, ap, ◌⊎◌, false, Option, none, some, List, [], ◌∷◌, ◌++◌, ◌==◌, arith,
  leb, length, length-append, if◌then◌else◌,
}
use enterprise_multi_agent_s.Python.Result.{Exn, ok, err}
use enterprise_multi_agent_s.Python.Dict
use enterprise_multi_agent_s.Python.Dict.{Dict, string_eq, beq_refl}
use enterprise_multi_agent_s.Quota.AzureTable.{
  Entity, Operation, create, update, TableClient, etag_of, count_of, plain_entity, found_or_none,
}

-- One partition: the counter with its ETag, and the rows of the events.
pub record Partition : Type 0 where
  pub counter : Option Entity
  pub etag : String
  pub events : Dict String Entity

-- What a read of a row answers.
abbrev pub answer : String → Partition → Option Entity
answer row p = if row == "quota" then p.counter else Dict.get row p.events

-- The service holds the counter `e`, with an ETag of its own.
abbrev pub Stored : Entity → Partition → Type 0
Stored e p = (c : Entity) × (p.counter ≡ some c) × (count_of c ≡ count_of e)

-- What one operation of a committed transaction asks of the partition, and does to it.
abbrev pub Effect : Operation → Partition → Partition → Type 0
Effect (create row e) p p' =
    if row == "quota"
    then (p.counter ≡ none) × Stored e p' × (p'.events ≡ p.events)
    else (Dict.get row p.events ≡ none)
      × (p'.counter ≡ p.counter)
      × (p'.events ≡ p.events ++ (row, e) ∷ [])
Effect (update row e etag) p p' = (p.etag ≡ etag) × Stored e p' × (p'.events ≡ p.events)

abbrev pub Effects : List Operation → Partition → Partition → Type 0
Effects [] p p' = p ≡ p'
Effects (o ∷ os) p p' = (q : Partition) × Effect o p q × Effects os q p'

-- The counter is the number of the events, within the limit `bound`.
pub record Fits (bound : ℕ) (p : Partition) : Type 0 where
  pub counted : (elim p.counter [ none ↦ 0 | some c ↦ count_of c ]) ≡ length p.events
  pub within : length p.events ≤ bound

-- A transaction that creates the counter, or raises it by one.
creations-Fits :
    (bound : ℕ) (day row : String) (p p' : Partition)
    → 1 ≤ bound
    → (row == "quota") ≡ false
    → Fits bound p
    → Effects
        (create "quota" (plain_entity day (some 1)) ∷ create row (plain_entity day none) ∷ [])
        p
        p'
    → Fits bound p'
creations-Fits bound day row p p' room other f
      (q, (none_there, (c', counter, number), events), (q', added, last)) =
    let grown : (Dict.get row q.events ≡ none)
        × (q'.counter ≡ q.counter)
        × (q'.events ≡ q.events ++ (row, plain_entity day none) ∷ []) =
      rw other at added in
    let size = length-append p.events ((row, plain_entity day none) ∷ []) in
    let all_events : p'.events ≡ p.events ++ (row, plain_entity day none) ∷ [] =
      cc (ap (λ (x : Partition). x.events) last, grown.2, events) in
    let end_counter : p'.counter ≡ some c' =
      cc (ap (λ (x : Partition). x.counter) last, grown.1, counter) in
    record {
      counted = ground (arith, size, f.counted);
      within = ground (arith, size, f.counted, f.within);
    }

updates-Fits :
    (bound limit : ℕ) (day row etag : String) (c : Entity) (p p' : Partition)
    → limit ≤ bound
    → leb limit (count_of c) ≡ false
    → (row == "quota") ≡ false
    → (p.etag ≡ etag → p.counter ≡ some c)
    → Fits bound p
    → Effects
        (update "quota" (record c { count = some (count_of c + 1) }) etag
          ∷ create row (plain_entity day none)
          ∷ [])
        p
        p'
    → Fits bound p'
updates-Fits bound limit day row etag c p p' small room other same f
      (q, (found, (c', counter, number), events), (q', added, last)) =
    let grown : (Dict.get row q.events ≡ none)
        × (q'.counter ≡ q.counter)
        × (q'.events ≡ q.events ++ (row, plain_entity day none) ∷ []) =
      rw other at added in
    let size = length-append p.events ((row, plain_entity day none) ∷ []) in
    let before = same found in
    let all_events : p'.events ≡ p.events ++ (row, plain_entity day none) ∷ [] =
      cc (ap (λ (x : Partition). x.events) last, grown.2, events) in
    let end_counter : p'.counter ≡ some c' =
      cc (ap (λ (x : Partition). x.counter) last, grown.1, counter) in
    record {
      counted = ground (arith, size, f.counted);
      within = ground (arith, size, f.counted, f.within);
    }

-- A transaction of a client that runs this code with a limit of at most `bound`. It creates the counter with
-- the first event, or adds an event to a counter that it read below its limit with the ETag it names.
pub data Commit (bound : ℕ) : Partition → Partition → Type 0 where
  first_event :
      (day row : String) (p p' : Partition)
      → 1 ≤ bound
      → (row == "quota") ≡ false
      → Effects
          (create "quota" (plain_entity day (some 1)) ∷ create row (plain_entity day none) ∷ [])
          p
          p'
      → Commit bound p p'
  another_event :
      (limit : ℕ) (day row etag : String) (c : Entity) (p p' : Partition)
      → limit ≤ bound
      → leb limit (count_of c) ≡ false
      → (row == "quota") ≡ false
      → (p.etag ≡ etag → p.counter ≡ some c)
      → Effects
          (update "quota" (record c { count = some (count_of c + 1) }) etag
            ∷ create row (plain_entity day none)
            ∷ [])
          p
          p'
      → Commit bound p p'

pub Commit-Fits : (bound : ℕ) (p p' : Partition) → Commit bound p p' → Fits bound p → Fits bound p'
Commit-Fits bound _ _ (first_event day row p p' room other effects) f =
    creations-Fits bound day row p p' room other f effects
Commit-Fits bound _ _ (another_event limit day row etag c p p' small room other same effects) f =
    updates-Fits bound limit day row etag c p p' small room other same f effects

-- Any number of such transactions.
pub data Commits (bound : ℕ) : Partition → Partition → Type 0 where
  none_yet : (p : Partition) → Commits bound p p
  one_more : (p q r : Partition) → Commits bound p q → Commit bound q r → Commits bound p r

pub Commits-Fits :
    (bound : ℕ) (p p' : Partition) → Commits bound p p' → Fits bound p → Fits bound p'
Commits-Fits bound _ _ (none_yet p) f = f
Commits-Fits bound _ _ (one_more p q r before last) f =
    Commit-Fits bound q r last (Commits-Fits bound p q before f)

-- What the quota relies on: `Others w w'` is any activity of other clients, who commit transactions of this
-- code with limits of at most `bound`; a counter whose ETag is the same is the same. A transaction commits
-- as a whole, or changes nothing.
pub record IsTable {W : Type 0} (table : TableClient W) (partition : W → String → Partition)
    (Others : W → W → Type 0) (bound : ℕ) : Type 1 where
  pub others_commit :
      (w w' : W) (k : String) → Others w w' → Commits bound (partition w k) (partition w' k)
  pub others_etag :
      (w w' : W) (k : String)
      → Others w w'
      → (partition w' k).etag ≡ (partition w k).etag
      → (partition w' k).counter ≡ (partition w k).counter
  pub read_others : (k row : String) (w : W) → Others w (table.get_entity k row w).1
  pub read_answer :
      (k row : String) (w : W) (o : Option Entity)
      → found_or_none (table.get_entity k row w).0 ≡ ok o
      → o ≡ answer row (partition (table.get_entity k row w).1 k)
  pub read_etag :
      (k : String) (w : W) (c : Entity) (etag : String)
      → (partition w k).counter ≡ some c
      → etag_of c ≡ ok etag
      → (partition w k).etag ≡ etag
  pub commit :
      (k : String) (os : List Operation) (w : W)
      → (w1 : W) × Others w w1
        × (((Effects os (partition w1 k) (partition (table.submit_transaction k os w).1 k))
              × ((j : String)
                  → ((k == j) ≡ false)
                  → partition (table.submit_transaction k os w).1 j ≡ partition w1 j))
            ⊎ (((table.submit_transaction k os w).1 ≡ w1)
                × ((e : Exn) × ((table.submit_transaction k os w).0 ≡ err e))))
