-- ===== src/Tests/Cells.antt =====
-- One partition of a table with optimistic locking, and the transactions on it.
use Prim.Native.String.{◌++◌ as append}
use enterprise_multi_agent_s.Prelude.{
  ℕ, String, ◌≡◌, refl, sym, ap, inl, inr, false, Option, none, some, List, [], ◌∷◌, ◌++◌, ◌==◌,
  eq_iff, arith, subst, Bool-cases, if◌then◌else◌,
}
use enterprise_multi_agent_s.Python.Result.{ok}
use enterprise_multi_agent_s.Python.Dict
use enterprise_multi_agent_s.Python.Dict.{Dict, string_eq}
use enterprise_multi_agent_s.Quota.AzureTable.{
  Entity, Operation, create, update, etag_of, count_of, plain_entity,
}
use enterprise_multi_agent_s.Quota.AzureTable.Concurrent.Partitions.{
  Partition, Stored, Effect, Effects,
}

pub record Cell : Type 0 where
  pub number : Option ℕ
  pub version : String
  pub events : Dict String Entity

abbrev pub tag : Cell → String
tag c = append "v" c.version

abbrev counter_of : Option ℕ → String → Option Entity
counter_of none etag = none
counter_of (some n) etag =
    some (record (plain_entity "2026-01-01" (some n)) { metadata_etag = some etag })

abbrev pub shown : Cell → Partition
shown c = record { counter = counter_of c.number (tag c); etag = tag c; events = c.events }

abbrev pub numbered : Entity → Cell → Cell
numbered e c = record c { number = some (count_of e); version = tag c }

abbrev pub create_counter : Option ℕ → Entity → Cell → Option Cell
create_counter none e c = some (numbered e c)
create_counter (some n) e c = none

abbrev pub create_event : Option Entity → String → Entity → Cell → Option Cell
create_event none row e c = some (record c { events = c.events ++ (row, e) ∷ [] })
create_event (some old) row e c = none

abbrev apply : Operation → Cell → Option Cell
apply (create row e) c =
    if row == "quota"
    then create_counter c.number e c
    else create_event (Dict.get row c.events) row e c
apply (update row e etag) c = if tag c == etag then some (numbered e c) else none

abbrev and_then : Option Cell → (Cell → Option Cell) → Option Cell
and_then none f = none
and_then (some c) f = f c

abbrev pub apply_all : List Operation → Cell → Option Cell
apply_all [] c = some c
apply_all (o ∷ os) c = and_then (apply o c) (apply_all os)

counter-Effect :
    (o : Option ℕ) (e : Entity) (c c' : Cell)
    → o ≡ c.number
    → create_counter o e c ≡ some c'
    → ((shown c).counter ≡ none) × Stored e (shown c') × (c'.events ≡ c.events)
counter-Effect none e c c' same h =
    let last : numbered e c ≡ c' = cc in
    let there =
      (subst (λ (x : Cell). Stored e (shown x) × (x.events ≡ c.events)) last
        ((_, refl, refl), refl)) in
    (ap (λ (n : Option ℕ). counter_of n (tag c)) (sym same), there.0, there.1)
counter-Effect (some n) e c c' same h = cc

event-Effect :
    (o : Option Entity) (row : String) (e : Entity) (c c' : Cell)
    → o ≡ Dict.get row c.events
    → create_event o row e c ≡ some c'
    → (Dict.get row c.events ≡ none)
      × ((shown c').counter ≡ (shown c).counter)
      × (c'.events ≡ c.events ++ (row, e) ∷ [])
event-Effect none row e c c' same h =
    let last : record c { events = c.events ++ (row, e) ∷ [] } ≡ c' = cc in
    let there =
      subst
        (λ (x : Cell).
          ((shown x).counter ≡ (shown c).counter) × (x.events ≡ c.events ++ (row, e) ∷ []))
        last (refl, refl) in
    (sym same, there.0, there.1)
event-Effect (some old) row e c c' same h = cc

apply-Effect : (o : Operation) (c c' : Cell) → apply o c ≡ some c' → Effect o (shown c) (shown c')
apply-Effect (create row e) c c' h = elim (Bool-cases (row == "quota")) [
  | inl counter ↦ rw counter (counter-Effect c.number e c c' refl (rw counter at h))
  | inr event ↦ rw event (event-Effect (Dict.get row c.events) row e c c' refl (rw event at h))
]
apply-Effect (update row e etag) c c' h = elim (Bool-cases (tag c == etag)) [
  | inl same ↦
      let done : some (numbered e c) ≡ some c' = rw same at h in
      let last : numbered e c ≡ c' = cc in
      let there =
        subst (λ (x : Cell). Stored e (shown x) × (x.events ≡ c.events)) last
          ((_, refl, refl), refl) in
      ((eq_iff (tag c) etag).0 same, there.0, there.1)
  | inr other ↦ absurd (ground (arith, h, other))
]

pub and_then-some :
    (o : Option Cell) (f : Cell → Option Cell) (d : Cell)
    → and_then o f ≡ some d
    → (c : Cell) × (o ≡ some c) × (f c ≡ some d)
and_then-some none f d h = cc
and_then-some (some c) f d h = (c, refl, h)

pub apply_all-Effects :
    (os : List Operation) (c d : Cell) → apply_all os c ≡ some d → Effects os (shown c) (shown d)
apply_all-Effects [] c d h = ap shown cc
apply_all-Effects (o ∷ os) c d h =
    let (b, one, rest) = and_then-some (apply o c) (apply_all os) d h in
    (shown b, apply-Effect o c b one, apply_all-Effects os b d rest)

pub counter-tag :
    (o : Option ℕ) (t : String) (c : Entity) (etag : String)
    → (t == "") ≡ false
    → counter_of o t ≡ some c
    → etag_of c ≡ ok etag
    → t ≡ etag
unfolding etag_of
counter-tag none t c etag full h k = cc
counter-tag (some n) t c etag full h k =
    let same : record (plain_entity "2026-01-01" (some n)) { metadata_etag = some t } ≡ c = cc in
    let read : etag_of (record (plain_entity "2026-01-01" (some n)) { metadata_etag = some t })
        ≡ ok etag =
      rw same k in
    ground (arith, read, full)
