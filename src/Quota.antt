-- ===== src/Quota.antt =====
-- src/webhook_gateway/quota.py: the daily quotas of model calls. `MemoryDailyQuota` is here, the
-- quota on the Azure table is the module `AzureTable`. A clock reading is the UTC date that it falls
-- on, or none for a datetime without a time zone.
pub mod Bound
pub mod AzureTable
use Prim.Native.String.{count, ◌++◌ as append}
use mathlib.Core.Option
use enterprise_multi_agent_s.Prelude.{
  ℕ, String, Bool, true, false, Option, none, some, List, [], ◌∷◌, ◌++◌, ◌==◌, leb, ltb, length,
  if◌then◌else◌,
}
use enterprise_multi_agent_s.Python.Text.{strip, lower, decimal}
use enterprise_multi_agent_s.Python.Result.{Result, ok, err, value_error, ◌>>=◌}
use enterprise_multi_agent_s.Python.Exec.{Exec}
use enterprise_multi_agent_s.Python.Dict
use enterprise_multi_agent_s.Python.Dict.{Dict, pair_eq}
use enterprise_multi_agent_s.Python.Set.{contains}
use enterprise_multi_agent_s.Runtime.{Runtime}

unfoldable pub validated_inputs : String → String → ℕ → Result (String × String)
validated_inputs repository event_id limit =
    let normalized_repository = lower (strip repository) in
    let normalized_event_id = strip event_id in
    if normalized_repository == ""
    then err (value_error "repository is required")
    else if normalized_event_id == ""
    then err (value_error "event_id is required")
    else if ltb limit 1
    then err (value_error "limit must be a positive integer")
    else ok (normalized_repository, normalized_event_id)

unfoldable pub utc_date : Option String → Result String
utc_date none = err (value_error "quota clock must return a timezone-aware datetime")
utc_date (some day) = ok day

module _ {Bytes : Type 0} (rt : Runtime Bytes) where
  unfoldable pub digest : String → String → String
  digest namespace value = rt.sha256 (
      rt.encode
        (append namespace (append "\0" (append (decimal (count value)) (append "\0" value)))))

  unfoldable pub partition_key : String → String → String
  partition_key repository utc_date =
      digest "repository-day"
        (append (decimal (count repository)) (append ":" (append repository utc_date)))

  unfoldable pub event_row_key : String → String
  event_row_key event_id = append "event-" (digest "event" event_id)

pub record MemoryDailyQuota : Type 0 where
  pub events : Dict (String × String) (List String)

abbrev pub accepted_at : MemoryDailyQuota → String × String → List String
accepted_at q k = Option.get_or (Dict.get k q.events) []

-- what `allow` does with the set under its key: the answer, and the set
unfoldable pub reserve : ℕ → String → List String → Bool × List String
reserve limit event_hash accepted =
    if contains accepted event_hash
    then (true, accepted)
    else if leb limit (length accepted)
    then (false, accepted)
    else (true, accepted ++ event_hash ∷ [])

unfoldable pub reserve_at :
    String × String → String → ℕ → MemoryDailyQuota → Bool × MemoryDailyQuota
unfolding reserve
reserve_at key event_hash limit q =
    let r = reserve limit event_hash (accepted_at q key) in
    (r.0, record q { events = Dict.put key r.1 q.events })

-- The arguments of a call of `allow`, with the reading of its clock.
pub record Call : Type 0 where
  pub clock : Option String
  pub repository : String
  pub event_id : String
  pub limit : ℕ

module _ {Bytes : Type 0} (rt : Runtime Bytes) where
  -- the key of the repository-day, and the event's digest
  unfoldable pub request : Call → Result ((String × String) × String)
  unfolding validated_inputs utc_date digest
  request c = do
    (repository, event_id) ← validated_inputs c.repository c.event_id c.limit
    day ← utc_date c.clock
    ok ((digest rt "repository" repository, digest rt "date" day), digest rt "event" event_id)

  abbrev pub reserve_for : Result ((String × String) × String) → ℕ → Exec MemoryDailyQuota Bool
  reserve_for (ok (key, event_hash)) limit q =
      (ok (reserve_at key event_hash limit q).0, (reserve_at key event_hash limit q).1)
  reserve_for (err e) limit q = (err e, q)

  unfoldable pub allow : Call → Exec MemoryDailyQuota Bool
  unfolding reserve_at
  allow c = reserve_for (request c) c.limit
