-- ===== src/Quota/AzureTable.antt =====
-- `AzureTableDailyQuota`. The table is a client of the service, acting on a world `W`.
pub mod Concurrent
use enterprise_multi_agent_s.Prelude.{
  ℕ, zero, suc, ◌+◌, String, Bool, true, false, ◌&&◌, ◌||◌, Option, none, some, List, [], ◌∷◌, ◌==◌,
  eqb, leb, ltb, is_some, if◌then◌else◌,
}
use enterprise_multi_agent_s.Python.Result
use enterprise_multi_agent_s.Python.Result.{
  Exn, Result, ok, err, value_error, runtime_error, service_error,
}
use enterprise_multi_agent_s.Python.Exec.{Exec, pure, raise, lift, catch, handle, ◌>>=◌, ◌>>◌}
use enterprise_multi_agent_s.Runtime.{Runtime}
use enterprise_multi_agent_s.Quota.{validated_inputs, utc_date, partition_key, event_row_key}

-- An entity as the client returns it; the ETag stands in one of three places.
pub record Entity : Type 0 where
  pub utc_date : String
  pub count : Option ℕ
  pub metadata_etag : Option String
  pub etag : Option String
  pub odata_etag : Option String

-- One operation of a transaction, on a row of the partition. An update has the ETag that it must
-- find.
pub data Operation : Type 0 where
  create : String → Entity → Operation
  update : String → Entity → String → Operation

pub record TableClient (W : Type 0) : Type 0 where
  pub get_entity : String → String → Exec W Entity
  pub submit_transaction : String → List Operation → Exec W (Unit {0})

-- "" and None count as missing
abbrev pub first_text : Option String → Option String → Option String
first_text (some s) other = if s == "" then other else some s
first_text none other = other

unfoldable pub etag_of : Entity → Result String
etag_of entity =
    elim (first_text entity.metadata_etag
      (first_text entity.etag (first_text entity.odata_etag none))) [
        | none ↦ err (runtime_error "Quota counter entity is missing its ETag")
        | some etag ↦ ok etag
      ]

unfoldable pub is_retryable_conflict : Exn → Bool
is_retryable_conflict (service_error name status) =
    name == "ResourceExistsError"
    || name == "ResourceModifiedError"
    || name == "TableTransactionError" && (eqb status 409 || eqb status 412)
is_retryable_conflict _ = false

-- int(counter.get("Count") or 0)
abbrev pub count_of : Entity → ℕ
count_of entity = elim entity.count [ none ↦ 0 | some n ↦ n ]

abbrev pub is_not_found : Exn → Bool
is_not_found (service_error name status) = name == "ResourceNotFoundError"
is_not_found _ = false

-- the `except ResourceNotFoundError` of `_get_entity`
abbrev pub found_or_none : Result Entity → Result (Option Entity)
found_or_none (ok entity) = ok (some entity)
found_or_none (err e) = if is_not_found e then ok none else err e

abbrev pub plain_entity : String → Option ℕ → Entity
plain_entity day count = record {
  utc_date = day;
  count = count;
  metadata_etag = none;
  etag = none;
  odata_etag = none;
}

module _ {W : Type 0} (table : TableClient W) where
  unfoldable pub get_entity : String → String → Exec W (Option Entity)
  get_entity partition_key row_key w = (
    found_or_none (table.get_entity partition_key row_key w).0,
    (table.get_entity partition_key row_key w).1,
  )

  module _ (day partition_key event_row : String) (limit : ℕ) where
    -- the operations for the counter that was read
    unfoldable pub creations : List Operation
    creations =
        create "quota" (plain_entity day (some 1)) ∷ create event_row (plain_entity day none) ∷ []

    unfoldable pub updates : Entity → String → List Operation
    updates counter etag =
        update "quota" (record counter { count = some (count_of counter + 1) }) etag
        ∷ create event_row (plain_entity day none)
        ∷ []

    -- The transaction: it returns True, a conflict goes on with `rest`, and any other exception is
    -- raised again.
    unfoldable pub submit : List Operation → Exec W Bool → Exec W Bool
    submit operations rest =
        catch (do table.submit_transaction partition_key operations; pure true)
          λ e. if is_retryable_conflict e then rest else raise e

    unfoldable pub reserve_with : Option Entity → Exec W Bool → Exec W Bool
    unfolding submit
    reserve_with none rest = submit creations rest
    reserve_with (some counter) rest =
        if leb limit (count_of counter)
        then pure false
        else do etag ← lift (etag_of counter); submit (updates counter etag) rest

    unfoldable pub attempt : Exec W Bool → Exec W Bool
    unfolding reserve_with
    attempt rest = do
      event ← get_entity partition_key event_row
      if is_some event
          then pure true
          else (do counter ← get_entity partition_key "quota"; reserve_with counter rest)

    -- `for _ in range(self._max_retries)`
    unfoldable pub attempts : ℕ → Exec W Bool
    attempts zero = raise (runtime_error "Could not reserve daily quota after concurrent updates")
    attempts (suc n) = attempt (attempts n)

  unfoldable pub allow :
      {Bytes : Type 0} → Runtime Bytes → ℕ → Option String → String → String → ℕ → Exec W Bool
  unfolding attempts
  allow rt max_retries clock repository event_id limit = do
    inputs ← lift (validated_inputs repository event_id limit)
    day ← lift (utc_date clock)
    attempts day (partition_key rt inputs.0 day) (event_row_key rt inputs.1) limit max_retries

-- the constructor's check
unfoldable pub check_max_retries : ℕ → Result ℕ
check_max_retries n = if ltb n 1 then err (value_error "max_retries must be positive") else ok n
