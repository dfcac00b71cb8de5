-- ===== src/OnedriveSync/AzureTable.antt =====
-- `AzureTableDeltaCursorStore`. The table is a client of the service, acting on a world `W`; a row is
-- named by the digest of the drive's id. `UpdatedAt` is left out, and the clock's reading is an argument.
pub mod Fencing
use enterprise_multi_agent_s.Prelude.{
  ℕ, String, Bool, true, false, not, ◌&&◌, ◌||◌, Option, none, some, ◌==◌, ltb, if◌then◌else◌,
}
use enterprise_multi_agent_s.Python.Result.{Exn, Result, ok, err, service_error}
use enterprise_multi_agent_s.Python.Exec.{Exec, pure, raise, catch, ◌>>=◌, ◌>>◌}
use enterprise_multi_agent_s.Runtime.{Runtime}
use enterprise_multi_agent_s.OnedriveSync.{lease_until}

-- An entity, with the ETag of the read that returned it. A property that is not there is none.
pub record Entity : Type 0 where
  pub drive_id : String
  pub delta_link : Option String
  pub lease_owner : Option String
  pub lease_until : Option ℕ
  pub committed_lease_owner : Option String
  pub etag : String

-- Reads, creations, merges without a condition, and merges on an ETag, of a row.
pub record TableClient (W : Type 0) : Type 0 where
  pub get_entity : String → Exec W Entity
  pub create_entity : String → Entity → Exec W (Unit {0})
  pub upsert_entity : String → Entity → Exec W (Unit {0})
  pub update_entity : String → Entity → Exec W (Unit {0})

abbrev pub has_name : String → Exn → Bool
has_name expected (service_error name status) = name == expected
has_name expected _ = false

abbrev pub found_or_none : Result Entity → Result (Option Entity)
found_or_none (ok entity) = ok (some entity)
found_or_none (err e) = if has_name "ResourceNotFoundError" e then ok none else err e

-- str(entity.get(key) or "")
abbrev pub text : Option String → String
text none = ""
text (some s) = s

-- `value if value else None`
abbrev pub true_text : Option String → Option String
true_text none = none
true_text (some s) = if s == "" then none else some s

-- `current_until and current_until > now`
abbrev pub is_running : Option ℕ → ℕ → Bool
is_running none now = false
is_running (some until) now = ltb now until

abbrev pub link_of : Option Entity → Option String
link_of none = none
link_of (some entity) = true_text entity.delta_link

module _ {Bytes W : Type 0} (rt : Runtime Bytes) (table : TableClient W) (drive_id : String) where
  abbrev pub row_key : String
  row_key = rt.sha256 (rt.encode drive_id)

  unfoldable pub get_entity : Exec W (Option Entity)
  get_entity w = (found_or_none (table.get_entity row_key w).0, (table.get_entity row_key w).1)

  unfoldable pub get : Exec W (Option String)
  unfolding get_entity
  get = do entity ← get_entity; pure (link_of entity)

  unfoldable pub set : String → Exec W (Unit {0})
  set delta_link = table.upsert_entity row_key (record {
    drive_id = drive_id;
    delta_link = some delta_link;
    lease_owner = none;
    lease_until = none;
    committed_lease_owner = some "";
    etag = "";
  })

  -- True, or False on the exception with this name; any other exception goes on.
  unfoldable pub unless : String → Exec W (Unit {0}) → Exec W Bool
  unless name call = catch (do call; pure true) λ e. if has_name name e then pure false else raise e

  -- the update on the ETag of the read
  unfoldable pub update : Entity → Exec W Bool
  unfolding unless
  update entity = unless "ResourceModifiedError" (table.update_entity row_key entity)

  unfoldable pub acquire_of : String → ℕ → ℕ → Option Entity → Exec W Bool
  unfolding update
  acquire_of owner lease_seconds now none = unless "ResourceExistsError" (
      table.create_entity row_key (record {
        drive_id = drive_id;
        delta_link = none;
        lease_owner = some owner;
        lease_until = some (lease_until now lease_seconds);
        committed_lease_owner = some "";
        etag = "";
      }))
  acquire_of owner lease_seconds now (some entity) =
      if is_running entity.lease_until now && not (text entity.lease_owner == owner)
      then pure false
      else update (record entity {
        lease_owner = some owner;
        lease_until = some (lease_until now lease_seconds);
        committed_lease_owner = some "";
      })

  unfoldable pub acquire : String → ℕ → ℕ → Exec W Bool
  unfolding get_entity acquire_of
  acquire owner lease_seconds now = do
    entity ← get_entity
    acquire_of owner lease_seconds now entity

  unfoldable pub renew_of : String → ℕ → ℕ → Option Entity → Exec W Bool
  unfolding update
  renew_of owner lease_seconds now none = pure false
  renew_of owner lease_seconds now (some entity) =
      if not (text entity.lease_owner == owner)
      then pure false
      else update (record entity { lease_until = some (lease_until now lease_seconds) })

  unfoldable pub renew : String → ℕ → ℕ → Exec W Bool
  unfolding get_entity renew_of
  renew owner lease_seconds now = do entity ← get_entity; renew_of owner lease_seconds now entity

  unfoldable pub commit_of : String → String → ℕ → Option Entity → Exec W Bool
  unfolding update
  commit_of delta_link owner now none = pure false
  commit_of delta_link owner now (some entity) =
      if text entity.delta_link == delta_link && text entity.committed_lease_owner == owner
      then pure true
      else if not (text entity.lease_owner == owner)
      then pure false
      else update (record entity {
        delta_link = some delta_link;
        lease_owner = some "";
        lease_until = some now;
        committed_lease_owner = some owner;
      })

  unfoldable pub commit : String → String → ℕ → Exec W Bool
  unfolding get_entity commit_of
  commit delta_link owner now = do entity ← get_entity; commit_of delta_link owner now entity

  unfoldable pub release_of : String → ℕ → Option Entity → Exec W (Unit {0})
  unfolding update
  release_of owner now none = pure tt
  release_of owner now (some entity) =
      if not (text entity.lease_owner == owner)
      then pure tt
      else do update (record entity { lease_owner = some ""; lease_until = some now }); pure tt

  unfoldable pub release : String → ℕ → Exec W (Unit {0})
  unfolding get_entity release_of
  release owner now = do entity ← get_entity; release_of owner now entity
