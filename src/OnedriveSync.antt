-- ===== src/OnedriveSync.antt =====
-- src/webhook_gateway/onedrive_sync.py: the delta cursors and leases of OneDrive drives. Here are the
-- store's methods and `MemoryDeltaCursorStore`; `Lease` and `MemoryStore` have the theorems on it,
-- `AzureTable` is AzureTableDeltaCursorStore, `DriveItem` is _safe_drive_item, and `Processor` is
-- OneDriveDeltaProcessor. Times are microseconds since the epoch, and the reading of the clock is an
-- argument.
pub mod Lease
pub mod DriveItem
pub mod Processor
pub mod MemoryStore
pub mod AzureTable
use enterprise_multi_agent_s.Prelude.{
  ℕ, ◌+◌, ◌*◌, String, Bool, true, false, not, ◌&&◌, Option, none, some, ◌==◌, ltb, if◌then◌else◌,
}
use enterprise_multi_agent_s.Python.Exec.{Exec}
use enterprise_multi_agent_s.Python.Dict
use enterprise_multi_agent_s.Python.Dict.{Dict, string_eq}

-- The protocol, over a world that holds the store and its clock.
pub record DeltaCursorStore (W : Type 0) : Type 0 where
  pub get : String → Exec W (Option String)
  pub set : String → String → Exec W (Unit {0})
  pub acquire : String → String → ℕ → Exec W Bool
  pub renew : String → String → ℕ → Exec W Bool
  pub commit : String → String → String → Exec W Bool
  pub release : String → String → Exec W (Unit {0})

pub record MemoryDeltaCursorStore : Type 0 where
  pub values : Dict String String
  pub leases : Dict String (String × ℕ)
  pub committed_owners : Dict String String

abbrev pub default_lease_seconds : ℕ
default_lease_seconds = 720

abbrev pub lease_until : ℕ → ℕ → ℕ
lease_until now lease_seconds = now + 1000000 * lease_seconds

-- `existing and existing[1] > now and existing[0] != owner`
abbrev pub held_by_other : Option (String × ℕ) → ℕ → String → Bool
held_by_other none now owner = false
held_by_other (some (holder, until)) now owner = ltb now until && not (holder == owner)

-- `existing and existing[0] == owner`
abbrev pub held_by : Option (String × ℕ) → String → Bool
held_by none owner = false
held_by (some (holder, until)) owner = holder == owner

-- d.get(k) == v
abbrev pub equals : Option String → String → Bool
equals none v = false
equals (some w) v = w == v

module _ (drive_id : String) where
  unfoldable pub get : MemoryDeltaCursorStore → Option String
  get s = Dict.get drive_id s.values

  unfoldable pub set : String → MemoryDeltaCursorStore → MemoryDeltaCursorStore
  set delta_link s = record s {
    values = Dict.put drive_id delta_link s.values;
    committed_owners = Dict.remove drive_id s.committed_owners;
  }

  unfoldable pub acquire : String → ℕ → ℕ → MemoryDeltaCursorStore → Bool × MemoryDeltaCursorStore
  acquire owner lease_seconds now s =
      if held_by_other (Dict.get drive_id s.leases) now owner then (false, s) else (
        true,
        record s {
          leases = Dict.put drive_id (owner, lease_until now lease_seconds) s.leases;
          committed_owners = Dict.remove drive_id s.committed_owners;
        },
      )

  unfoldable pub renew : String → ℕ → ℕ → MemoryDeltaCursorStore → Bool × MemoryDeltaCursorStore
  renew owner lease_seconds now s =
      if not (held_by (Dict.get drive_id s.leases) owner) then (false, s) else (
        true,
        record s { leases = Dict.put drive_id (owner, lease_until now lease_seconds) s.leases },
      )

  unfoldable pub commit : String → String → MemoryDeltaCursorStore → Bool × MemoryDeltaCursorStore
  commit delta_link owner s =
      if equals (Dict.get drive_id s.values) delta_link
        && equals (Dict.get drive_id s.committed_owners) owner
      then (true, s)
      else if not (held_by (Dict.get drive_id s.leases) owner)
      then (false, s)
      else (
        true,
        record s {
          values = Dict.put drive_id delta_link s.values;
          committed_owners = Dict.put drive_id owner s.committed_owners;
          leases = Dict.remove drive_id s.leases;
        },
      )

  unfoldable pub release : String → MemoryDeltaCursorStore → MemoryDeltaCursorStore
  release owner s =
      if held_by (Dict.get drive_id s.leases) owner
      then record s { leases = Dict.remove drive_id s.leases }
      else s
