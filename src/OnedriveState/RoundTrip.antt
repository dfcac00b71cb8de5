-- ===== src/OnedriveState/RoundTrip.antt =====
-- What the subscription stores answer behind a save.
use enterprise_multi_agent_s.Prelude.{
  ℕ, String, Option, some, ◌≡◌, refl, sym, ap, subst, ◌∙◌, eq_refl,
}
use enterprise_multi_agent_s.Python.Result.{then_ok, ok, ok-injective}
use enterprise_multi_agent_s.Python.Exec.{bind-ok}
use enterprise_multi_agent_s.Python.Json.{to_text}
use enterprise_multi_agent_s.Python.Dict
use enterprise_multi_agent_s.Python.Dict.{string_eq}
use enterprise_multi_agent_s.Runtime.{Runtime}
use enterprise_multi_agent_s.OnedriveState.{
  Datetime, aware, to_utc, OneDriveSubscriptionState, new_state, require_field,
  OneDriveSubscriptionStore, memory_store,
}
use enterprise_multi_agent_s.OnedriveState.AzureTable.{
  Entity, TableClient, get, save, state_of, parse_expiration, entity_of, row_key, table_store,
}

-- a state that its constructor made
abbrev pub IsValid : OneDriveSubscriptionState → Type 0
IsValid s =
    new_state s.subscription_id s.drive_id (aware s.expiration) s.resource s.notification_url ≡ ok s

-- what a constructor that returned made
pub new_state_lem :
    (subscription_id drive_id resource notification_url : String) (expiration : ℕ)
    (s : OneDriveSubscriptionState)
    → new_state subscription_id drive_id (aware expiration) resource notification_url ≡ ok s
    → (s.drive_id ≡ drive_id) × ((s.resource ≡ resource) × IsValid s)
unfolding new_state
new_state_lem a b c d t s h =
    subst (λ (s : OneDriveSubscriptionState). (s.drive_id ≡ b) × ((s.resource ≡ c) × IsValid s))
      made (refl, (refl, h ∙ sym (ap (λ s. ok s) made)))
  where
    made :
        record {
          subscription_id = a;
          drive_id = b;
          expiration = t;
          resource = c;
          notification_url = d;
        }
        ≡ s
    made = ok-injective (
        then_ok (require_field "notification_url" d) _ s (
          then_ok (require_field "resource" c) _ s (
            then_ok (require_field "drive_id" b) _ s
              (then_ok (require_field "subscription_id" a) _ s h))))

-- a save that returned is read back at once
abbrev pub ReadsBack : {W : Type 0} → OneDriveSubscriptionStore W → Type 0
ReadsBack {W} store =
    (s : OneDriveSubscriptionState) (w : W)
    → IsValid s
    → (store.save s w).0 ≡ ok tt
    → (store.get s.drive_id (store.save s w).1).0 ≡ ok (some s)

pub memory_store-ReadsBack : ReadsBack memory_store
memory_store-ReadsBack s w valid saved =
    ap (λ o. ok o) (Dict.get-put s.drive_id s.drive_id s w ∙ rw (eq_refl s.drive_id) refl)

-- a table that answers the entity that was written last under a key
abbrev pub KeepsRows : {W : Type 0} → TableClient W → Type 0
KeepsRows {W} table =
    (key : String) (entity : Entity) (w : W)
    → (table.upsert_entity key entity w).0 ≡ ok tt
    → (table.get_entity key (table.upsert_entity key entity w).1).0 ≡ ok entity

module _ {Bytes W : Type 0} (rt : Runtime Bytes) (fromisoformat : String → Option Datetime)
    (table : TableClient W) (keeps : KeepsRows table) where
  pub table_store-ReadsBack : ReadsBack (table_store rt fromisoformat table)
  unfolding get save state_of parse_expiration to_utc to_text
  table_store-ReadsBack s w valid saved =
      let (now, _, step) =
        bind-ok table.now
          (λ now.
            table.upsert_entity (row_key rt fromisoformat table s.drive_id)
              (entity_of rt fromisoformat table s now))
          w tt saved in
      rw step (
        rw
          (keeps (row_key rt fromisoformat table s.drive_id)
            (entity_of rt fromisoformat table s now) (table.now w).1
            (sym (ap (λ r. r.0) step) ∙ saved))
          (rw valid refl))
