-- ===== src/OnedriveSync/Processor.antt =====
-- `OneDriveDeltaProcessor`. The lease owner that process() draws with uuid4 is an argument.
pub mod Checkpoint
use enterprise_multi_agent_s.Prelude.{
  ℕ, String, Bool, true, false, not, ◌||◌, Option, none, some, List, [], ◌∷◌, ◌++◌, ◌==◌,
  if◌then◌else◌, ℤ, pos, map, length,
}
use enterprise_multi_agent_s.Python.Result.{
  Exn, Result, ok, err, value_error, runtime_error, delta_token_expired, raise_if,
}
use enterprise_multi_agent_s.Python.Exec.{Exec, pure, raise, lift, catch, ◌>>=◌, ◌>>◌}
use enterprise_multi_agent_s.Python.Dict
use enterprise_multi_agent_s.Python.Dict.{Dict, string_eq}
use enterprise_multi_agent_s.Python.Json.{
  Json, bool, int, str, arr, obj, Items, nil, item, Fields, end, field, get, truthy, to_text,
  text_or_empty,
}
use enterprise_multi_agent_s.Runtime.{Runtime}
use enterprise_multi_agent_s.Events.{EventEnvelope}
use enterprise_multi_agent_s.OnedriveSync.{DeltaCursorStore, default_lease_seconds}
use enterprise_multi_agent_s.OnedriveSync.DriveItem.{safe_fields}

-- The calls of `GraphClient` that the processor makes: the changes with the next link, and the
-- response to a renewal.
pub record GraphClient (W : Type 0) : Type 0 where
  pub list_delta : String → Option String → Exec W (List Fields × String)
  pub renew_subscription : String → ℕ → Exec W Fields

abbrev pub items_of : List Fields → Items
items_of [] = nil
items_of (c ∷ cs) = item (obj c) (items_of cs)

abbrev pub values : Dict String Fields → List Fields
values = map (λ (e : String × Fields). e.1)

abbrev pub checkpoint_of : String → String → String → Fields
checkpoint_of drive_id new_cursor owner =
    field "drive_id" (str drive_id)
      (field "delta_link" (str new_cursor) (field "lease_owner" (str owner) end))

abbrev pub output_of : String → List Fields → String → String → Fields
output_of drive_id collapsed new_cursor owner = field "drive_id" (str drive_id) (
    field "changes" (arr (items_of collapsed)) (
      field "change_count" (int (pos (length collapsed))) (
        field "delta_cursor_advanced" (bool false)
          (field "_checkpoint" (obj (checkpoint_of drive_id new_cursor owner)) end))))

module _ {Bytes : Type 0} (rt : Runtime Bytes) where
  -- `item_id = change.get("id")`, as the text of it when it is true
  abbrev pub id_of : Fields → Option String
  id_of change = if truthy (get change "id") then some (to_text rt.repr (get change "id")) else none

  -- one turn of the loop over the changes
  abbrev pub sorted_in :
      Option String → Fields → Dict String Fields × List Fields → Dict String Fields × List Fields
  sorted_in (some item_id) change (by_id, without_id) = (Dict.put item_id change by_id, without_id)
  sorted_in none change (by_id, without_id) = (by_id, without_id ++ change ∷ [])

  unfoldable pub sort_changes :
      List Fields → Dict String Fields × List Fields → Dict String Fields × List Fields
  sort_changes [] found = found
  sort_changes (raw_change ∷ changes) found =
      let change = safe_fields raw_change in
      sort_changes changes (sorted_in (id_of change) change found)

  unfoldable pub collapse : List Fields → List Fields
  unfolding sort_changes
  collapse changes = let found = sort_changes changes ([], []) in values found.0 ++ found.1

  module _ {W : Type 0} (drive_id : String) (graph : GraphClient W)
      (cursors : DeltaCursorStore W) where
    -- the `except DeltaTokenExpired` branch; any other exception goes on
    abbrev pub recover : Exn → Exec W (List Fields × String)
    recover (delta_token_expired recovery_url) = graph.list_delta drive_id recovery_url
    recover e = raise e

    unfoldable pub finish : String → List Fields × String → Exec W Fields
    unfolding collapse
    finish owner (changes, new_cursor) = do
      renewed ← cursors.renew drive_id owner default_lease_seconds
      if renewed
          then pure (output_of drive_id (collapse changes) new_cursor owner)
          else raise (runtime_error "OneDrive delta lease was lost")

    unfoldable pub synchronize : String → Exec W Fields
    unfolding finish
    synchronize owner = do
      previous_cursor ← cursors.get drive_id
      delta ← catch (graph.list_delta drive_id previous_cursor) recover
      finish owner delta

    -- `except Exception: release; raise`
    unfoldable pub release_and_raise : String → Exn → Exec W Fields
    release_and_raise owner e = do cursors.release drive_id owner; raise e

    unfoldable pub process_update : String → Exec W Fields
    unfolding synchronize release_and_raise
    process_update owner = do
      granted ← cursors.acquire drive_id owner default_lease_seconds
      if granted
          then catch (synchronize owner) (release_and_raise owner)
          else raise (runtime_error "OneDrive sync is already in progress")

    unfoldable pub renew_for : String → Exec W Fields
    renew_for subscription_id =
        if subscription_id == ""
        then raise (value_error "OneDrive lifecycle event omitted subscriptionId")
        else do
          response ← graph.renew_subscription subscription_id 28
          pure (
              field "lifecycle_event" (str "reauthorizationRequired") (
                field "subscription_id" (str subscription_id)
                  (field "renewed" (bool (truthy (obj response))) end)))

    unfoldable pub process : String → EventEnvelope → Exec W Fields
    unfolding process_update renew_for
    process owner event =
        if event.type == "drive.lifecycle.reauthorizationRequired"
        then renew_for (text_or_empty rt.repr (get event.event_data "subscriptionId"))
        else if not (event.type == "drive.updated")
        then pure
            (field "ignored" (bool true) (field "reason" (str "unsupported_onedrive_event") end))
        else process_update owner

    unfoldable pub commit_checkpoint : String → String → String → Exec W (Unit {0})
    commit_checkpoint drive delta_link owner =
        if not (drive == drive_id) || delta_link == "" || owner == ""
        then raise (value_error "Invalid OneDrive delta checkpoint")
        else do
          committed ← cursors.commit drive_id delta_link owner
          lift (
              raise_if (not committed)
                (runtime_error "OneDrive delta lease was lost before cursor commit"))

    unfoldable pub acknowledge : Fields → Exec W (Unit {0})
    unfolding commit_checkpoint
    acknowledge checkpoint =
        commit_checkpoint (text_or_empty rt.repr (get checkpoint "drive_id"))
          (text_or_empty rt.repr (get checkpoint "delta_link"))
          (text_or_empty rt.repr (get checkpoint "lease_owner"))

    unfoldable pub abandon : Fields → Exec W (Unit {0})
    abandon checkpoint =
        let owner = text_or_empty rt.repr (get checkpoint "lease_owner") in
        if owner == "" then pure tt else cursors.release drive_id owner
