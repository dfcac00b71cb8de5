-- ===== src/FunctionApp/Subscription.antt =====
-- function_app.py: the repair of the OneDrive subscription, `_ensure_onedrive_subscription`, with its
-- helpers. What get_settings() and build_onedrive_cursor_store() and its like return are the fields of
-- `Drive`.
pub mod Checks
pub mod Repaired
use Prim.Native.String.{◌++◌ as append}
use enterprise_multi_agent_s.Prelude.{
  ℕ, ◌+◌, ◌*◌, String, Bool, true, false, not, ◌&&◌, ◌||◌, Option, none, some, List, [], ◌∷◌, ◌++◌,
  ◌==◌, leb, ltb, eqb, if◌then◌else◌,
}
use enterprise_multi_agent_s.Python.Result.{
  Exn, Result, ok, err, webhook_error, runtime_error, service_error, raise_if,
}
use enterprise_multi_agent_s.Python.Exec.{Exec, pure, raise, lift, catch, ◌>>=◌, ◌>>◌}
use enterprise_multi_agent_s.Python.Json.{Json, Fields, get, truthy, to_text, text_or_empty, before}
use enterprise_multi_agent_s.Python.Set.{contains}
use enterprise_multi_agent_s.Python.Text.{lower, strip, decimal}
use enterprise_multi_agent_s.Python.Text.Chars.{lstrip_char, rstrip_char, replace_char}
use enterprise_multi_agent_s.Settings.{Settings, is_empty}
use enterprise_multi_agent_s.OnedriveSync.{DeltaCursorStore}
use enterprise_multi_agent_s.Security.{is_configured_secret}
use enterprise_multi_agent_s.FunctionApp.Subscription.Checks.{
  Parsers, Target, onedrive_target, parse_expiration, subscription_matches, resource_of, id_of,
}
use enterprise_multi_agent_s.OnedriveState.{
  Datetime, aware, to_utc, OneDriveSubscriptionState, new_state, OneDriveSubscriptionStore,
}

-- The calls on GraphClient; `now` is datetime.now(timezone.utc).
pub record Graph (W : Type 0) : Type 0 where
  pub get_subscription : String → Exec W Fields
  pub list_subscriptions : Exec W (List Fields)
  pub renew_subscription : String → ℕ → Exec W Fields
  pub delete_subscription : String → Exec W (Unit {0})
  pub create_drive_subscription : String → String → String → Option String → ℕ → Exec W Fields
  pub list_delta : String → Option String → Bool → Exec W (List Fields × String)
  pub now : Exec W ℕ

pub record Drive (W : Type 0) : Type 0 where
  pub graph : Graph W
  pub cursors : DeltaCursorStore W
  pub states : OneDriveSubscriptionStore W

-- `except GraphRequestError as exc: if exc.status not in {404, 410}: raise`
abbrev pub is_gone : Exn → Bool
is_gone (service_error name status) =
    name == "GraphRequestError" && (eqb status 404 || eqb status 410)
is_gone _ = false

abbrev pub microseconds_per_day : ℕ
microseconds_per_day = 86400000000

-- a set of texts with one more
abbrev pub add : String → List String → List String
add x s = if contains s x then s else x ∷ s

unfoldable pub insert : String → List String → List String
insert x [] = x ∷ []
insert x (y ∷ s) = let rest = insert x s in if before x y then x ∷ y ∷ s else y ∷ rest

-- sorted(s)
unfoldable pub sorted : List String → List String
unfolding insert
sorted [] = []
sorted (x ∷ s) = insert x (sorted s)

-- `selected` and `stale_ids`
pub record Found : Type 0 where
  pub selected : Option Fields
  pub stale_ids : List String

-- `matches` and `stale_ids`
pub record Listed : Type 0 where
  pub matches : List Fields
  pub stale_ids : List String

-- A subscription that is kept, with its id, its end and the flag `reused`, or none.
pub data Kept : Type 0 where
  kept : String → ℕ → Kept
  lost : Kept

-- `if not subscription_id: raise`
abbrev pub require_id : {W : Type 0} → String → Exec W (Unit {0})
require_id subscription_id =
    lift (raise_if (subscription_id == "") (runtime_error "Graph subscription omitted id"))

module _ {W : Type 0} (repr : Json → String) (parsers : Parsers) (drive : Drive W) where
  abbrev pub seed_with : Target → Option String → Exec W (Unit {0})
  seed_with target (some link) = pure tt
  seed_with target none = do
    page ← drive.graph.list_delta target.drive_id none true
    drive.cursors.set target.drive_id page.1

  -- `if seed_delta and cursors.get(drive_id) is None:`
  unfoldable pub seed : Bool → Target → Exec W (Unit {0})
  seed false target = pure tt
  seed true target = do link ← drive.cursors.get target.drive_id; seed_with target link

  abbrev pub judged : Target → OneDriveSubscriptionState → Fields → Bool → Found
  judged target stored candidate true = record { selected = some candidate; stale_ids = [] }
  judged target stored candidate false =
      if resource_of repr parsers candidate == target.resource
      then record {
        selected = none;
        stale_ids =
            (if truthy (get candidate "id")
              then to_text repr (get candidate "id")
              else stored.subscription_id)
            ∷ [];
      }
      else record { selected = none; stale_ids = [] }

  -- the subscription that the store knows
  unfoldable pub stored_subscription : Target → Option OneDriveSubscriptionState → Exec W Found
  stored_subscription target none = pure (record { selected = none; stale_ids = [] })
  stored_subscription target (some stored) =
      catch
        (do
          candidate ← drive.graph.get_subscription stored.subscription_id
          matches ←
              lift (
                subscription_matches repr parsers candidate target.resource target.notification_url)
          pure (judged target stored candidate matches))
        λ e. if is_gone e then pure (record { selected = none; stale_ids = [] }) else raise e

  -- one turn of the loop over the subscriptions, with those before it
  abbrev pub with_item : Fields → Bool → Listed → Exec W Listed
  with_item fs true found = pure (record found { matches = found.matches ++ (fs ∷ []) })
  with_item fs false found =
      if id_of repr parsers fs == ""
      then raise (runtime_error "Mismatched Graph subscription omitted id")
      else pure (record found { stale_ids = add (id_of repr parsers fs) found.stale_ids })

  unfoldable pub list_item : Target → Listed → Fields → Exec W Listed
  list_item target found fs =
      if not (resource_of repr parsers fs == target.resource) then pure found else do
        matches ←
            lift (subscription_matches repr parsers fs target.resource target.notification_url)
        with_item fs matches found

  unfoldable pub list_items : Target → Listed → List Fields → Exec W Listed
  unfolding list_item
  list_items target found [] = pure found
  list_items target found (fs ∷ items) = do
    next ← list_item target found fs
    list_items target next items

  -- the rest of max(…, key=…), with the first of the latest so far
  abbrev pub expiration_of : Fields → Result ℕ
  expiration_of fs = parse_expiration repr parsers (get fs "expirationDateTime")

  unfoldable pub latest_of : Fields → ℕ → List Fields → Exec W Fields
  latest_of best key [] = pure best
  latest_of best key (fs ∷ items) = do
    time ← lift (expiration_of fs)
    latest_of (if ltb key time then fs else best) (if ltb key time then time else key) items

  unfoldable pub latest : List Fields → Exec W (Option Fields)
  unfolding latest_of
  latest [] = pure none
  latest (fs ∷ items) = do
    time ← lift (expiration_of fs)
    best ← latest_of fs time items
    pure (some best)

  -- `if selected is None:` look through the subscriptions
  unfoldable pub select : Target → List String → Option Fields → Exec W Found
  unfolding list_items latest
  select target stale_ids (some candidate) =
      pure (record { selected = some candidate; stale_ids = stale_ids })
  select target stale_ids none = do
    items ← drive.graph.list_subscriptions
    listed ← list_items target (record { matches = []; stale_ids = stale_ids }) items
    selected ← latest listed.matches
    pure (record { selected = selected; stale_ids = listed.stale_ids })

  abbrev pub renewed : String → Exec W Kept
  renewed subscription_id =
      catch
        (do
          fs ← drive.graph.renew_subscription subscription_id 28
          expiration ← lift (expiration_of fs)
          pure (kept subscription_id expiration))
        λ e. if is_gone e then pure lost else raise e

  abbrev pub keep_or_renew : Fields → Exec W Kept
  keep_or_renew fs = do
    expiration ← lift (expiration_of fs)
    now ← drive.graph.now
    if leb expiration (now + 7 * microseconds_per_day)
        then renewed (id_of repr parsers fs)
        else pure (kept (id_of repr parsers fs) expiration)

  -- `if selected is not None:`
  unfoldable pub keep : Option Fields → Exec W Kept
  keep none = pure lost
  keep (some fs) = do require_id (id_of repr parsers fs); keep_or_renew fs

  unfoldable pub delete_each : List String → Exec W (Unit {0})
  delete_each [] = pure tt
  delete_each (stale_id ∷ ids) = do
    catch (drive.graph.delete_subscription stale_id) λ e. if is_gone e then pure tt else raise e
    delete_each ids

  -- `if selected is None:` make a new one; answers its id, its end and `reused`
  unfoldable pub replace : Settings → Target → List String → Kept → Exec W (String × ℕ × Bool)
  unfolding delete_each sorted
  replace settings target stale_ids (kept subscription_id expiration) =
      pure (subscription_id, expiration, true)
  replace settings target stale_ids lost = do
    delete_each (sorted stale_ids)
    fs ←
        drive.graph.create_drive_subscription target.drive_id target.notification_url
          settings.onedrive_client_state (some target.notification_url) 28
    require_id (id_of repr parsers fs)
    expiration ← lift (expiration_of fs)
    pure (id_of repr parsers fs, expiration, false)

  unfoldable pub save_state : Target → String × ℕ × Bool → Exec W (OneDriveSubscriptionState × Bool)
  save_state target (subscription_id, expiration, reused) = do
    state ← lift (
        new_state subscription_id target.drive_id (aware expiration) target.resource
          target.notification_url)
    drive.states.save state
    pure (state, reused)

  unfoldable pub ensure_onedrive_subscription :
      Settings → Bool → Exec W (OneDriveSubscriptionState × Bool)
  unfolding seed stored_subscription select keep replace save_state
  ensure_onedrive_subscription settings seed_delta = do
    target ← lift (onedrive_target repr parsers settings)
    seed seed_delta target
    stored ← drive.states.get target.drive_id
    known ← stored_subscription target stored
    found ← select target known.stale_ids known.selected
    subscription ← keep found.selected
    chosen ← replace settings target found.stale_ids subscription
    save_state target chosen
