-- ===== src/Tests/Repairs.antt =====
-- The repair of a subscription, and the maintenance timer when the repair raises.
use enterprise_multi_agent_s.Prelude.{
  String, true, Option, some, none, [], ◌∷◌, ◌≡◌, refl, ◌==◌, if◌then◌else◌,
}
use enterprise_multi_agent_s.Python.Result.{ok, service_error, external_error}
use enterprise_multi_agent_s.Python.Exec.{Exec, pure, raise}
use enterprise_multi_agent_s.Python.Json
use enterprise_multi_agent_s.Python.Json.{str, Fields, field, end}
use enterprise_multi_agent_s.Python.Dict
use enterprise_multi_agent_s.Python.Dict.{Dict, string_eq}
use enterprise_multi_agent_s.Python.Text
use enterprise_multi_agent_s.Python.Text.Chars
use enterprise_multi_agent_s.Security
use enterprise_multi_agent_s.Settings.{Settings, with_limit}
use enterprise_multi_agent_s.OnedriveSync.{DeltaCursorStore}
use enterprise_multi_agent_s.OnedriveState
use enterprise_multi_agent_s.OnedriveState.{
  OneDriveSubscriptionState, OneDriveSubscriptionStore, aware, memory_store,
}
use enterprise_multi_agent_s.OnedriveState.RoundTrip.{memory_store-ReadsBack}
use enterprise_multi_agent_s.FunctionApp.Subscription
use enterprise_multi_agent_s.FunctionApp.Subscription.{Graph, Drive, ensure_onedrive_subscription}
use enterprise_multi_agent_s.FunctionApp.Subscription.Checks
use enterprise_multi_agent_s.FunctionApp.Subscription.Checks.{Parsers}
use enterprise_multi_agent_s.FunctionApp.Subscription.Repaired.{IsRepaired, ensure-IsRepaired}
use enterprise_multi_agent_s.FunctionApp.Maintenance.{
  Outbox, maintain_onedrive_subscription, reconciliation_id,
}
use enterprise_multi_agent_s.FunctionApp.Maintenance.Reconciled.{Delivers, maintain-Delivers}
use enterprise_multi_agent_s.Tests.Samples.{sample_runtime}
use enterprise_multi_agent_s.Tests.World.{World, store, store-IsStore, start}

abbrev environment : String → Option String
environment name =
    if name == "ONEDRIVE_DRIVE_ID"
    then some "d"
    else if name == "ONEDRIVE_TENANT_ID"
    then some "t"
    else if name == "ONEDRIVE_CLIENT_STATE"
    then some "secret"
    else if name == "PUBLIC_BASE_URL"
    then some "https://app"
    else none

abbrev settings : Settings
settings = with_limit environment 100

-- Every address is that of the host `app`, and every time is far away.
abbrev parsers : Parsers
parsers = record {
  urlsplit = λ url. ok (record {
    scheme = "https";
    hostname = some "app";
    username = none;
    password = none;
    port = ok none;
    path = "";
    query = "";
    fragment = "";
  });
  fromisoformat = λ text. some (aware 9000000000000);
}

abbrev subscription : Fields
subscription = field "id" (str "s1") (
    field "resource" (str "/drives/d/root") (
      field "changeType" (str "updated") (
        field "notificationUrl" (str "https://app") (
          field "lifecycleNotificationUrl" (str "https://app")
            (field "expirationDateTime" (str "2027-01-01T00:00:00Z") end)))))

abbrev graph : {W : Type 0} → Graph W
graph = record {
  get_subscription = λ id. raise (service_error "GraphRequestError" 404);
  list_subscriptions = pure (subscription ∷ []);
  renew_subscription = λ id days. pure subscription;
  delete_subscription = λ id. pure tt;
  create_drive_subscription = λ d n c l days. pure subscription;
  list_delta = λ d link latest. pure ([], "link");
  now = pure 0;
}

abbrev cursors : {W : Type 0} → Exec W (Option String) → DeltaCursorStore W
cursors read = record {
  get = λ d. read;
  set = λ d link. pure tt;
  acquire = λ d owner n. pure true;
  renew = λ d owner n. pure true;
  commit = λ d owner link. pure true;
  release = λ d owner. pure tt;
}

abbrev drive : Drive (Dict String OneDriveSubscriptionState)
drive = record { graph = graph; cursors = cursors (pure none); states = memory_store }

reading : Unit {0}
unfolding Checks.onedrive_target Checks.normalized_https_url Checks.https_url
    Checks.subscription_matches Checks.parse_expiration Security.is_configured_secret Json.get
    Json.has Json.truthy Json.to_text Json.text_or_empty Text.strip Text.lower Chars.lstrip_char
    Chars.rstrip_char Chars.replace_char Text.after_prefix OnedriveState.new_state
    OnedriveState.to_utc Dict.get Dict.put Subscription.ensure_onedrive_subscription
    Subscription.seed Subscription.stored_subscription Subscription.select Subscription.list_items
    Subscription.list_item Subscription.latest Subscription.latest_of Subscription.keep
    Subscription.replace Subscription.save_state
reading = tt

abbrev repaired : OneDriveSubscriptionState
repaired = record {
  subscription_id = "s1";
  drive_id = "d";
  expiration = 9000000000000;
  resource = "drives/d/root";
  notification_url = "https://app//webhooks/onedrive";
}

ensure_run :
    ensure_onedrive_subscription sample_runtime.repr parsers drive settings true []
    ≡ (ok (repaired, true), ("d", repaired) ∷ [])
unfolding reading
ensure_run = refl

ensure-IsRepaired_example :
    IsRepaired sample_runtime.repr parsers drive settings repaired
      (ensure_onedrive_subscription sample_runtime.repr parsers drive settings true []).1
unfolding reading
ensure-IsRepaired_example =
    ensure-IsRepaired sample_runtime.repr parsers drive settings memory_store-ReadsBack true []
      repaired true refl

abbrev outbox : Outbox World
outbox = record {
  store = store;
  publish = λ e. pure tt;
  hour = pure "2027010100";
  received_at = pure "2027-01-01T00:00:00+00:00";
}

-- a drive whose cursors cannot be read, so that the repair raises
abbrev broken : Drive World
broken = record {
  graph = graph;
  cursors = cursors (raise (external_error "table is away"));
  states = record { get = λ d. pure none; save = λ s. pure tt };
}

maintain-Delivers_example :
    Delivers outbox store-IsStore
      ("onedrive", reconciliation_id "d" "2027010100")
      (maintain_onedrive_subscription outbox sample_runtime.repr parsers broken settings (start []))
unfolding reading
maintain-Delivers_example =
    maintain-Delivers outbox store-IsStore sample_runtime.repr parsers broken settings none
      "2027010100" "2027-01-01T00:00:00+00:00" (start [])
      (record {
        hour_lem = λ w. refl;
        received_at_lem = λ w. refl;
        publish_lem = λ e w. refl;
        view-publish = λ e w k. refl;
      })
      refl refl (λ w k. refl) (λ w k. refl) refl
