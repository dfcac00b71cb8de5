-- ===== src/Tests/Tables.antt =====
-- A table of staged events.
use enterprise_multi_agent_s.Prelude.{
  subst, ◌≡◌, refl, false, true, Option, some, none, [], ◌==◌, eq_refl, ap, sym, ◌∙◌,
}
use enterprise_multi_agent_s.Python.Result.{ok-injective, ok, err, service_error}
use enterprise_multi_agent_s.Python.Exec.{Exec, pure}
use enterprise_multi_agent_s.Python.Json.{Json, str}
use enterprise_multi_agent_s.Python.Dict
use enterprise_multi_agent_s.Python.Dict.{Dict, pair_eq, beq_refl}
use enterprise_multi_agent_s.Python.Json
use enterprise_multi_agent_s.Runtime.{Runtime, IsRuntime}
use enterprise_multi_agent_s.Events
use enterprise_multi_agent_s.Events.RoundTrip.{in_order, IsCanonical}
use enterprise_multi_agent_s.Events.{EventEnvelope}
use enterprise_multi_agent_s.Idempotency.{StagedEvent, reject}
use enterprise_multi_agent_s.Idempotency.Contract.{Key}
use enterprise_multi_agent_s.Idempotency.AzureTable
use enterprise_multi_agent_s.Idempotency.AzureTable.{Entity, TableClient, get, stage}
use enterprise_multi_agent_s.Idempotency.AzureTable.Staging.{
  read_row, KeepsOwnRow, IsOwnRow, IsTimed, get-stage,
}
use enterprise_multi_agent_s.Tests.Samples.{opened, opened-IsCanonical}

abbrev Rows : Type 0
Rows = Dict Key (Entity Json)

abbrev created : Option (Entity Json) → Key → Entity Json → Exec Rows (Unit {0})
created none key entity rows = (ok tt, Dict.put key entity rows)
created (some other) key entity rows = (err (service_error "ResourceExistsError" 409), rows)

abbrev table : TableClient Json Rows
table = record {
  get_entity = λ p k rows. (read_row (Dict.get (p, k) rows), rows);
  create_entity = λ p k entity rows. created (Dict.get (p, k) rows) (p, k) entity rows;
  merge_state = λ p k state rows. (ok tt, rows);
  query_pending = λ rows. (ok [], rows);
}

abbrev runtime : Runtime Json
runtime = record {
  repr = λ v. "r";
  dumps = λ v. Json.sort_keys v;
  loads = λ b. some b;
  sha256 = λ b. "h";
  hmac_sha256 = λ k m. "h";
  encode = λ s. str s;
  concat = λ a b. a;
}

lawful : IsRuntime runtime
lawful = record { loads-dumps = λ v. refl }

abbrev key : Key
key = ("github", runtime.sha256 (runtime.encode "d1"))

named :
    (entity other : Entity Json)
    → entity.event_id ≡ some "d1"
    → IsTimed runtime entity.dispatch_payload
    → (◌≡◌ {A = Option (Entity Json)} (some entity) (some other))
    → ((AzureTable.text_or_empty other.event_id == "d1") ≡ true)
      × IsTimed runtime other.dispatch_payload
named entity other h timed same =
    let one : entity ≡ other = cc in
    (
      ap (λ o. AzureTable.text_or_empty o == "d1")
            (sym (ap (λ (e : Entity Json). e.event_id) one) ∙ h)
          ∙ eq_refl "d1",
      subst (λ (e : Entity Json). IsTimed runtime e.dispatch_payload) one timed,
    )

keeps_create :
    (o : Option (Entity Json)) (entity : Entity Json) (rows : Rows)
    → Dict.get key rows ≡ o
    → entity.event_id ≡ some "d1"
    → IsTimed runtime entity.dispatch_payload
    → IsOwnRow runtime lawful reject "now" table
        (λ e. pure e)
        (λ rows p k. Dict.get (p, k) rows)
        (λ p k rows. refl)
        opened
        rows
    → IsOwnRow runtime lawful reject "now" table
        (λ e. pure e)
        (λ rows p k. Dict.get (p, k) rows)
        (λ p k rows. refl)
        opened
        (created o key entity rows).1
keeps_create none entity rows absent h timed own other there =
    named entity other h timed (sym (Dict.get-put key key entity rows) ∙ there)
keeps_create (some x) entity rows present h timed own other there = own other there

keeps :
    KeepsOwnRow runtime lawful reject "now" table
      (λ e. pure e)
      (λ rows p k. Dict.get (p, k) rows)
      (λ p k rows. refl)
      opened
keeps = record {
  by_prepare = λ rows own. own;
  prepared = λ rows dispatch h.
      subst (λ (e : EventEnvelope). IsCanonical e) (ok-injective h) opened-IsCanonical;
  by_create =
      λ entity rows h timed own. keeps_create (Dict.get key rows) entity rows refl h timed own;
}

abbrev first : StagedEvent
first = record { event = in_order opened; state = "pending"; created = true }

reading : Unit {0}
unfolding Dict.get Dict.put AzureTable.stage AzureTable.get Events.to_json Events.to_dict
    Events.from_json Events.from_parsed Events.from_dict Events.event_payload_hash Json.get Json.has
    Json.pop Json.truthy Json.to_text Json.sort_keys Json.sort_fields Json.insert_sorted
reading = tt

empty-IsOwnRow :
    IsOwnRow runtime lawful reject "now" table
      (λ e. pure e)
      (λ rows p k. Dict.get (p, k) rows)
      (λ p k rows. refl)
      opened
      []
unfolding reading
empty-IsOwnRow entity there = absurd cc

first_run : (stage runtime reject "now" table (λ e. pure e) opened []).0 ≡ ok first
unfolding reading
first_run = refl

get-stage_example :
    get runtime reject "later" table
      (λ e. pure e)
      "github"
      "d1"
      (stage runtime reject "now" table (λ e. pure e) opened []).1
    ≡ (
      ok (some (record first { created = false })),
      (stage runtime reject "now" table (λ e. pure e) opened []).1,
    )
get-stage_example =
    get-stage runtime lawful reject "now" table (λ e. pure e) (λ rows p k. Dict.get (p, k) rows)
      (λ p k rows. refl) "later" opened first [] keeps empty-IsOwnRow first_run
