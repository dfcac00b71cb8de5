-- ===== src/Onedrive.antt =====
-- src/webhook_gateway/onedrive.py: the reads of Microsoft Graph. A request is a call of the record
-- `GraphRequests`, on a world `W`. The loop over the pages of a delta has as many turns as Graph sends
-- pages, so it runs on fuel, and answers none when the fuel is used up.
pub mod Pages
pub mod Requests
pub mod Origin
use Prim.Native.String.{◌++◌ as append}
use enterprise_multi_agent_s.Prelude.{
  ℕ, zero, suc, String, Bool, true, false, not, ◌&&◌, Option, none, some, List, [], ◌∷◌, ◌++◌, ◌==◌,
  leb, if◌then◌else◌,
}
use enterprise_multi_agent_s.Python.Result.{Result, ok, err, value_error, runtime_error, raise_if}
use enterprise_multi_agent_s.Python.Exec.{Exec, pure, raise, lift, ◌>>=◌}
use enterprise_multi_agent_s.Python.Json.{
  Json, null, arr, obj, Items, nil, item, Fields, get, get_or, truthy, as_list, as_object, to_text,
  text_or_empty,
}
use enterprise_multi_agent_s.Runtime.{Runtime}

-- `_request_url`: the method, the address and the payload.
pub record GraphRequests (W : Type 0) : Type 0 where
  pub base_url : String
  pub request_url : String → String → Option Fields → Exec W Fields

-- (item for item in values if isinstance(item, Mapping))
unfoldable pub objects : Items → List Fields
objects nil = []
objects (item v xs) =
    let rest = objects xs in elim (as_object v) [ none ↦ rest | some fs ↦ fs ∷ rest ]

abbrev pub list_or_raise : String → Option Items → Result Items
list_or_raise message none = err (runtime_error message)
list_or_raise message (some xs) = ok xs

module _ {Bytes W : Type 0} (rt : Runtime Bytes) (graph : GraphRequests W) where
  unfoldable pub list_subscriptions : Exec W (List Fields)
  unfolding objects
  list_subscriptions = do
    response ← graph.request_url "GET" (append graph.base_url "/subscriptions") none
    values ← lift (
        list_or_raise "Microsoft Graph subscriptions response is invalid"
          (as_list (get_or response "value" (arr nil))))
    pure (objects values)

  -- what a page says behind its changes: the next address, or the delta link
  unfoldable pub page_end :
      Fields
      → List Fields
      → (String → Exec W (Option (List Fields × String)))
      → Exec W (Option (List Fields × String))
  page_end page changes next =
      if truthy (get page "@odata.nextLink")
      then next (to_text rt.repr (get page "@odata.nextLink"))
      else if not (truthy (get page "@odata.deltaLink"))
      then raise (runtime_error "Microsoft Graph delta response omitted @odata.deltaLink")
      else pure (some (changes, to_text rt.repr (get page "@odata.deltaLink")))

  -- `while url:` with the changes so far
  unfoldable pub follow_pages : ℕ → String → List Fields → Exec W (Option (List Fields × String))
  unfolding page_end objects
  follow_pages zero url changes = pure none
  follow_pages (suc fuel) url changes =
      if url == ""
      then raise (runtime_error "Microsoft Graph delta request ended without a cursor")
      else do
        page ← graph.request_url "GET" url none
        values ← lift (
            list_or_raise "Microsoft Graph delta response has invalid value"
              (as_list (get_or page "value" (arr nil))))
        let found = changes ++ objects values
        page_end page found (λ url. follow_pages fuel url found)

  abbrev pub delta_url : String → Bool → String
  delta_url drive_id latest_only = append graph.base_url (
      append "/drives/"
        (append drive_id (append "/root/delta" (if latest_only then "?token=latest" else ""))))

  -- `if delta_link:`
  abbrev pub first_url : String → Option String → Bool → String
  first_url drive_id (some delta_link) latest_only =
      if delta_link == "" then delta_url drive_id latest_only else delta_link
  first_url drive_id none latest_only = delta_url drive_id latest_only

  unfoldable pub list_delta :
      ℕ → String → Option String → Bool → Exec W (Option (List Fields × String))
  unfolding follow_pages
  list_delta fuel drive_id delta_link latest_only =
      follow_pages fuel (first_url drive_id delta_link latest_only) []
