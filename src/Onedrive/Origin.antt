-- ===== src/Onedrive/Origin.antt =====
-- Where GraphClient sends its requests, and with them its token.
use enterprise_multi_agent_s.Prelude.{
  ℕ, zero, suc, String, Bool, true, false, not, Option, none, some, List, [], ◌++◌, ◌≡◌, refl, ◌==◌,
  if◌then◌else◌,
}
use enterprise_multi_agent_s.Python.Exec.{Exec, pure, raise, lift, ◌>>=◌, after_bind, after_if}
use enterprise_multi_agent_s.Python.Result.{runtime_error}
use enterprise_multi_agent_s.Python.Json.{
  arr, Items, nil, Fields, get, get_or, truthy, as_list, to_text,
}
use enterprise_multi_agent_s.Runtime.{Runtime}
use enterprise_multi_agent_s.Onedrive.{
  objects, page_end, follow_pages, first_url, list_delta, list_or_raise,
}
use enterprise_multi_agent_s.Onedrive.Requests.{
  Transport, GraphClient, same_origin, request_url, requests, read,
}

-- `P` survives the reading of a token, and a request to the client's own origin.
pub record Confined {Bytes W : Type 0} (transport : Transport Bytes W) (client : GraphClient)
    (P : W → Type 0) : Type 0 where
  pub by_token : (w : W) → P w → P (transport.token w).1
  pub by_open :
      (method url : String) (payload : Option Fields) (token : String) (w : W)
      → same_origin transport client url ≡ true
      → P w
      → P (transport.open_url method url payload token w).1

module _ {Bytes W : Type 0} (rt : Runtime Bytes) (transport : Transport Bytes W)
    (client : GraphClient) (P : W → Type 0) (confined : Confined transport client P) where
  after_origin :
      (same : Bool) (method url : String) (payload : Option Fields) (w : W)
      → same_origin transport client url ≡ same
      → P w
      → P
          ((if not same
              then raise
                  (runtime_error "Refusing to send Microsoft Graph credentials to another origin")
              else do
                token ← transport.token
                opened ← transport.open_url method url payload token
                lift (read transport client url opened))
            w).1
  after_origin false method url payload w same p = p
  after_origin true method url payload w same p =
      after_bind P transport.token
        (λ token. do
          opened ← transport.open_url method url payload token
          lift (read transport client url opened))
        w (λ _ _. confined.by_token w p)
        λ token _.
          after_bind P (transport.open_url method url payload token)
            (λ opened. lift (read transport client url opened)) (transport.token w).1
            (λ _ _. opened token) λ _ _. opened token
    where
      opened :
          (token : String) → P (transport.open_url method url payload token (transport.token w).1).1
      opened token =
          confined.by_open method url payload token (transport.token w).1 same
            (confined.by_token w p)

  request_url-Confined :
      (method url : String) (payload : Option Fields) (w : W)
      → P w
      → P (request_url transport client method url payload w).1
  unfolding request_url
  request_url-Confined method url payload w p =
      after_origin (same_origin transport client url) method url payload w refl p

  page_end-Confined :
      (page : Fields) (changes : List Fields)
      (next : String → Exec W (Option (List Fields × String))) (w : W)
      → ((url : String) → P (next url w).1)
      → P w
      → P (page_end rt (requests transport client) page changes next w).1
  unfolding page_end
  page_end-Confined page changes next w later p =
      after_if P (truthy (get page "@odata.nextLink"))
        (next (to_text rt.repr (get page "@odata.nextLink")))
        (if not (truthy (get page "@odata.deltaLink"))
          then raise (runtime_error "Microsoft Graph delta response omitted @odata.deltaLink")
          else pure (some (changes, to_text rt.repr (get page "@odata.deltaLink"))))
        w (λ _. later (to_text rt.repr (get page "@odata.nextLink")))
        λ _.
          after_if P (not (truthy (get page "@odata.deltaLink")))
            (raise (runtime_error "Microsoft Graph delta response omitted @odata.deltaLink"))
            (pure (some (changes, to_text rt.repr (get page "@odata.deltaLink")))) w (λ _. p) λ _. p

  follow_pages-Confined :
      (fuel : ℕ) (url : String) (changes : List Fields) (w : W)
      → P w
      → P (follow_pages rt (requests transport client) fuel url changes w).1
  unfolding follow_pages
  follow_pages-Confined zero url changes w p = p
  follow_pages-Confined (suc fuel) url changes w p =
      after_if P (url == "")
        (raise (runtime_error "Microsoft Graph delta request ended without a cursor"))
        (request_url transport client "GET" url none >>= turn) w (λ _. p)
        λ _.
          after_bind P (request_url transport client "GET" url none) turn w (λ _ _. got)
            λ page _.
              after_bind P (values_of page)
                (λ values.
                  page_end rt (requests transport client) page (changes ++ objects values) λ url.
                    follow_pages rt (requests transport client) fuel url
                      (changes ++ objects values))
                (request_url transport client "GET" url none w).1 (λ _ _. got)
                λ values _.
                  page_end-Confined page (changes ++ objects values)
                    (λ url.
                      follow_pages rt (requests transport client) fuel url
                        (changes ++ objects values))
                    (request_url transport client "GET" url none w).1
                    (λ next_url.
                      follow_pages-Confined fuel next_url (changes ++ objects values)
                        (request_url transport client "GET" url none w).1 got)
                    got
    where
      values_of : Fields → Exec W Items
      values_of page = lift (
          list_or_raise "Microsoft Graph delta response has invalid value"
            (as_list (get_or page "value" (arr nil))))

      turn : Fields → Exec W (Option (List Fields × String))
      turn page = values_of page >>= λ values.
          page_end rt (requests transport client) page (changes ++ objects values)
            λ url. follow_pages rt (requests transport client) fuel url (changes ++ objects values)

      got : P (request_url transport client "GET" url none w).1
      got = request_url-Confined "GET" url none w p

  -- Whatever next and delta links Graph answers and the caller gives: a list_delta of a
  -- GraphClient reads its token and opens addresses of the client's own origin only, in the sense
  -- that every predicate on the world that these two keep, for the addresses of that origin, is
  -- kept by the call.
  pub list_delta-Confined :
      (fuel : ℕ) (drive_id : String) (delta_link : Option String) (latest_only : Bool) (w : W)
      → P w
      → P (list_delta rt (requests transport client) fuel drive_id delta_link latest_only w).1
  unfolding list_delta
  list_delta-Confined fuel drive_id delta_link latest_only w p =
      follow_pages-Confined fuel
        (first_url rt (requests transport client) drive_id delta_link latest_only) [] w p
