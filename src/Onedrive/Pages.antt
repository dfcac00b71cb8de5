-- ===== src/Onedrive/Pages.antt =====
-- The pages of a delta in order.
use enterprise_multi_agent_s.Prelude.{
  ℕ, zero, suc, ◌≤◌, String, ◌≡◌, refl, ap, ◌∙◌, Bool, true, false, Option, none, some, List, [],
  ◌∷◌, ◌++◌, ◌==◌, arith,
}
use enterprise_multi_agent_s.Python.Result.{ok}
use enterprise_multi_agent_s.Python.Json.{
  arr, Items, nil, Fields, get, get_or, truthy, as_list, to_text,
}
use enterprise_multi_agent_s.Runtime.{Runtime}
use enterprise_multi_agent_s.Onedrive.{
  GraphRequests, objects, page_end, follow_pages, first_url, list_delta,
}

module _ {Bytes W : Type 0} (rt : Runtime Bytes) (graph : GraphRequests W) where
  -- A page that Graph answers at an address.
  pub record Page (url : String) (w w' : W) (page : Fields) (values : Items) : Type 0 where
    pub named : (url == "") ≡ false
    pub answered : graph.request_url "GET" url none w ≡ (ok page, w')
    pub listed : as_list (get_or page "value" (arr nil)) ≡ some values

  -- `n` pages from an address on, with their changes in order and the last one's delta link.
  pub data Chain (link : String) : ℕ → String → W → W → List Fields → Type 0 where
    last :
        (url : String) (w w' : W) (page : Fields) (values : Items)
        → Page url w w' page values
        → truthy (get page "@odata.nextLink") ≡ false
        → truthy (get page "@odata.deltaLink") ≡ true
        → to_text rt.repr (get page "@odata.deltaLink") ≡ link
        → Chain link 1 url w w' (objects values)
    more :
        (n : ℕ) (url next : String) (w w1 w' : W) (page : Fields) (values : Items)
        (changes : List Fields)
        → Page url w w1 page values
        → truthy (get page "@odata.nextLink") ≡ true
        → to_text rt.repr (get page "@odata.nextLink") ≡ next
        → Chain link n next w1 w' changes
        → Chain link (suc n) url w w' (objects values ++ changes)

  append_assoc : (xs ys zs : List Fields) → (xs ++ ys) ++ zs ≡ xs ++ (ys ++ zs)
  append_assoc [] ys zs = refl
  append_assoc (x ∷ xs) ys zs = ap (λ (l : List Fields). x ∷ l) (append_assoc xs ys zs)

  follow_pages-Chain :
      (link : String) {n : ℕ} {url : String} {w w' : W} {changes : List Fields}
      → Chain link n url w w' changes
      → (fuel : ℕ) (before : List Fields) → n ≤ fuel
      → follow_pages rt graph fuel url before w ≡ (ok (some (before ++ changes, link)), w')
  unfolding follow_pages page_end
  follow_pages-Chain link (last url w w' page values here no_next full same) zero before enough =
      absurd (omega (arith, enough))
  follow_pages-Chain link (last url w w' page values here no_next full same) (suc fuel) before
        enough =
      rw here.named (rw here.answered (rw here.listed (rw (no_next, full, same) refl)))
  follow_pages-Chain link (more m url next w w1 w' page values rest here has_next same chain) zero
        before enough =
      absurd (omega (arith, enough))
  follow_pages-Chain link (more m url next w w1 w' page values rest here has_next same chain)
        (suc fuel) before enough =
      rw here.named (
        rw here.answered (
          rw here.listed (
            rw (has_next, same)
              (follow_pages-Chain link chain fuel (before ++ objects values) (omega (arith, enough))
                ∙ ap (λ (l : List Fields). (ok (some (l, link)), w'))
                    (append_assoc before (objects values) rest)))))

  -- When Graph answers a chain of n pages from the first address on, the last of them alone
  -- without a next link, list_delta with fuel for n pages returns the object entries of all pages
  -- in order and the last page's delta link.
  pub list_delta-Chain :
      (drive_id link : String) (delta_link : Option String) (latest_only : Bool) (n fuel : ℕ)
      (w w' : W) (changes : List Fields)
      → Chain link n (first_url rt graph drive_id delta_link latest_only) w w' changes
      → n ≤ fuel
      → list_delta rt graph fuel drive_id delta_link latest_only w ≡ (ok (some (changes, link)), w')
  unfolding list_delta
  list_delta-Chain drive_id link delta_link latest_only n fuel w w' changes chain enough =
      follow_pages-Chain link chain fuel [] enough
