-- ===== src/GithubClient/Paging.antt =====
-- What `paginate` of the GitHub client yields, over a service that numbers its pages from 1.
use enterprise_multi_agent_s.Prelude.{
  ℕ, zero, suc, ◌+◌, ◌≤◌, String, true, Option, none, some, List, [], ◌∷◌, ◌≡◌, refl, ap, subst,
  ◌∙◌, pos, arith, eq_iff, eq_refl,
}
use enterprise_multi_agent_s.Python.Result.{Result, ok}
use enterprise_multi_agent_s.Python.Exec.{Exec, pure, ◌>>=◌, bind_of_ok}
use enterprise_multi_agent_s.Python.Json.{
  Json, arr, int, Items, nil, item, Fields, end, field, put, truthy,
}
use enterprise_multi_agent_s.GithubClient.{
  Codec, Session, GitHubApiClient, Attempt, done, request, Stream, yielded, exhausted, yield_all,
  after_page, pages_from, paginate, first_params,
}

-- the items of the pages, one page after the other
abbrev pub then_items : Items → Stream → Stream
then_items nil s = s
then_items (item v xs) s = yielded v (then_items xs s)

unfoldable pub stream_of : List Items → Stream
stream_of [] = exhausted
stream_of (xs ∷ pages) = then_items xs (stream_of pages)

-- the page with this number, from 0; behind the last page they are empty
unfoldable pub page_at : List Items → ℕ → Items
page_at [] i = nil
page_at (xs ∷ pages) zero = xs
page_at (xs ∷ pages) (suc i) = page_at pages i

unfoldable pub count : List Items → ℕ
count [] = 0
count (xs ∷ pages) = suc (count pages)

abbrev pub NonEmpty : List Items → Type 0
NonEmpty [] = Unit {0}
NonEmpty (xs ∷ pages) = (truthy (arr xs) ≡ true) × NonEmpty pages

put-put : (fs : Fields) (k : String) (v w : Json) → put (put fs k v) k w ≡ put fs k w
unfolding put
put-put end k v w = rw (eq_refl k) refl
put-put (field j u fs) k v w = ground (arith, eq_refl k, eq_iff j k, put-put fs k v w)

module _ {W : Type 0} where
  yield_all_lem :
      (xs : Items) (next : Exec W Stream) (s : Stream)
      → ((w : W) → (next w).0 ≡ ok s)
      → (w : W) → (yield_all xs next w).0 ≡ ok (then_items xs s)
  yield_all_lem nil next s h w = h w
  yield_all_lem (item v xs) next s h w =
      ap (λ r. r.0)
        (bind_of_ok (yield_all xs next) (λ rest. pure (yielded v rest)) w (then_items xs s)
          (yield_all_lem xs next s h w))

  after_page_lem :
      (xs : Items) (next : Exec W Stream) (s : Stream)
      → truthy (arr xs) ≡ true
      → ((w : W) → (next w).0 ≡ ok s)
      → (w : W) → (after_page next (done (arr xs)) w).0 ≡ ok (then_items xs s)
  after_page_lem xs next s full h w = rw full (yield_all_lem xs next s h w)

  -- what a bind returns whose first part returns
  result-bind :
      (m : Exec W Attempt) (f : Attempt → Exec W Stream) (w : W) (a : Attempt) (r : Result Stream)
      → (m w).0 ≡ ok a
      → (f a (m w).1).0 ≡ r
      → ((m >>= f) w).0 ≡ r
  result-bind m f w a r h k = ap (λ r. r.0) (bind_of_ok m f w a h) ∙ k

module _ {Bytes W : Type 0} (codec : Codec Bytes) (session : Session Bytes W)
    (client : GitHubApiClient) (path : String) where
  -- the request for page `n` of these pages, by parameters that may hold another page number
  abbrev pub Serves : List Items → Fields → ℕ → ℕ → Type 0
  Serves pages params n i =
      (w : W)
      → (request codec session client "GET" path (some (put params "page" (int (pos n)))) none
          "paginate" w).0
        ≡ ok (done (arr (page_at pages i)))

  pages_from_lem :
      (pages : List Items) (fuel k : ℕ) (params : Fields)
      → count pages ≤ fuel
      → NonEmpty pages
      → ((i n : ℕ) → n ≡ k + i → Serves pages params n i)
      → (w : W)
      → (pages_from codec session client (suc fuel) k path params w).0 ≡ ok (stream_of pages)
  unfolding pages_from page_at stream_of count truthy
  pages_from_lem [] fuel k params bound full serves w =
      result-bind
        (request codec session client "GET" path (some (put params "page" (int (pos k)))) none
          "paginate")
        (λ o.
          after_page
            (pages_from codec session client fuel (suc k) path (put params "page" (int (pos k)))) o)
        w (done (arr nil)) (ok exhausted) (serves 0 k (omega arith) w) refl
  pages_from_lem (xs ∷ pages) zero k params bound full serves w = ground arith
  pages_from_lem (xs ∷ pages) (suc fuel) k params bound full serves w =
      result-bind
        (request codec session client "GET" path (some (put params "page" (int (pos k)))) none
          "paginate")
        (λ o.
          after_page
            (pages_from codec session client (suc fuel) (suc k) path
              (put params "page" (int (pos k))))
            o)
        w (done (arr xs)) (ok (then_items xs (stream_of pages))) (serves 0 k (omega arith) w)
        (after_page_lem xs
          (pages_from codec session client (suc fuel) (suc k) path
            (put params "page" (int (pos k))))
          (stream_of pages) full.0
          (pages_from_lem pages fuel (suc k) (put params "page" (int (pos k))) (omega arith) full.1
            λ i n h w1.
              rw (put-put params "page" (int (pos k)) (int (pos n)))
                (serves (suc i) n (omega arith) w1))
          (request codec session client "GET" path (some (put params "page" (int (pos k)))) none
            "paginate" w).1)

  -- When the requests of the GitHub client for pages 1, 2 and so on are answered by the lists of a
  -- finite sequence, none of them empty, and behind its end by empty lists, paginate with fuel for
  -- one request more than there are pages yields the items of all pages in order and ends.
  pub paginate_lem :
      (pages : List Items) (params : Option Fields) (fuel : ℕ)
      → count pages ≤ fuel
      → NonEmpty pages
      → ((i : ℕ) → Serves pages (first_params params) (suc i) i)
      → (w : W) → (paginate codec session client (suc fuel) path params w).0 ≡ ok (stream_of pages)
  unfolding paginate
  paginate_lem pages params fuel bound full serves w =
      pages_from_lem pages fuel 1 (first_params params) bound full
        (λ i n h. subst (λ n. Serves pages (first_params params) n i) (omega arith) (serves i)) w
