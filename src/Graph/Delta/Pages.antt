-- ===== src/Graph/Delta/Pages.antt =====
-- The pages that `get_delta` of crates/lnxdrive-graph/src/delta.rs puts together.
use lnxdrive.Prelude.{
  ℕ, zero, suc, ◌<◌, ◌≡◌, ap, sym, Result, Option, none, some, List, [], ◌++◌, append_assoc, Text,
  ok, arith,
}
use lnxdrive.Core.Ids.{DeltaToken}
use lnxdrive.Sync.Ports.{DeltaItem, DeltaResponse}
use lnxdrive.Graph.Http.{Http, bind, Response, DeltaPage, get}
use lnxdrive.Graph.Delta.{
  get_delta_page, follow, get_delta, parse_response, first_page, request_path,
}

module _ (http : Http) where
  -- From a page, `n` further pages that the server gives along the links, and what they hold.
  pub data Chain
      : http.World → DeltaResponse → ℕ → http.World → List DeltaItem → Option Text → Type 0 where
    ends :
        {w : http.World} {page : DeltaResponse}
        → page.next_link ≡ none
        → Chain w page 0 w page.items page.delta_link
    goes :
        {w w' v : http.World} {page next : DeltaResponse} {link : Text} {n : ℕ}
        {items : List DeltaItem} {delta_link : Option Text}
        → page.next_link ≡ some link
        → get_delta_page http link w ≡ (w', ok next)
        → Chain w' next n v items delta_link
        → Chain w page (suc n) v (page.items ++ items) delta_link

  abbrev pub whole : List DeltaItem → Option Text → DeltaResponse
  whole items delta_link = record { items = items; next_link = none; delta_link = delta_link }

  follow_pages :
      (before : List DeltaItem) {w v : http.World} {page : DeltaResponse} {n : ℕ}
      {items : List DeltaItem} {delta_link : Option Text} (fuel : ℕ)
      → Chain w page n v items delta_link
      → n < fuel
      → follow http fuel (record page { items = before ++ page.items }) w
        ≡ (v, ok (some (whole (before ++ items) delta_link)))
  unfolding follow
  follow_pages before zero chain below = absurd (omega arith)
  follow_pages before (suc fuel) (ends {w} {page} no_link) below =
      let end : (x : Option Text) → http.World × Result Text (Option DeltaResponse) =
        λ x. (w, ok (some (record page { items = before ++ page.items; next_link = x }))) in
      rw no_link (ap end no_link)
  follow_pages before (suc fuel) (goes {page} {next} {items} link page_read chain) below =
      rw (link, bind, page_read, page_read, sym (append_assoc before page.items items))
        (follow_pages (before ++ page.items) fuel chain (omega arith))

  -- When the server answers the first request, and gives `n` further pages along the links, then with more
  -- fuel than `n` get_delta returns the items of all the pages in their order, and the delta link of the
  -- last.
  pub get_delta_complete :
      (token : Option DeltaToken) {w w' v : http.World} {response : Response http.Body}
      {raw : DeltaPage} {n : ℕ} {items : List DeltaItem} {delta_link : Option Text} (fuel : ℕ)
      → http.request get (request_path token) [] w ≡ (w', ok response)
      → first_page http response ≡ ok raw
      → Chain w' (parse_response raw) n v items delta_link
      → n < fuel
      → get_delta http fuel token w ≡ (v, ok (some (whole items delta_link)))
  unfolding get_delta
  get_delta_complete token fuel answered decoded chain enough =
      rw (bind, answered, decoded, answered) (follow_pages [] fuel chain enough)
