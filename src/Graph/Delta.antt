-- ===== src/Graph/Delta.antt =====
-- The changes of the drive: crates/lnxdrive-graph/src/delta.rs. The loop over the pages takes fuel; a
-- result without a response means that it was used up.
use lnxdrive.Prelude.{
  ℕ, zero, suc, ◌==◌, Bool, true, false, if◌then◌else◌, Option, none, some, List, [], ◌∷◌, ◌++◌,
  map, Text, codes, text_eq, is_empty, is_some, starts_with, Result, ok, err, ◌>>=◌,
}
use lnxdrive.Core.Ids.{DeltaToken}
use lnxdrive.Core.Time.{DateTime}
use lnxdrive.Sync.Ports.{DeltaItem, DeltaResponse}
use lnxdrive.Graph.Http.{
  Http, Method, get, Response, DriveItem, DeltaPage, M, bind, pure, lift, context, with_context,
  error_for_status,
}
pub mod Paths
pub mod Pages

-- `str::strip_prefix`
unfoldable pub strip_prefix : Text → Text → Option Text
strip_prefix s [] = some s
strip_prefix [] (d ∷ prefix) = none
strip_prefix (c ∷ s) (d ∷ prefix) =
    let rest = strip_prefix s prefix in if c == d then rest else none

abbrev pub drive_root : Text
drive_root = codes "/drive/root:"

abbrev stripped : Text → Option Text → Text
stripped parent_path none = parent_path
stripped parent_path (some rest) = if is_empty rest then codes "/" else rest

unfoldable pub normalize_parent_path : Text → Text → Text
unfolding strip_prefix
normalize_parent_path parent_path item_name =
    let clean = stripped parent_path (strip_prefix parent_path drive_root) in
    if text_eq clean (codes "/") then codes "/" ++ item_name else clean ++ codes "/" ++ item_name

abbrev pub quick_xor_hash : Option (Option (Option Text)) → Option Text
quick_xor_hash none = none
quick_xor_hash (some none) = none
quick_xor_hash (some (some hash)) = hash

abbrev pub path_of : Text → Option (Option Text × Option Text) → Option Text
path_of name none = none
path_of name (some (id, none)) = none
path_of name (some (id, some path)) = some (normalize_parent_path path name)

abbrev pub parent_id_of : Option (Option Text × Option Text) → Option Text
parent_id_of none = none
parent_id_of (some (id, path)) = id

unfoldable pub parse_item : DriveItem DateTime → DeltaItem
parse_item item = record {
  id = item.id;
  name = item.name;
  path = path_of item.name item.parent_reference;
  size = item.size;
  hash = quick_xor_hash item.file;
  modified = item.last_modified_date_time;
  is_deleted = is_some item.deleted;
  is_directory = is_some item.folder;
  parent_id = parent_id_of item.parent_reference;
}

unfoldable pub parse_response : DeltaPage → DeltaResponse
unfolding parse_item
parse_response response = record {
  items = map parse_item response.value;
  next_link = response.next_link;
  delta_link = response.delta_link;
}

abbrev delta_path : Text
delta_path = codes "/me/drive/root/delta"

abbrev pub request_path : Option DeltaToken → Text
request_path none = delta_path
request_path (some token) = delta_path ++ codes "?token=" ++ token.text

module _ (http : Http) where
  unfoldable pub get_delta_page : Text → M http DeltaResponse
  unfolding parse_response error_for_status
  get_delta_page next_link =
      bind http (context http (codes "Failed to send delta page request") (http.get_url next_link))
        (λ response.
          bind http
            (lift http (
              with_context http (codes "Delta page request returned error status")
                (error_for_status http response)))
            (λ accepted.
              bind http
                (lift http (
                  with_context http (codes "Failed to parse delta page response JSON")
                    (http.delta_page accepted.body)))
                (λ raw. pure http (parse_response raw))))

  -- The first response with the items, and the links, of a page behind it.
  abbrev pub extended : DeltaResponse → DeltaResponse → DeltaResponse
  extended response page = record {
    items = response.items ++ page.items;
    next_link = page.next_link;
    delta_link = page.delta_link;
  }

  unfoldable pub follow : ℕ → DeltaResponse → M http (Option DeltaResponse)
  unfolding get_delta_page
  follow zero response = pure http none
  follow (suc fuel) response = elim response.next_link [
    | none ↦ pure http (some response)
    | some next_link ↦
        bind http (get_delta_page next_link) (λ page. follow fuel (extended response page))
  ]

  abbrev pub first_page : Response http.Body → Result Text DeltaPage
  first_page response =
      if response.status == 410 then err (codes "Delta token expired (410 Gone)") else do
        accepted ←
            with_context http (codes "Delta request returned error status")
              (error_for_status http response)
        with_context http (codes "Failed to parse delta response JSON")
            (http.delta_page accepted.body)

  unfoldable pub get_delta : ℕ → Option DeltaToken → M http (Option DeltaResponse)
  unfolding follow error_for_status
  get_delta fuel token =
      bind http
        (context http (codes "Failed to send delta request")
          (http.request get (request_path token) []))
        (λ response.
          bind http (lift http (first_page response)) (λ raw. follow fuel (parse_response raw)))
