-- ===== src/Examples/Transfers.antt =====
-- A server whose world counts the requests: two pages of changes, and uploads that it accepts.
use lnxdrive.Prelude.{
  ℕ, ◌+◌, ◌==◌, ◌≡◌, ◌++◌, refl, if◌then◌else◌, none, some, [], ◌∷◌, codes, ok, arith, Text,
  decimal,
}
use lnxdrive.Core.RemotePath
use lnxdrive.Core.RemotePath.{RemotePath, join}
use lnxdrive.Graph.Http
use lnxdrive.Graph.Http.{Http, DriveItem, DeltaPage}
use lnxdrive.Graph.Delta
use lnxdrive.Graph.Delta.{get_delta, parse_response, normalize_parent_path}
use lnxdrive.Graph.Delta.Pages.{Chain, ends, goes, whole, get_delta_complete}
use lnxdrive.Graph.Upload.{upload_large, create_upload_session, drive_item_to_delta}
use lnxdrive.Graph.Upload.Chunks.{Uploaded, upload_large_sends}

abbrev drive_item : {A : Type 0} → Text → DriveItem A
drive_item name = record {
  id = codes "1";
  name = name;
  size = some 2;
  last_modified_date_time = none;
  parent_reference = some (none, some (codes "/drive/root:"));
  file = some none;
  folder = none;
  deleted = none;
}

abbrev page_one : DeltaPage
page_one = record {
  value = drive_item (codes "a") ∷ [];
  next_link = some (codes "https://next");
  delta_link = none;
}

abbrev page_two : DeltaPage
page_two = record {
  value = drive_item (codes "b") ∷ [];
  next_link = none;
  delta_link = some (codes "https://delta");
}

abbrev http : Http
http = record {
  World = ℕ;
  Body = ℕ;
  Json = ℕ;
  request = λ method path content w. (w + 1, ok (record { status = 200; body = w }));
  get_url = λ url w. (w + 1, ok (record { status = 200; body = w }));
  put_url = λ url range content w. (w + 1, ok (record { status = 201; body = w }));
  status_error = decimal;
  text_of = decimal;
  delta_page = λ body. ok (if body == 0 then page_one else page_two);
  drive_item = λ body. ok (drive_item (codes "a"));
  upload_url = λ body. ok (codes "https://upload");
  json = ok;
  item_of_json = λ json. ok (drive_item (codes "a"));
  parse_date = λ text. none;
}

two_pages :
    Chain http 1
      (parse_response page_one)
      1
      2
      ((parse_response page_one).items ++ (parse_response page_two).items)
      (some (codes "https://delta"))
unfolding Delta.get_delta_page Http.error_for_status parse_response
two_pages = goes refl refl (ends refl)

get_delta_complete_example : get_delta http 3 none 0 ≡ (
  2,
  ok (
      some (
        whole http
          ((parse_response page_one).items ++ (parse_response page_two).items)
          (some (codes "https://delta")))),
)
unfolding Http.error_for_status
get_delta_complete_example =
    get_delta_complete http none {w = 0} {w' = 1} {response = record { status = 200; body = 0 }}
      {raw = page_one} 3 refl refl two_pages (omega arith)

upload_large_sends_example :
    Uploaded http
      (codes "https://upload")
      (1 ∷ 2 ∷ [])
      1
      2
      (drive_item_to_delta http (drive_item (codes "a")))
unfolding create_upload_session upload_large
upload_large_sends_example =
    upload_large_sends http RemotePath.root (codes "a") (1 ∷ 2 ∷ []) 0 1 2 (codes "https://upload")
      (drive_item_to_delta http (drive_item (codes "a"))) refl refl
