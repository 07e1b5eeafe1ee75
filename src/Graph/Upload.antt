-- ===== src/Graph/Upload.antt =====
-- Uploads: crates/lnxdrive-graph/src/upload.rs. The loop over the chunks takes fuel, and reaches the end
-- of the data with as much as the data is long; the callback that reports progress is left out.
use lnxdrive.Prelude.{
  ℕ, zero, suc, ◌+◌, ◌-◌, ◌*◌, ◌==◌, ltb, leb, ◌&&◌, ◌||◌, min, Bool, true, false, if◌then◌else◌,
  Option, none, some, List, [], ◌∷◌, ◌++◌, length, take, drop, Text, codes, decimal, text_eq,
  is_some, is_empty, Result, ok, err,
}
use lnxdrive.Core.RemotePath.{RemotePath}
use lnxdrive.Core.Time.{DateTime}
use lnxdrive.Sync.Ports.{DeltaItem}
use lnxdrive.Graph.Http.{
  Http, Method, put, post, Response, DriveItem, M, bind, pure, lift, context, with_context,
  error_for_status,
}
use lnxdrive.Graph.Delta.{quick_xor_hash, path_of, parent_id_of}
pub mod Chunks

abbrev pub chunk_size : ℕ
chunk_size = 10 * 1024 * 1024

unfoldable pub build_item_path : RemotePath → Text → Text → Text
build_item_path parent_path name suffix =
    if text_eq parent_path.text (codes "/")
    then codes "/me/drive/root:/" ++ name ++ codes ":/" ++ suffix
    else codes "/me/drive/root:" ++ parent_path.text ++ codes "/" ++ name ++ codes ":/" ++ suffix

abbrev date_of : (Text → Option DateTime) → Option Text → Option DateTime
date_of parse none = none
date_of parse (some s) = parse s

abbrev pub chunk_range : ℕ → ℕ → ℕ → Text
chunk_range offset len total =
    codes "bytes "
    ++ decimal offset
    ++ codes "-"
    ++ decimal (offset + len - 1)
    ++ codes "/"
    ++ decimal total

module _ (http : Http) where
  unfoldable pub drive_item_to_delta : DriveItem Text → DeltaItem
  drive_item_to_delta item = record {
    id = item.id;
    name = item.name;
    path = path_of item.name item.parent_reference;
    size = item.size;
    hash = quick_xor_hash item.file;
    modified = date_of http.parse_date item.last_modified_date_time;
    is_deleted = is_some item.deleted;
    is_directory = is_some item.folder;
    parent_id = parent_id_of item.parent_reference;
  }

  unfoldable pub upload_small : RemotePath → Text → List ℕ → M http DeltaItem
  unfolding drive_item_to_delta error_for_status build_item_path
  upload_small parent_path name content =
      bind http
        (context http (codes "Failed to send small upload request")
          (http.request put (build_item_path parent_path name (codes "content")) content))
        (λ response.
          bind http
            (lift http (
              with_context http (codes "Small upload returned error status")
                (error_for_status http response)))
            (λ accepted.
              bind http
                (lift http (
                  with_context http (codes "Failed to parse upload response")
                    (http.drive_item accepted.body)))
                (λ item. pure http (drive_item_to_delta item))))

  unfoldable pub create_upload_session : RemotePath → Text → M http Text
  unfolding error_for_status build_item_path
  create_upload_session parent_path name =
      bind http
        (context http (codes "Failed to create upload session") (
          http.request post (build_item_path parent_path name (codes "createUploadSession"))
            (codes "{}")))
        (λ response.
          bind http
            (lift http (
              with_context http (codes "Create upload session returned error status")
                (error_for_status http response)))
            (λ accepted. lift http (
              with_context http (codes "Failed to parse upload session response")
                (http.upload_url accepted.body))))

  -- Whether the status means that the upload is complete: 200 and 201.
  abbrev answered : ℕ → http.Json → Option http.Json
  answered status body = if status == 200 || status == 201 then some body else none

  abbrev pub chunk_answer : Response http.Body → M http (Option http.Json)
  chunk_answer response =
      if leb 200 response.status && ltb response.status 300
      then bind http
          (lift http (
            with_context http (codes "Failed to parse chunk response body")
              (http.json response.body)))
          (λ body. pure http (answered response.status body))
      else lift http (
          err (
            codes "Chunk upload failed with status "
            ++ decimal response.status
            ++ codes ": "
            ++ http.text_of response.body))

  unfoldable pub upload_chunk : Text → List ℕ → ℕ → ℕ → M http (Option http.Json)
  upload_chunk upload_url content offset total =
      bind http
        (context http (codes "Failed to send chunk upload request")
          (http.put_url upload_url (chunk_range offset (length content) total) content))
        chunk_answer

  abbrev pub last_of : Option http.Json → Option http.Json → Option http.Json
  last_of before none = before
  last_of before (some response) = some response

  -- `rest` is the content from `offset` on; the last answer with a body is kept.
  unfoldable pub upload_chunks :
      Text → Text → ℕ → ℕ → List ℕ → ℕ → Option http.Json → M http (Option http.Json)
  unfolding upload_chunk
  upload_chunks upload_url name zero offset rest total final = pure http final
  upload_chunks upload_url name (suc fuel) offset rest total final =
      if ltb offset total
      then bind http
          (context http
            (codes "Failed to upload chunk at offset "
              ++ decimal offset
              ++ codes "/"
              ++ decimal total
              ++ codes " for "
              ++ name)
            (upload_chunk upload_url (take chunk_size rest) offset total))
          (λ result.
            upload_chunks upload_url name fuel (min (offset + chunk_size) total)
              (drop chunk_size rest) total (last_of final result))
      else pure http final

  abbrev final_item : Option http.Json → Result Text (DriveItem Text)
  final_item none =
      err (codes "Upload session completed without receiving a final DriveItem response")
  final_item (some response) =
      with_context http (codes "Failed to deserialize final upload response into DriveItem")
        (http.item_of_json response)

  unfoldable pub upload_large : RemotePath → Text → List ℕ → M http DeltaItem
  unfolding create_upload_session upload_chunks drive_item_to_delta
  upload_large parent_path name content =
      bind http (create_upload_session parent_path name) (λ upload_url.
        bind http
          (upload_chunks upload_url name (length content + 1) 0 content (length content) none)
          (λ final.
            bind http (lift http (final_item final))
              (λ item. pure http (drive_item_to_delta item))))
