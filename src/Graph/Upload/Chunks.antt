-- ===== src/Graph/Upload/Chunks.antt =====
-- The chunks of an upload, in crates/lnxdrive-graph/src/upload.rs.
use lnxdrive.Prelude.{
  ℕ, zero, suc, ◌+◌, ◌≤◌, ◌<◌, ◌≡◌, refl, sym, ap, min, ltb, true, false, inl, inr, Option, none,
  some, List, [], ◌∷◌, ◌++◌, length, take, drop, take-drop, length-take, length-drop, Text, Result,
  ok, err, Result-cases, ok_injective, arith,
}
use lnxdrive.Graph.Http.{Http, DriveItem, bind}
use lnxdrive.Graph.Upload.{
  chunk_size, last_of, upload_chunk, upload_chunks, upload_large, create_upload_session,
  drive_item_to_delta,
}
use lnxdrive.Core.RemotePath.{RemotePath}
use lnxdrive.Sync.Ports.{DeltaItem}

module _ (http : Http) (url : Text) (total : ℕ) where
  -- The content from an offset on goes to the server in chunks that are not empty nor too large, one behind
  -- the other; each is accepted, and the last answer with a body is kept.
  pub data Sent
      : http.World → ℕ → List ℕ → Option http.Json → http.World → Option http.Json → Type 0 where
    all_sent :
        {w : http.World} {offset : ℕ} {final : Option http.Json} → Sent w offset [] final w final
    sends :
        {w w' v : http.World} {offset : ℕ} (chunk rest : List ℕ)
        {final answer result : Option http.Json}
        → 0 < length chunk
        → length chunk ≤ chunk_size
        → upload_chunk http url chunk offset total w ≡ (w', ok answer)
        → Sent w' (offset + length chunk) rest (last_of http final answer) v result
        → Sent w offset (chunk ++ rest) final v result

  abbrev Outcome : Type 0
  Outcome = http.World × Result Text (Option http.Json)

  no_result :
      {w v : http.World} {e : Text} {result : Option http.Json}
      → ◌≡◌ {A = Outcome} (w, err e) (v, ok result)
      → ⊥
  no_result h = absurd (
      cc (
        let bad : ◌≡◌ {A = Result Text (Option http.Json)} _ _ = ap (λ (x : Outcome). x.1) h in
        bad))

  ends_as :
      {w v : http.World} {offset : ℕ} {final result : Option http.Json}
      → ◌≡◌ {A = Outcome} (w, ok final) (v, ok result)
      → Sent w offset [] final v result
  ends_as h =
      rw (← ap (λ (x : Outcome). x.0) h, ← ok_injective (ap (λ (x : Outcome). x.1) h)) all_sent

  -- Where the rest of the content is what is left of the total, and with more fuel than its length, a loop
  -- over the chunks that succeeds has sent it.
  pub upload_chunks_sends :
      (name : Text) (fuel offset : ℕ) (rest : List ℕ) (final : Option http.Json) (w v : http.World)
      {result : Option http.Json}
      → offset + length rest ≡ total
      → length rest < fuel
      → upload_chunks http url name fuel offset rest total final w ≡ (v, ok result)
      → Sent w offset rest final v result
  unfolding upload_chunks
  upload_chunks_sends name zero offset rest final w v at enough h = absurd (omega arith)
  upload_chunks_sends name (suc fuel) offset [] final w v at enough h =
      let below : ltb offset total ≡ false = ground arith in ends_as (rw below at h)
  upload_chunks_sends name (suc fuel) offset (b ∷ content) final w v at enough h =
      let more = b ∷ content in
      let chunk = take chunk_size more in
      let rest = drop chunk_size more in
      let below : ltb offset total ≡ true = ground arith in
      let some_sent = length-take chunk_size more in
      let some_left = length-drop chunk_size more in
      let next : min (offset + chunk_size) total ≡ offset + length chunk = omega arith in
      elim (Result-cases (upload_chunk http url chunk offset total w).1) [
        | inl (answer, e) ↦
            let after =
              upload_chunks_sends name fuel (offset + length chunk) rest (last_of http final answer)
                (upload_chunk http url chunk offset total w).0 v (omega arith) (omega arith)
                (rw (below, bind, e, next) at h) in
            let whole : Sent w offset (chunk ++ rest) final v _ =
              sends chunk rest (omega arith) (omega arith)
                (ap (λ x. ((upload_chunk http url chunk offset total w).0, x)) e) after in
            rw (sym (take-drop chunk_size more)) whole
        | inr (e, failed) ↦ absurd (no_result (rw (below, bind, failed) at h))
      ]

-- How an upload that succeeds has gone: the whole content was sent, the last answer with a body is a drive
-- item, and this is what is returned.
pub record Uploaded (http : Http) (url : Text) (content : List ℕ) (w v : http.World)
    (item : DeltaItem) : Type 0 where
  pub answer : http.Json
  pub raw : DriveItem Text
  pub sent : Sent http url (length content) w 0 content none v (some answer)
  pub decoded : http.item_of_json answer ≡ ok raw
  pub same : drive_item_to_delta http raw ≡ item

module _ (http : Http) where
  no_item :
      {w v : http.World} {e : Text} {item : DeltaItem}
      → ◌≡◌ {A = http.World × Result Text DeltaItem} (w, err e) (v, ok item)
      → ⊥
  no_item h = absurd (cc (let bad : ◌≡◌ {A = Result Text DeltaItem} _ _ = ap (λ x. x.1) h in bad))

  assembled :
      (name : Text) {content : List ℕ} {w v : http.World} {url : Text} {item : DeltaItem}
      (answer : http.Json) (raw : DriveItem Text)
      → (upload_chunks http url name (length content + 1) 0 content (length content) none w).1
        ≡ ok (some answer)
      → http.item_of_json answer ≡ ok raw
      → ◌≡◌ {A = http.World × Result Text DeltaItem}
          (
            (upload_chunks http url name (length content + 1) 0 content (length content) none w).0,
            ok (drive_item_to_delta http raw),
          )
          (v, ok item)
      → Uploaded http url content w v item
  assembled name {content} {w} {v} {url} answer raw e decoded h =
      let at_end = ap (λ x. x.0) h in
      record {
        answer = answer;
        raw = raw;
        sent =
            upload_chunks_sends http url (length content) name (length content + 1) 0 content none w
              v (omega arith) (omega arith) (rw (sym at_end, sym e) refl);
        decoded = decoded;
        same = ok_injective (ap (λ x. x.1) h);
      }

  -- Where the session was created, an upload that succeeds has sent the whole content to its address, and
  -- returns the item of the last answer.
  pub upload_large_sends :
      (parent_path : RemotePath) (name : Text) (content : List ℕ) (w w' v : http.World) (url : Text)
      (item : DeltaItem)
      → create_upload_session http parent_path name w ≡ (w', ok url)
      → upload_large http parent_path name content w ≡ (v, ok item)
      → Uploaded http url content w' v item
  unfolding upload_large
  upload_large_sends parent_path name content w w' v url item session h =
      let run =
        upload_chunks http url name (length content + 1) 0 content (length content) none w' in
      let h' = rw (bind, session, session) at h in
      elim (Result-cases run.1) [
        | inr (e, failed) ↦ absurd (no_item (rw (bind, failed) at h'))
        | inl (none, e) ↦ absurd (no_item (rw (bind, e) at h'))
        | inl (some answer, e) ↦ elim (Result-cases (http.item_of_json answer)) [
          | inr (x, failed) ↦ absurd (no_item (rw (bind, e, failed) at h'))
          | inl (raw, decoded) ↦
              assembled name answer raw e decoded (rw (bind, e, decoded, session) at h')
        ]
      ]
