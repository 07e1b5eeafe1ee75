-- ===== src/Sync/Cycle.antt =====
-- One cycle of synchronisation: `sync` of crates/lnxdrive-sync/src/engine.rs. Log lines and the
-- wall-clock duration of the result are left out; a message of `errors` is the kind of the error and
-- what it renders.
use lnxdrive.Prelude.{
  ℕ, ◌+◌, ◌%◌, ◌^◌, ◌||◌, if◌then◌else◌, Option, none, some, List, [], ◌∷◌, ◌++◌, Text, codes,
  contains, Result, ok, err, length,
}
use lnxdrive.Core.Error.{DomainError}
use lnxdrive.Core.Account
use lnxdrive.Core.Account.{Account}
use lnxdrive.Core.Ids.{DeltaToken, new_delta_token}
use lnxdrive.Core.Session
use lnxdrive.Core.Session.{
  SyncSession, u64_mod, record_success, record_failure, set_items_checked, set_items_synced,
  set_delta_token_start, set_delta_token_end,
}
use lnxdrive.Core.SyncPath.{SyncPath}
use lnxdrive.Sync.Bulk.{SyncEngine}
use lnxdrive.Sync.Local.{handle_local_create, handle_local_update, handle_local_delete}
use lnxdrive.Sync.Ports.{
  Ports, DeltaItem, DeltaResponse, M, pure, bind, context, attempt, lift_option, read_clock,
  fresh_id,
}
use lnxdrive.Sync.Remote.{DeltaAction, downloaded, updated, deleted, skipped, process_delta_item}
use lnxdrive.Sync.Retry.{with_retry}
use lnxdrive.Sync.Scan.{LocalChange, created, changed, gone, scan_local_changes}
pub mod Accounting

-- Errors that do not end the cycle.
pub data ItemError : Type 0 where
  delta_item_failed : Text → Text → Text → ItemError
  scan_failed : Text → ItemError
  new_file_failed modified_file_failed remote_delete_failed : SyncPath → Text → ItemError

pub record SyncResult : Type 0 where
  pub files_downloaded : ℕ
  pub files_uploaded : ℕ
  pub files_deleted : ℕ
  pub errors : List ItemError

abbrev pub u32_mod : ℕ
u32_mod = 4294967296

unfoldable pub no_result : SyncResult
no_result = record { files_downloaded = 0; files_uploaded = 0; files_deleted = 0; errors = [] }

-- What the loops of `sync` update: its result, the number of items that are in sync, and the session.
pub record Progress : Type 0 where
  pub result : SyncResult
  pub items_synced : ℕ
  pub session : SyncSession

abbrev add_download : SyncResult → SyncResult
add_download r = record r { files_downloaded = (r.files_downloaded + 1) % u32_mod }

abbrev add_upload : SyncResult → SyncResult
add_upload r = record r { files_uploaded = (r.files_uploaded + 1) % u32_mod }

abbrev add_delete : SyncResult → SyncResult
add_delete r = record r { files_deleted = (r.files_deleted + 1) % u32_mod }

abbrev pub add_error : SyncResult → ItemError → SyncResult
add_error r e = record r { errors = r.errors ++ (e ∷ []) }

abbrev synced : Progress → (SyncResult → SyncResult) → Progress
synced p add = record {
  result = add p.result;
  items_synced = (p.items_synced + 1) % u64_mod;
  session = record_success p.session;
}

abbrev failed_with : Progress → ItemError → Progress
failed_with p e = record {
  result = add_error p.result e;
  items_synced = p.items_synced;
  session = record_failure p.session;
}

-- What the loop over the remote items does with the outcome of one of them.
unfoldable pub count_delta : DeltaItem → Result Text DeltaAction → Progress → Progress
count_delta item (ok downloaded) p = synced p add_download
count_delta item (ok updated) p = synced p add_download
count_delta item (ok deleted) p = synced p add_delete
count_delta item (ok skipped) p = record p { session = record_success p.session }
count_delta item (err e) p = failed_with p (delta_item_failed item.name item.id e)

-- What the loop over the local changes does with the outcome of one of them.
unfoldable pub count_change : LocalChange → Result Text (Unit {0}) → Progress → Progress
count_change (created path) (ok u) p = synced p add_upload
count_change (created path) (err e) p = failed_with p (new_file_failed path e)
count_change (changed path item) (ok u) p = synced p add_upload
count_change (changed path item) (err e) p = failed_with p (modified_file_failed path e)
count_change (gone item) (ok u) p = synced p add_delete
count_change (gone item) (err e) p = failed_with p (remote_delete_failed item.local_path e)

module _ (ports : Ports) where
  open ports use {World}

  infixl 5 ◌>>=◌ ◌>>◌
  abbrev ◌>>=◌ : {A B : Type 0} → M ports A → (A → M ports B) → M ports B
  ◌>>=◌ = bind ports

  abbrev ◌>>◌ : {A B : Type 0} → M ports A → M ports B → M ports B
  m >> k = m >>= λ _. k

  unfoldable pub process_delta_items :
      List DeltaItem → SyncPath → Progress → World → World × Progress
  process_delta_items [] sync_root p w = (w, p)
  process_delta_items (item ∷ items) sync_root p w =
      let r = process_delta_item ports item sync_root w in
      process_delta_items items sync_root (count_delta item r.1 p) r.0

  unfoldable pub process_change : SyncEngine → SyncPath → LocalChange → M ports (Unit {0})
  process_change engine sync_root (created path) = handle_local_create ports engine path sync_root
  process_change engine sync_root (changed path item) =
      handle_local_update ports engine path item sync_root
  process_change engine sync_root (gone item) = handle_local_delete ports item

  unfoldable pub process_changes :
      SyncEngine → List LocalChange → SyncPath → Progress → World → World × Progress
  process_changes engine [] sync_root p w = (w, p)
  process_changes engine (change ∷ changes) sync_root p w =
      let r = process_change engine sync_root change w in
      process_changes engine changes sync_root (count_change change r.1 p) r.0

  -- Steps 5 and 6: a scan that fails is an error of the result, and no change.
  abbrev scan_and_process :
      SyncEngine → SyncPath → Progress → World × Result Text (List LocalChange) → World × Progress
  scan_and_process engine sync_root p (w, ok changes) = process_changes engine changes sync_root p w
  scan_and_process engine sync_root p (w, err e) =
      (w, record p { result = add_error p.result (scan_failed e) })

  -- Steps 4 to 6; `depth` bounds how deep the scan goes.
  unfoldable pub process_all :
      SyncEngine → ℕ → List DeltaItem → Account → Progress → World → World × Progress
  unfolding process_delta_items process_changes
  process_all engine depth items account p w =
      let r = process_delta_items items account.sync_root p w in
      scan_and_process engine account.sync_root r.1
        (scan_local_changes ports depth account.sync_root account.last_sync r.0)

  -- Step 3, when the query has failed.
  abbrev pub query_failed : {A : Type 0} → Text → Text → SyncSession → Text → M ports A
  query_failed reason c session e = do
    now ← read_clock ports
    attempt ports (ports.save_session (Session.fail session (reason ++ e) now))
    λ w. (w, err (c ++ codes ": " ++ e))

  abbrev pub full_resync :
      SyncSession → Account → Result Text DeltaResponse → M ports (Account × DeltaResponse)
  full_resync session account (ok response) = pure ports (account, response)
  full_resync session account (err e) =
      query_failed (codes "Failed to query delta (full resync): ")
        (codes "Delta query failed (full resync)") session e

  abbrev pub after_query :
      SyncSession → Account → Result Text DeltaResponse → M ports (Account × DeltaResponse)
  after_query session account (ok response) = pure ports (account, response)
  after_query session account (err e) =
      if contains e (codes "410") || contains e (codes "Gone")
      then (do
        context ports (codes "Failed to save account after clearing delta token")
            (ports.save_account (Account.clear_delta_token account))
        response ← attempt ports (with_retry ports (ports.get_delta none))
        full_resync session (Account.clear_delta_token account) response)
      else query_failed (codes "Failed to query delta: ") (codes "Delta query failed") session e

  unfoldable pub query_delta : SyncSession → Account → M ports (Account × DeltaResponse)
  query_delta session account = do
    response ← attempt ports (with_retry ports (ports.get_delta account.delta_token))
    after_query session account response

  -- Step 7: the new token is the one of the delta link, or the whole link.
  abbrev pub token_of : Text → Result DomainError DeltaToken
  token_of delta_link = elim (ports.query_token delta_link) [
    | none ↦ new_delta_token delta_link
    | some token ↦ new_delta_token token
  ]

  abbrev pub store_token :
      SyncSession → Account → Result DomainError DeltaToken → M ports SyncSession
  store_token session account (err e) = pure ports session
  store_token session account (ok token) = do
    now ← read_clock ports
    context ports (codes "Failed to save updated account")
        (ports.save_account (Account.record_sync (Account.update_delta_token account token) now))
    pure ports (set_delta_token_end session token)

  abbrev pub update_token : SyncSession → Account → Option Text → M ports SyncSession
  update_token session account none = pure ports session
  update_token session account (some delta_link) = store_token session account (token_of delta_link)

  -- Steps 7 and 8.
  unfoldable pub finish : Account → Option Text → Progress → M ports SyncResult
  finish account delta_link p = do
    session ← update_token (set_items_synced p.session p.items_synced) account delta_link
    now ← read_clock ports
    context ports (codes "Failed to save completed session")
        (ports.save_session (Session.complete session now))
    pure ports p.result

  abbrev pub with_start : SyncSession → Option DeltaToken → SyncSession
  with_start session none = session
  with_start session (some token) = set_delta_token_start session token

  unfoldable pub sync : SyncEngine → ℕ → M ports SyncResult
  unfolding process_all query_delta finish
  sync engine depth = do
    default_account ←
        context ports (codes "Failed to query default account") ports.get_default_account
    account ←
        lift_option ports (codes "No account configured. Run 'lnxdrive auth login' first.")
          default_account
    id ← fresh_id ports
    started_at ← read_clock ports
    context ports (codes "Failed to save initial sync session")
        (ports.save_session (Session.new id account.id started_at))
    queried ←
        query_delta (with_start (Session.new id account.id started_at) account.delta_token) account
    p ← (λ w.
        let r =
          process_all engine depth queried.1.items queried.0
            (record {
              result = no_result;
              items_synced = 0;
              session =
                  set_items_checked
                    (with_start (Session.new id account.id started_at) account.delta_token)
                    (length queried.1.items);
            })
            w in
        (r.0, ok r.1))
    finish queried.0 queried.1.delta_link p
