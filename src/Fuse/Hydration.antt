-- ===== src/Fuse/Hydration.antt =====
-- Downloads on demand: the requests and the manager of crates/lnxdrive-fuse/src/hydration.rs. The map of
-- active downloads, the repository and the files of the cache are one state, and each method is the
-- change that it makes; the clock is read once for each. Where a method waits for a progress, other
-- tasks go on: what they do, and which values a receiver sees until the channel closes, is a parameter.
-- The cancellation token and the semaphore are seen by the task only, in Hydration/Download.antt.
use lnxdrive.Prelude.{
  ℕ, zero, suc, ◌+◌, ◌-◌, ◌*◌, ◌/◌, ◌%◌, ◌^◌, ◌==◌, min, leb, Bool, true, false, if◌then◌else◌,
  Option, none, some, List, [], ◌∷◌, ◌++◌, length, is_some, Text, codes, decimal, Result, ok, err,
}
use lnxdrive.Core.Ids.{UniqueId, RemoteId}
use lnxdrive.Core.ItemState.{
  ItemState, online, hydrating, hydrated, pinned, modified, conflicted, error, deleted, is_pinned,
  name,
}
use lnxdrive.Core.Time.{DateTime}
use lnxdrive.Cache.Repository.{Repository}
use lnxdrive.Fuse.ContentCache.{Files, remove_file}
use lnxdrive.Fuse.Error.{
  FuseError, not_found, invalid_argument, database_error, hydration_failed, to_string,
}
use lnxdrive.Fuse.InodeEntry.{InodeEntry, FileType, directory, regular_file}
use lnxdrive.Fuse.InodeTable
use lnxdrive.Fuse.InodeTable.{InodeTable}
use lnxdrive.Fuse.Maps
use lnxdrive.Fuse.WriteSerializer.{
  Reply, done, inode, update_state, update_hydration_progress, process_operation,
}
pub mod Recursive
pub mod Download
pub mod Chunks
pub mod Whole
pub mod Manager
pub mod Walks
pub mod Progress

pub data HydrationPriority : Type 0 where
  prefetch pin_request user_open : HydrationPriority

-- `watched` is the value that the progress channel holds.
pub record HydrationRequest : Type 0 where
  pub ino : ℕ
  pub item_id : UniqueId
  pub remote_id : RemoteId
  pub total_size : ℕ
  pub downloaded : ℕ
  pub cache_path : Text
  pub priority : HydrationPriority
  pub created_at : DateTime
  pub watched : ℕ

unfoldable pub new :
    ℕ → UniqueId → RemoteId → ℕ → Text → HydrationPriority → DateTime → HydrationRequest
new ino item_id remote_id total_size cache_path priority now = record {
  ino = ino;
  item_id = item_id;
  remote_id = remote_id;
  total_size = total_size;
  downloaded = 0;
  cache_path = cache_path;
  priority = priority;
  created_at = now;
  watched = 0;
}

-- The product wraps around, as in a build that does not check for overflow.
unfoldable pub progress : HydrationRequest → ℕ
progress self =
    if self.total_size == 0 then 100 else min (self.downloaded * 100 % 2 ^ 64 / self.total_size) 100

unfoldable pub add_downloaded : HydrationRequest → ℕ → HydrationRequest
unfolding progress
add_downloaded self bytes =
    let counted = record self { downloaded = (self.downloaded + bytes) % 2 ^ 64 } in
    record counted { watched = progress counted }

unfoldable pub mark_complete : HydrationRequest → HydrationRequest
mark_complete self = record self { downloaded = self.total_size; watched = 100 }

pub record Hydrations : Type 0 where
  pub active : List (ℕ × HydrationRequest)
  pub repository : Repository
  pub files : Files

-- What an operation of the queue answers to a caller who waits for it.
abbrev pub answer : Reply → Result FuseError (Unit {0})
answer (done result) = result
answer (inode n) = ok tt

abbrev pub Answered : Type 0
Answered = Hydrations × Result FuseError (Unit {0})

abbrev pub to_state : Hydrations → DateTime → UniqueId → ItemState → Answered
to_state self now item_id state =
    let next = process_operation self.repository now (update_state item_id state) in
    (record self { repository = next.0 }, answer next.1)

abbrev pub to_progress : Hydrations → DateTime → UniqueId → Option ℕ → Hydrations
to_progress self now item_id value = record self {
  repository = (process_operation self.repository now (update_hydration_progress item_id value)).0;
}

-- `hydrate` up to the start of the task: the request that the task gets, if one starts, and the current
-- value of the receiver that is returned.
abbrev Started : Type 0
Started = Hydrations × Option HydrationRequest × Result FuseError ℕ

abbrev pub begun : HydrationRequest → Answered → Started
begun request (self, err e) = (self, none, err e)
begun request (self, ok _) = (self, some request, ok 0)

module _ (hash_remote_id : RemoteId → Text) where
  unfoldable pub begin :
      Hydrations → DateTime → ℕ → UniqueId → RemoteId → ℕ → HydrationPriority → Started
  unfolding new
  begin self now ino item_id remote_id total_size priority = elim (Maps.get self.active ino) [
    | some request ↦ (self, none, ok request.watched)
    | none ↦
        begun (new ino item_id remote_id total_size (hash_remote_id remote_id) priority now)
          (to_state self now item_id hydrating)
  ]

-- The rest of `hydrate`, after the start of the task.
abbrev pub register : Started → Hydrations × Result FuseError ℕ
register (self, none, result) = (self, result)
register (self, some request, result) =
    (record self { active = Maps.insert self.active request.ino request }, result)

-- What the task does when the download has ended.
abbrev concluded : Hydrations → DateTime → UniqueId → Result FuseError (Unit {0}) → Hydrations
concluded self now item_id (ok _) =
    to_progress (to_state self now item_id hydrated).0 now item_id none
concluded self now item_id (err e) = (to_state self now item_id (error (to_string e))).0

unfoldable pub finish :
    Hydrations → DateTime → ℕ → UniqueId → Result FuseError (Unit {0}) → Hydrations
finish self now ino item_id result =
    let settled = concluded self now item_id result in
    record settled { active = Maps.remove settled.active ino }

unfoldable pub is_hydrating : Hydrations → ℕ → Bool
is_hydrating self ino = is_some (Maps.get self.active ino)

unfoldable pub progress_of : Hydrations → ℕ → Option ℕ
unfolding progress
progress_of self ino = elim (Maps.get self.active ino) [
  | none ↦ none
  | some request ↦ some (progress request)
]

unfoldable pub active_count : Hydrations → ℕ
active_count self = length self.active

-- `rx.borrow()` and `rx.changed()`: the values seen one after the other, until the channel is closed.
abbrev pub reached : ℕ → List ℕ → Result FuseError (Unit {0})
reached required [] = err (hydration_failed (codes "Hydration channel closed"))
reached required (value ∷ values) =
    let rest = reached required values in if leb required value then ok tt else rest

-- The progress to wait for; the product wraps around.
unfoldable pub required_progress : ℕ → ℕ → ℕ → ℕ
required_progress total_size offset size =
    let range_end = min (offset + size) (2 ^ 64 - 1) in
    if total_size == 0 then 100 else min (range_end * 100 % 2 ^ 64 / total_size) 100

abbrev pub no_active : ℕ → FuseError
no_active ino = not_found (codes "No active hydration for inode " ++ decimal ino)

abbrev partial_of : HydrationRequest → Text
partial_of request = request.cache_path ++ codes ".partial"

unfoldable pub cancel : Hydrations → DateTime → ℕ → Hydrations
unfolding remove_file
cancel self now ino = elim (Maps.get self.active ino) [
  | none ↦ self
  | some request ↦
      let removed = record self {
        active = Maps.remove self.active ino;
        files = remove_file self.files (partial_of request);
      } in
      to_progress (to_state removed now request.item_id online).0 now request.item_id none
]

abbrev pub in_database : Answered → Answered
in_database (self, ok _) = (self, ok tt)
in_database (self, err e) = (self, err (database_error (to_string e)))

abbrev pub to_pinned : Hydrations → DateTime → UniqueId → Answered
to_pinned self now item_id = in_database (to_state self now item_id pinned)

unfoldable pub unpin : Hydrations → DateTime → UniqueId → ItemState → Answered
unpin self now item_id pinned = in_database (to_state self now item_id hydrated)
unpin self now item_id _ = (self, ok tt)

module _ (others : ℕ → Hydrations → Hydrations × List ℕ) where
  abbrev waited : Hydrations → ℕ → ℕ → HydrationRequest → Answered
  waited self required ino request =
      let seen = others ino self in (seen.0, reached required (request.watched ∷ seen.1))

  unfoldable pub wait_for_completion : Hydrations → ℕ → Answered
  wait_for_completion self ino = elim (Maps.get self.active ino) [
    | none ↦ (self, err (no_active ino))
    | some request ↦ waited self 100 ino request
  ]

  unfoldable pub wait_for_range : Hydrations → ℕ → ℕ → ℕ → Answered
  unfolding required_progress
  wait_for_range self ino offset size = elim (Maps.get self.active ino) [
    | none ↦ (self, err (no_active ino))
    | some request ↦ waited self (required_progress request.total_size offset size) ino request
  ]

  abbrev completed : DateTime → UniqueId → Answered → Answered
  completed now item_id (self, err e) = (self, err e)
  completed now item_id (self, ok _) = to_pinned self now item_id

  abbrev pub pin_complete : Hydrations → DateTime → ℕ → UniqueId → Answered
  pin_complete self now ino item_id = completed now item_id (wait_for_completion self ino)

  abbrev pin_started : DateTime → ℕ → UniqueId → Hydrations × Result FuseError ℕ → Answered
  pin_started now ino item_id (self, err e) = (self, err e)
  pin_started now ino item_id (self, ok _) = pin_complete self now ino item_id

  module _ (hash_remote_id : RemoteId → Text) (state_text : ItemState → Text) where
    abbrev refused : Hydrations → ItemState → Answered
    refused self state =
        (self, err (invalid_argument (codes "Cannot pin file in state " ++ state_text state)))

    unfoldable pub pin : Hydrations → DateTime → ℕ → UniqueId → RemoteId → ℕ → ItemState → Answered
    unfolding begin
    pin self now ino item_id remote_id total_size pinned = (self, ok tt)
    pin self now ino item_id remote_id total_size online =
        pin_started now ino item_id
          (register (begin hash_remote_id self now ino item_id remote_id total_size pin_request))
    pin self now ino item_id remote_id total_size hydrating = pin_complete self now ino item_id
    pin self now ino item_id remote_id total_size hydrated = to_pinned self now item_id
    pin self now ino item_id remote_id total_size modified = to_pinned self now item_id
    pin self now ino item_id remote_id total_size conflicted = refused self conflicted
    pin self now ino item_id remote_id total_size (error reason) = refused self (error reason)
    pin self now ino item_id remote_id total_size deleted = refused self deleted
