-- ===== src/Fuse/Hydration/Manager.antt =====
-- The states of items around a download, in crates/lnxdrive-fuse/src/hydration.rs: the order of the writes of
-- the manager, of the task that it starts, and of those who wait for it.
use lnxdrive.Prelude.{
  ℕ, ◌≡◌, ==_refl, true, false, refl, ap, ◌∙◌, Option, none, some, ◌++◌, Text, codes, Result, ok,
  err,
}
use lnxdrive.Core.Ids.{UniqueId, RemoteId}
use lnxdrive.Core.ItemState.{ItemState, online, hydrating, hydrated, pinned, error}
use lnxdrive.Core.Time.{DateTime}
use lnxdrive.Core.Transition.{can_transition}
use lnxdrive.Fuse.ContentCache.{find_file}
use lnxdrive.Fuse.ContentCache.Contents.{find_file-removed}
use lnxdrive.Fuse.Error.{FuseError, to_string}
use lnxdrive.Fuse.Hydration.{
  new, Hydrations, HydrationRequest, HydrationPriority, begin, register, finish, is_hydrating,
  cancel, to_pinned, concluded,
}
use lnxdrive.Fuse.Maps
use lnxdrive.Fuse.Maps.{get-remove, get-insert}
use lnxdrive.Fuse.WriteSerializer.{process_operation, update_state}
use lnxdrive.Fuse.WriteSerializer.States.{
  stored_state, update_state_makes, update_state_keeps, progress_keeps_state,
}

abbrev pub state_in : Hydrations → UniqueId → Option ItemState
state_in self id = stored_state self.repository id

-- The state after a download with this result.
abbrev pub downloaded_state : Result FuseError (Unit {0}) → ItemState
downloaded_state (ok _) = hydrated
downloaded_state (err e) = error (to_string e)

concluded_state :
    (self : Hydrations) (now : DateTime) (id : UniqueId) (from : ItemState)
    (result : Result FuseError (Unit {0}))
    → state_in self id ≡ some from
    → can_transition from hydrated ≡ true
    → can_transition from (downloaded_state result) ≡ true
    → state_in (concluded self now id result) id ≡ some (downloaded_state result)
unfolding can_transition
concluded_state self now id from (ok _) stored allowed allowed' =
    progress_keeps_state (process_operation self.repository now (update_state id hydrated)).0 now id
      id none
    ∙ (update_state_makes self.repository now id from hydrated stored allowed).0
concluded_state self now id from (err e) stored allowed allowed' =
    (update_state_makes self.repository now id from (error (to_string e)) stored allowed').0

finish_state :
    (self : Hydrations) (now : DateTime) (ino : ℕ) (id : UniqueId) (from : ItemState)
    (result : Result FuseError (Unit {0}))
    → state_in self id ≡ some from
    → can_transition from hydrated ≡ true
    → can_transition from (downloaded_state result) ≡ true
    → (state_in (finish self now ino id result) id ≡ some (downloaded_state result))
      × (is_hydrating (finish self now ino id result) ino ≡ false)
unfolding finish is_hydrating
finish_state self now ino id from result stored allowed allowed' = (
  concluded_state self now id from result stored allowed allowed',
  rw (get-remove (concluded self now id result).active ino ino, ==_refl ino) refl,
)

abbrev ino_of : ℕ → Option HydrationRequest → ℕ
ino_of ino none = ino
ino_of ino (some request) = request.ino

allowed :
    (result : Result FuseError (Unit {0}))
    → can_transition hydrating (downloaded_state result) ≡ true
unfolding can_transition
allowed (ok _) = refl
allowed (err e) = refl

-- How `hydrate` has started a task.
record IsBegun (self after : Hydrations) (id : UniqueId) (ino : ℕ)
    (spawned : Option HydrationRequest) (result : Result FuseError ℕ) : Type 0 where
  request : HydrationRequest
  starts : spawned ≡ some request
  same_ino : request.ino ≡ ino
  returns : result ≡ ok 0
  stored : state_in after id ≡ some hydrating
  same_active : after.active ≡ self.active

begun_registers :
    {self : Hydrations} (after : Hydrations) {id : UniqueId} {ino : ℕ}
    (spawned : Option HydrationRequest) (result : Result FuseError ℕ)
    → IsBegun self after id ino spawned result
    → ((register (after, spawned, result)).1 ≡ ok 0)
      × (is_hydrating (register (after, spawned, result)).0 ino ≡ true)
      × (state_in (register (after, spawned, result)).0 id ≡ some hydrating)
unfolding is_hydrating
begun_registers after none result b = absurd (cc b.starts)
begun_registers after {ino = ino} (some request) result b =
    let same : request.ino ≡ ino =
      ap (λ (o : Option HydrationRequest). ino_of ino o) b.starts ∙ b.same_ino in
    (
      b.returns,
      rw (get-insert after.active request.ino ino request, same, ==_refl ino) refl,
      b.stored,
    )

module _ (hash : RemoteId → Text) (ino : ℕ) (id : UniqueId) (remote_id : RemoteId) (size : ℕ)
    (priority : HydrationPriority) where
  abbrev started : Hydrations → DateTime → Hydrations × Option HydrationRequest × Result FuseError ℕ
  started self now = begin hash self now ino id remote_id size priority

  begin_starts :
      (self : Hydrations) (now : DateTime)
      → Maps.get self.active ino ≡ none
      → state_in self id ≡ some online
      → IsBegun self (started self now).0 id ino (started self now).1 (started self now).2
  unfolding begin new can_transition
  begin_starts self now fresh stored =
      let (made, answered) =
        update_state_makes self.repository now id online hydrating stored refl in
      rw (begin, fresh, answered)
        (record {
          request = new ino id remote_id size (hash remote_id) priority now;
          starts = refl;
          same_ino = refl;
          returns = refl;
          stored = made;
          same_active = refl;
        })

  -- What the task does at its end, before `hydrate` has entered the download.
  abbrev finished_first :
      DateTime
      → Result FuseError (Unit {0})
      → Hydrations × Option HydrationRequest × Result FuseError ℕ
      → Hydrations × Option HydrationRequest × Result FuseError ℕ
  finished_first later result (self, spawned, returned) =
      (finish self later ino id result, spawned, returned)

  ends_first :
      {self : Hydrations} (after : Hydrations) (later : DateTime)
      (result : Result FuseError (Unit {0})) (spawned : Option HydrationRequest)
      (returned : Result FuseError ℕ)
      → IsBegun self after id ino spawned returned
      → (state_in (register (finished_first later result (after, spawned, returned))).0 id
          ≡ some (downloaded_state result))
        × (is_hydrating (register (finished_first later result (after, spawned, returned))).0 ino
            ≡ true)
  unfolding is_hydrating can_transition
  ends_first after later result none returned b = absurd (cc b.starts)
  ends_first after later result (some request) returned b =
      let same : request.ino ≡ ino =
        ap (λ (o : Option HydrationRequest). ino_of ino o) b.starts ∙ b.same_ino in
      let ended = finish after later ino id result in
      (
        (finish_state after later ino id hydrating result b.stored refl (allowed result)).0,
        rw (get-insert ended.active request.ino ino request, same, ==_refl ino) refl,
      )

  -- For an item that is stored as online and has no active download, `hydrate` succeeds, and behind the end of the
  -- download the item is stored as hydrated after a success and with the error after a failure. Where
  -- `hydrate` enters the download before the task ends, no download is active then; where the task ends
  -- first, the download that has ended stays among the active ones.
  pub hydrate_finishes :
      (self : Hydrations) (now later : DateTime) (result : Result FuseError (Unit {0}))
      → Maps.get self.active ino ≡ none
      → state_in self id ≡ some online
      → ((register (started self now)).1 ≡ ok 0)
        × (is_hydrating (register (started self now)).0 ino ≡ true)
        × (state_in (finish (register (started self now)).0 later ino id result) id
            ≡ some (downloaded_state result))
        × (is_hydrating (finish (register (started self now)).0 later ino id result) ino ≡ false)
        × (state_in (register (finished_first later result (started self now))).0 id
            ≡ some (downloaded_state result))
        × (is_hydrating (register (finished_first later result (started self now))).0 ino ≡ true)
  unfolding is_hydrating can_transition
  hydrate_finishes self now later result fresh stored =
      let (returned, active, state) =
        begun_registers (started self now).0 (started self now).1 (started self now).2
          (begin_starts self now fresh stored) in
      let (settled, gone) =
        finish_state (register (started self now)).0 later ino id hydrating result state refl
          (allowed result) in
      let (early, stale) =
        ends_first (started self now).0 later result (started self now).1 (started self now).2
          (begin_starts self now fresh stored) in
      (returned, active, settled, gone, early, stale)

  begin_refused :
      (self : Hydrations) (now : DateTime)
      → Maps.get self.active ino ≡ none
      → state_in self id ≡ some hydrating
      → (e : FuseError) × (started self now ≡ (self, none, err e))
  unfolding can_transition begin new
  begin_refused self now fresh stored =
      let (e, refused) =
        update_state_keeps self.repository now id hydrating hydrating stored refl in
      (e, rw (begin, fresh, refused) refl)

  -- While an item is stored as online and no download of it is active, of two calls of `hydrate` that both look for
  -- an active download before either has entered its own, the second fails and starts no task.
  pub second_begin_fails :
      (self : Hydrations) (now later : DateTime)
      → Maps.get self.active ino ≡ none
      → state_in self id ≡ some online
      → (e : FuseError) × (started (started self now).0 later ≡ ((started self now).0, none, err e))
  second_begin_fails self now later fresh stored =
      let first = begin_starts self now fresh stored in
      begin_refused (started self now).0 later
        (ap (λ active. Maps.get active ino) first.same_active ∙ fresh) first.stored

-- While an item is stored as hydrating, cancelling its download removes the download from the active ones and the
-- partial file, and leaves the item stored as hydrating.
pub cancel_leaves_hydrating :
    (self : Hydrations) (now : DateTime) (ino : ℕ) (request : HydrationRequest)
    → Maps.get self.active ino ≡ some request
    → state_in self request.item_id ≡ some hydrating
    → (state_in (cancel self now ino) request.item_id ≡ some hydrating)
      × (is_hydrating (cancel self now ino) ino ≡ false)
      × (find_file (cancel self now ino).files (request.cache_path ++ codes ".partial") ≡ none)
unfolding cancel is_hydrating can_transition
cancel_leaves_hydrating self now ino request active stored =
    let (e, refused) =
      update_state_keeps self.repository now request.item_id hydrating online stored refl in
    rw (cancel, active, refused)
      (
        progress_keeps_state self.repository now request.item_id request.item_id none ∙ stored,
        rw (get-remove self.active ino ino, ==_refl ino) refl,
        find_file-removed self.files (request.cache_path ++ codes ".partial"),
      )

pinned_state :
    (self : Hydrations) (now : DateTime) (id : UniqueId) (from : ItemState)
    → state_in self id ≡ some from
    → can_transition from pinned ≡ true
    → (state_in (to_pinned self now id).0 id ≡ some pinned) × ((to_pinned self now id).1 ≡ ok tt)
pinned_state self now id from stored allowed =
    let (made, succeeds) = update_state_makes self.repository now id from pinned stored allowed in
    rw (to_pinned, succeeds) (made, refl)

-- For an item that is stored as hydrating, the write of a pin succeeds. Where the task's writes at the end of a
-- download that succeeds come before it, the item is stored as pinned in the end; where they come
-- behind it, the item is stored as hydrated.
pub pin_order :
    (self : Hydrations) (now later : DateTime) (ino : ℕ) (id : UniqueId)
    → state_in self id ≡ some hydrating
    → ((to_pinned self now id).1 ≡ ok tt)
      × (state_in (to_pinned (finish self now ino id (ok tt)) later id).0 id ≡ some pinned)
      × (state_in (finish (to_pinned self now id).0 later ino id (ok tt)) id ≡ some hydrated)
unfolding can_transition
pin_order self now later ino id stored =
    let finished = (finish_state self now ino id hydrating (ok tt) stored refl refl).0 in
    let (before, succeeds) = pinned_state self now id hydrating stored refl in
    (
      succeeds,
      (pinned_state (finish self now ino id (ok tt)) later id hydrated finished refl).0,
      (finish_state (to_pinned self now id).0 later ino id pinned (ok tt) before refl refl).0,
    )
