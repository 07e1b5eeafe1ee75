-- ===== src/Core/Transition/Invariant.antt =====
-- The methods of `SyncItem` that change the state, as one call, and what they all keep. Of
-- `reset_state_for_crash_recovery` only the calls with a target other than an error are among them: with an error
-- as its target it leaves an item in that state without error information.
use lnxdrive.Prelude.{◌≡◌, true, false, Option, none, some, is_some, ok, err, arith, codes}
use lnxdrive.Core.Time.{DateTime}
use lnxdrive.Core.ErrorInfo
use lnxdrive.Core.ErrorInfo.{ErrorInfo}
use lnxdrive.Core.ItemState.{ItemState, hydrating, hydrated, error, is_error, name}
use lnxdrive.Core.Error.{invalid_state}
use lnxdrive.Core.SyncItem.{SyncItem}
use lnxdrive.Core.Transition.{
  Outcome, can_transition, transition_to, transition_to_error, start_hydrating, complete_hydration,
  pin, unpin, dehydrate, mark_modified, mark_conflicted, mark_deleted, resolve_conflict,
  complete_sync, retry_to, reset_state_for_crash_recovery,
}

pub data Call : Type 0 where
  to_state retrying : ItemState → Call
  to_error : ErrorInfo → Call
  hydration_start hydration_end pinning unpinning dehydration modification conflict : Call
  deletion resolution synchronisation : Call
  recovery : (target : ItemState) → is_error target ≡ false → Call

pub apply : Call → SyncItem → DateTime → Outcome
apply (to_state target) self now = transition_to self target now
apply (retrying target) self now = retry_to self target now
apply (to_error info) self now = transition_to_error self info
apply hydration_start self now = start_hydrating self now
apply hydration_end self now = complete_hydration self now
apply pinning self now = pin self now
apply unpinning self now = unpin self now
apply dehydration self now = dehydrate self now
apply modification self now = mark_modified self now
apply conflict self now = mark_conflicted self now
apply deletion self now = mark_deleted self now
apply resolution self now = resolve_conflict self now
apply synchronisation self now = complete_sync self now
apply (recovery target fine) self now = (reset_state_for_crash_recovery self target, ok tt)

-- An item holds error information exactly in the error state.
pub record IsValid (self : SyncItem) : Type 0 where
  pub error_known : is_some self.error_info ≡ is_error self.state

transition_to-IsValid :
    (self : SyncItem) (target : ItemState) (now : DateTime)
    → IsValid self
    → IsValid (transition_to self target now).0
unfolding transition_to
transition_to-IsValid self target now v = ground arith

-- Every call keeps the invariant, whether it succeeds or fails.
pub apply-IsValid :
    (call : Call) (self : SyncItem) (now : DateTime)
    → IsValid self
    → IsValid (apply call self now).0
unfolding apply
apply-IsValid (to_state target) self now v = transition_to-IsValid self target now v
apply-IsValid (retrying target) self now v = unfold retry_to in ground arith
apply-IsValid (to_error info) self now v = unfold transition_to_error in ground arith
apply-IsValid hydration_start self now v = unfold start_hydrating in ground arith
apply-IsValid hydration_end self now v = unfold complete_hydration in ground arith
apply-IsValid pinning self now v = unfold pin in ground arith
apply-IsValid unpinning self now v = unfold unpin in ground arith
apply-IsValid dehydration self now v = unfold dehydrate in ground arith
apply-IsValid modification self now v = unfold mark_modified in ground arith
apply-IsValid conflict self now v = unfold mark_conflicted in ground arith
apply-IsValid deletion self now v = unfold mark_deleted in ground arith
apply-IsValid resolution self now v = unfold resolve_conflict in ground arith
apply-IsValid synchronisation self now v = unfold complete_sync in ground arith
apply-IsValid (recovery target fine) self now v =
    unfold reset_state_for_crash_recovery in ground arith

-- Crash recovery restores the invariant from any item at all, unless it is told to set an error.
pub reset_state_for_crash_recovery-IsValid :
    (self : SyncItem) (target : ItemState)
    → is_error target ≡ false
    → IsValid (reset_state_for_crash_recovery self target)
      × ((reset_state_for_crash_recovery self target).state ≡ target)
unfolding reset_state_for_crash_recovery
reset_state_for_crash_recovery-IsValid self target h = ground arith

-- What no method of the state machine touches: identity, paths, hashes, size, metadata and inode.
pub record SameFile (self after : SyncItem) : Type 0 where
  pub id : after.id ≡ self.id
  pub local_path : after.local_path ≡ self.local_path
  pub remote_id : after.remote_id ≡ self.remote_id
  pub remote_path : after.remote_path ≡ self.remote_path
  pub content_hash : after.content_hash ≡ self.content_hash
  pub local_hash : after.local_hash ≡ self.local_hash
  pub size_bytes : after.size_bytes ≡ self.size_bytes
  pub metadata : after.metadata ≡ self.metadata
  pub inode : after.inode ≡ self.inode

transition_to-SameFile :
    (self : SyncItem) (target : ItemState) (now : DateTime)
    → SameFile self (transition_to self target now).0
unfolding transition_to
transition_to-SameFile self target now = ground arith

-- Every call leaves the file that the item stands for alone.
pub apply-SameFile :
    (call : Call) (self : SyncItem) (now : DateTime) → SameFile self (apply call self now).0
unfolding apply
apply-SameFile (to_state target) self now = transition_to-SameFile self target now
apply-SameFile (retrying target) self now = unfold retry_to in ground arith
apply-SameFile (to_error info) self now = unfold transition_to_error in ground arith
apply-SameFile hydration_start self now = unfold start_hydrating in ground arith
apply-SameFile hydration_end self now = unfold complete_hydration in ground arith
apply-SameFile pinning self now = unfold pin in ground arith
apply-SameFile unpinning self now = unfold unpin in ground arith
apply-SameFile dehydration self now = unfold dehydrate in ground arith
apply-SameFile modification self now = unfold mark_modified in ground arith
apply-SameFile conflict self now = unfold mark_conflicted in ground arith
apply-SameFile deletion self now = unfold mark_deleted in ground arith
apply-SameFile resolution self now = unfold resolve_conflict in ground arith
apply-SameFile synchronisation self now = unfold complete_sync in ground arith
apply-SameFile (recovery target fine) self now =
    unfold reset_state_for_crash_recovery in ground arith

-- The information that a retry from an error leaves: none, or, if the target is an error, a new one.
abbrev pub after_retry : ItemState → DateTime → Option ErrorInfo
after_retry (error reason) now = some (ErrorInfo.new (codes "UNKNOWN") reason now)
after_retry _ now = none

-- `retry_to` always succeeds from an error and counts the attempt in vain: what the item knew of its
-- error, the number of retries with it, is dropped by the transition.
pub retry_to_forgets :
    (self : SyncItem) (target : ItemState) (now : DateTime)
    → is_error self.state ≡ true
    → ((retry_to self target now).1 ≡ ok tt)
      × ((retry_to self target now).0.error_info ≡ after_retry target now)
unfolding retry_to can_transition
retry_to_forgets self target now h = ground arith

-- A refused `start_hydrating` or `complete_hydration` leaves the state and still overwrites the
-- progress of the item.
pub refused_hydration :
    (self : SyncItem) (now : DateTime)
    → can_transition self.state hydrating ≡ false
    → can_transition self.state hydrated ≡ false
    → (start_hydrating self now ≡ (
      record self { hydration_progress = some 0 },
      err (invalid_state (name self.state) (name hydrating)),
    ))
      × (complete_hydration self now ≡ (
        record self { hydration_progress = none },
        err (invalid_state (name self.state) (name hydrated)),
      ))
unfolding start_hydrating complete_hydration
refused_hydration self now h k = ground arith
