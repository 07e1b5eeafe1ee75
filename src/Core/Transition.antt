-- ===== src/Core/Transition.antt =====
-- The state transitions of `SyncItem`, in crates/lnxdrive-core/src/domain/sync_item.rs. A method
-- returns the new item beside its result: after an error the item keeps what was written before.
use lnxdrive.Prelude.{
  Bool, true, false, not, if◌then◌else◌, Option, none, some, codes, Result, ok, err,
}
use lnxdrive.Core.Error.{DomainError, invalid_state}
use lnxdrive.Core.Time.{DateTime}
use lnxdrive.Core.ErrorInfo
use lnxdrive.Core.ErrorInfo.{ErrorInfo, record_retry}
use lnxdrive.Core.ItemState.{
  ItemState, online, hydrating, hydrated, pinned, modified, conflicted, error, deleted, is_error,
  is_deleted, is_hydrated, is_pinned, name,
}
use lnxdrive.Core.SyncItem.{SyncItem}
pub mod Diagram
pub mod Invariant
pub mod Traces

-- The table of `can_transition_to`, behind its two early returns.
unfoldable pub transition_table : ItemState → ItemState → Bool
transition_table online hydrating = true
transition_table online (error _) = true
transition_table online deleted = true
transition_table hydrating hydrated = true
transition_table hydrating pinned = true
transition_table hydrating (error _) = true
transition_table hydrated modified = true
transition_table hydrated pinned = true
transition_table hydrated online = true
transition_table hydrated (error _) = true
transition_table hydrated deleted = true
transition_table pinned hydrated = true
transition_table pinned modified = true
transition_table pinned (error _) = true
transition_table pinned deleted = true
transition_table modified hydrated = true
transition_table modified pinned = true
transition_table modified conflicted = true
transition_table modified (error _) = true
transition_table conflicted hydrated = true
transition_table conflicted pinned = true
transition_table conflicted (error _) = true
transition_table _ _ = false

unfoldable pub can_transition : ItemState → ItemState → Bool
unfolding transition_table
can_transition state target =
    if is_deleted state
    then false
    else if is_error state
    then true
    else transition_table state target

unfoldable pub can_transition_to : SyncItem → ItemState → Bool
can_transition_to self target = can_transition self.state target

abbrev pub Outcome : Type 0
Outcome = SyncItem × Result DomainError (Unit {0})

abbrev pub refuse : SyncItem → ItemState → Outcome
refuse self target = (self, err (invalid_state (name self.state) (name target)))

-- The error information after the two writes of `transition_to`.
abbrev pub cleared : ItemState → Option ErrorInfo → Option ErrorInfo
cleared state info = if is_error state then none else info

abbrev pub recorded : ItemState → DateTime → Option ErrorInfo → Option ErrorInfo
recorded (error reason) now none = some (ErrorInfo.new (codes "UNKNOWN") reason now)
recorded _ now info = info

abbrev pub synced_at : ItemState → ItemState → DateTime → Option DateTime → Option DateTime
synced_at modified hydrated now last = some now
synced_at _ _ now last = last

unfoldable pub transition_to : SyncItem → ItemState → DateTime → Outcome
unfolding can_transition_to
transition_to self target now =
    if not (can_transition_to self target) then refuse self target else (
      record self {
        error_info = recorded target now (cleared self.state self.error_info);
        last_sync = synced_at self.state target now self.last_sync;
        state = target;
      },
      ok tt,
    )

unfoldable pub transition_to_error : SyncItem → ErrorInfo → Outcome
unfolding can_transition_to
transition_to_error self info =
    let target : ItemState = error info.message in
    if not (can_transition_to self target)
    then refuse self target
    else (record self { error_info = some info; state = target }, ok tt)

unfoldable pub start_hydrating : SyncItem → DateTime → Outcome
unfolding transition_to
start_hydrating self now = transition_to (record self { hydration_progress = some 0 }) hydrating now

unfoldable pub complete_hydration : SyncItem → DateTime → Outcome
unfolding transition_to
complete_hydration self now = transition_to (record self { hydration_progress = none }) hydrated now

unfoldable pub pin : SyncItem → DateTime → Outcome
unfolding transition_to
pin self now =
    if not (is_hydrated self.state) then refuse self pinned else transition_to self pinned now

unfoldable pub unpin : SyncItem → DateTime → Outcome
unfolding transition_to is_pinned
unpin self now =
    if not (is_pinned self.state) then refuse self hydrated else transition_to self hydrated now

unfoldable pub dehydrate : SyncItem → DateTime → Outcome
unfolding transition_to
dehydrate self now = transition_to self online now

unfoldable pub mark_modified : SyncItem → DateTime → Outcome
unfolding transition_to
mark_modified self now = transition_to self modified now

unfoldable pub mark_conflicted : SyncItem → DateTime → Outcome
unfolding transition_to
mark_conflicted self now = transition_to self conflicted now

unfoldable pub mark_deleted : SyncItem → DateTime → Outcome
unfolding transition_to
mark_deleted self now = transition_to self deleted now

unfoldable pub resolve_conflict : SyncItem → DateTime → Outcome
unfolding transition_to
resolve_conflict self now = transition_to self hydrated now

unfoldable pub complete_sync : SyncItem → DateTime → Outcome
unfolding transition_to
complete_sync self now = transition_to self hydrated now

abbrev pub retried : DateTime → Option ErrorInfo → Option ErrorInfo
retried now none = none
retried now (some info) = some (record_retry info now)

unfoldable pub retry_to : SyncItem → ItemState → DateTime → Outcome
unfolding transition_to
retry_to self target now =
    if not (is_error self.state)
    then refuse self target
    else transition_to (record self { error_info = retried now self.error_info }) target now

unfoldable pub reset_state_for_crash_recovery : SyncItem → ItemState → SyncItem
reset_state_for_crash_recovery self target = record self {
  hydration_progress = none;
  error_info = none;
  state = target;
}
