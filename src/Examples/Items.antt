-- ===== src/Examples/Items.antt =====
-- Items, their transitions and their errors.
use lnxdrive.Prelude.{
  ℕ, ◌≡◌, ◌⊎◌, ◌↔◌, refl, true, false, none, some, [], ◌∷◌, codes, ok, err, pos, negsuc, ◌+ℤ◌, ◌*ℤ◌,
  ◌≤ℤ◌, arith,
}
use lnxdrive.Core.Error.{invalid_state}
use lnxdrive.Core.Time.{DateTime, Chrono}
use lnxdrive.Core.ErrorInfo.{ErrorInfo, multiplier, schedule_retry_exponential}
use lnxdrive.Core.ErrorInfo.Backoff.{doubled, capped, backoff_doubles, backoff_lost}
use lnxdrive.Core.ItemState.{ItemState, online, hydrating, hydrated, modified, conflicted, name}
use lnxdrive.Core.SyncItem
use lnxdrive.Core.SyncItem.{SyncItem}
use lnxdrive.Core.Transition.{
  can_transition, transition_to, transition_to_error, start_hydrating, complete_hydration, retry_to,
  reset_state_for_crash_recovery,
}
use lnxdrive.Core.Transition.Diagram.{
  ◌⟶◌, can_transition_iff, transition_to_iff, transition_to_effect,
}
use lnxdrive.Core.Transition.Invariant.{
  Call, apply, IsValid, apply-IsValid, reset_state_for_crash_recovery-IsValid,
}
use lnxdrive.Core.Transition.Traces.{is_dirty, run, run_dirty}

program : Unit {0}
unfolding SyncItem.new can_transition transition_to transition_to_error start_hydrating
    complete_hydration retry_to run
program = tt

-- A new file at the root, in a given state.
abbrev item : ItemState → SyncItem
item state = record {
  id = 7;
  local_path = record { path = [] };
  remote_id = none;
  remote_path = record { text = codes "/a" };
  state = state;
  content_hash = none;
  local_hash = none;
  size_bytes = 10;
  last_sync = none;
  last_modified_local = none;
  last_modified_remote = none;
  metadata = record {
    is_directory = false;
    mime_type = none;
    created_at = pos 0;
    etag = none;
    permissions = record { read = true; write = true; execute = true };
  };
  error_info = none;
  inode = none;
  last_accessed = none;
  hydration_progress = some 40;
}

abbrev now : DateTime
now = pos 1000

hydrated_item-IsValid : IsValid (item hydrated)
hydrated_item-IsValid = record { error_known = refl }

can_transition_iff_example : (can_transition online hydrating ≡ true) ↔ (online ⟶ hydrating)
can_transition_iff_example = can_transition_iff online hydrating

transition_to_iff_example :
    ((transition_to (item hydrated) online now).1 ≡ ok tt) ↔ (hydrated ⟶ online)
transition_to_iff_example = transition_to_iff (item hydrated) online now

transition_to_effect_example :
    (((transition_to (item modified) online now).1 ≡ ok tt)
      × ((transition_to (item modified) online now).0.state ≡ online))
    ⊎ (transition_to (item modified) online now
        ≡ (item modified, err (invalid_state (name modified) (name online))))
transition_to_effect_example = transition_to_effect (item modified) online now

apply-IsValid_example : IsValid (apply Call.dehydration (item hydrated) now).0
apply-IsValid_example = apply-IsValid Call.dehydration (item hydrated) now hydrated_item-IsValid

reset_state_example :
    IsValid (reset_state_for_crash_recovery (item hydrating) online)
    × ((reset_state_for_crash_recovery (item hydrating) online).state ≡ online)
reset_state_example = reset_state_for_crash_recovery-IsValid (item hydrating) online refl

abbrev clashed : SyncItem
clashed = item conflicted

modify_then_clash : run (item modified) (conflicted ∷ []) now ≡ ok clashed
unfolding program
modify_then_clash = refl

run_dirty_example : is_dirty clashed.state ≡ true
run_dirty_example = run_dirty (item modified) (conflicted ∷ []) now refl refl modify_then_clash

abbrev any_time : Chrono
any_time = record { is_duration = λ d. true; is_date = λ t. true }

abbrev info : ℕ → ErrorInfo
info retries = record {
  code = codes "NETWORK_ERROR";
  message = codes "offline";
  retry_count = retries;
  last_attempt = now;
  next_retry = none;
}

backoff_doubles_example :
    schedule_retry_exponential any_time (info 4) (pos 30) (pos 300) now
    ≡ some (record (info 4) { next_retry = some (now +ℤ capped (pos 300) (doubled (pos 30) 4)) })
backoff_doubles_example =
    backoff_doubles any_time (info 4) (pos 30) (pos 300) now (omega arith) refl refl

five_minutes : now +ℤ capped (pos 300) (doubled (pos 30) 4) ≡ pos 1300
unfolding ◌+ℤ◌ ◌*ℤ◌
five_minutes = refl

lost :
    schedule_retry_exponential any_time (info 31) (pos 30) (pos 300) (pos 0)
    ≡ some (record (info 31) { next_retry = some (negsuc 64424509439) })
unfolding schedule_retry_exponential multiplier ◌+ℤ◌ ◌*ℤ◌
lost = refl

backoff_lost_example : (next : DateTime) × (some (negsuc 64424509439) ≡ some next) × (next ≤ℤ pos 0)
backoff_lost_example = backoff_lost any_time (info 31) 30 300 (pos 0) (omega arith) lost
