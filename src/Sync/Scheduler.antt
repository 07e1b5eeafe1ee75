-- ===== src/Sync/Scheduler.antt =====
-- `SyncScheduler` of crates/lnxdrive-sync/src/scheduler.rs as a state machine: what `select!` takes next, and
-- what other tasks do to the shared flag, is a sequence of signals, each with the time at which it is
-- handled. The end of the loop, when the channel is closed, is the last step.
use lnxdrive.Prelude.{ℕ, Bool, true, false, if◌then◌else◌, is_empty, List, [], ◌∷◌}
use lnxdrive.Sync.Watcher
use lnxdrive.Sync.Watcher.{ChangeEvent, DebouncedChangeQueue, push, poll}
pub mod Requests

pub record SyncScheduler : Type 0 where
  pub queue : DebouncedChangeQueue
  pub sync_requested : Bool

unfoldable pub new : ℕ → SyncScheduler
unfolding Watcher.new
new debounce_delay = record { queue = Watcher.new debounce_delay; sync_requested = false }

unfoldable pub enqueue : SyncScheduler → ChangeEvent → ℕ → SyncScheduler
unfolding push
enqueue self event now = record self { queue = push self.queue event now }

unfoldable pub request_sync : SyncScheduler → SyncScheduler
request_sync self = record self { sync_requested = true }

unfoldable pub clear_sync_request : SyncScheduler → SyncScheduler
clear_sync_request self = record self { sync_requested = false }

-- A tick of the timer, and what the loop does before it ends.
unfoldable pub poll_queue : SyncScheduler → ℕ → SyncScheduler
unfolding poll
poll_queue self now =
    let settled = poll self.queue now in
    record self {
      queue = settled.0;
      sync_requested = if is_empty settled.1 then self.sync_requested else true;
    }

pub data Signal : Type 0 where
  received : ChangeEvent → ℕ → Signal
  ticked : ℕ → Signal
  requested cleared : Signal

unfoldable pub handle : SyncScheduler → Signal → SyncScheduler
unfolding enqueue poll_queue request_sync clear_sync_request
handle self (received event now) = enqueue self event now
handle self (ticked now) = poll_queue self now
handle self requested = request_sync self
handle self cleared = clear_sync_request self

unfoldable pub handle_all : SyncScheduler → List Signal → SyncScheduler
unfolding handle
handle_all self [] = self
handle_all self (signal ∷ signals) = handle_all (handle self signal) signals

unfoldable pub run : SyncScheduler → List Signal → ℕ → SyncScheduler
unfolding handle_all poll_queue
run self signals closed_at = poll_queue (handle_all self signals) closed_at
