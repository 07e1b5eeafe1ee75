-- ===== src/Examples/Watcher.antt =====
-- A queue with a delay of ten nanoseconds.
use lnxdrive.Prelude.{true, refl, ◌≡◌, ◌⊎◌, List, [], ◌∷◌, codes}
use lnxdrive.Core.SyncPath.{root_dir, normal}
use lnxdrive.Sync.Scheduler
use lnxdrive.Sync.Scheduler.{Signal, received, ticked, handle_all}
use lnxdrive.Sync.Scheduler.Requests.{waiting, last_change, last_change_waits}
use lnxdrive.Sync.Watcher
use lnxdrive.Sync.Watcher.{
  ChangeEvent, created, changed, Pending, DebouncedChangeQueue, push, poll, path, pending_count,
}

abbrev event : ChangeEvent
event = changed (root_dir ∷ normal (codes "a") ∷ [])

abbrev queue : DebouncedChangeQueue
unfolding Watcher.new
queue = push (Watcher.new 10) (created (root_dir ∷ normal (codes "b") ∷ [])) 3

abbrev signals : List Signal
signals = received event 5 ∷ ticked 9 ∷ received (created (root_dir ∷ [])) 11 ∷ []

last_change_waits_example :
    ((handle_all (Scheduler.new 10) signals).sync_requested ≡ true)
    ⊎ (waiting (path event) (handle_all (Scheduler.new 10) signals).queue.pending
        ≡ last_change (path event) (waiting (path event) (Scheduler.new 10).queue.pending) signals)
last_change_waits_example = last_change_waits (Scheduler.new 10) signals (path event) refl
