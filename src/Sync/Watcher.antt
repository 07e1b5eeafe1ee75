-- ===== src/Sync/Watcher.antt =====
-- `ChangeEvent` and `DebouncedChangeQueue` of crates/lnxdrive-sync/src/watcher.rs. An `Instant` and a
-- `Duration` are numbers of nanoseconds; the `HashMap` of pending events is an association list with
-- each path once, in no order that matters.
use lnxdrive.Prelude.{
  ℕ, ◌-◌, Bool, true, false, not, ◌&&◌, if◌then◌else◌, leb, List, [], ◌∷◌, length, is_empty,
}
use lnxdrive.Core.SyncPath.{PathBuf, path_eq}
pub mod Debounce

pub data ChangeEvent : Type 0 where
  created changed deleted : PathBuf → ChangeEvent
  renamed : PathBuf → PathBuf → ChangeEvent

unfoldable pub path : ChangeEvent → PathBuf
path (created p) = p
path (changed p) = p
path (deleted p) = p
path (renamed old destination) = destination

abbrev pub Pending : Type 0
Pending = List (PathBuf × (ChangeEvent × ℕ))

pub record DebouncedChangeQueue : Type 0 where
  pub pending : Pending
  pub debounce_delay : ℕ

unfoldable pub new : ℕ → DebouncedChangeQueue
new debounce_delay = record { pending = []; debounce_delay = debounce_delay }

unfoldable pub without : PathBuf → Pending → Pending
without p [] = []
without p ((q, entry) ∷ pending) =
    let rest = without p pending in if path_eq p q then rest else (q, entry) ∷ rest

unfoldable pub push : DebouncedChangeQueue → ChangeEvent → ℕ → DebouncedChangeQueue
unfolding path without
push self event now = record self {
  pending = (path event, (event, now)) ∷ without (path event) self.pending;
}

abbrev pub is_settled : ℕ → ℕ → ℕ → Bool
is_settled delay now timestamp = leb delay (now - timestamp)

unfoldable pub settled : ℕ → ℕ → Pending → List ChangeEvent
settled delay now [] = []
settled delay now ((p, (event, timestamp)) ∷ pending) =
    let rest = settled delay now pending in
    if is_settled delay now timestamp then event ∷ rest else rest

unfoldable pub unsettled : ℕ → ℕ → Pending → Pending
unsettled delay now [] = []
unsettled delay now ((p, (event, timestamp)) ∷ pending) =
    let rest = unsettled delay now pending in
    if is_settled delay now timestamp then rest else (p, (event, timestamp)) ∷ rest

unfoldable pub poll : DebouncedChangeQueue → ℕ → DebouncedChangeQueue × List ChangeEvent
unfolding settled unsettled
poll self now = (
  record self { pending = unsettled self.debounce_delay now self.pending },
  settled self.debounce_delay now self.pending,
)

unfoldable pub pending_count : DebouncedChangeQueue → ℕ
pending_count self = length self.pending
