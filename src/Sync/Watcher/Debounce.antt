-- ===== src/Sync/Watcher/Debounce.antt =====
-- What the `DebouncedChangeQueue` of crates/lnxdrive-sync/src/watcher.rs holds back and emits.
use lnxdrive.Prelude.{
  ℕ, ◌+◌, ◌-◌, ◌≤◌, ◌<◌, ◌≡◌, ◌⊎◌, Bool-cases, List, [], ◌∷◌, length, inl, inr, refl, arith,
}
use lnxdrive.Sync.Watcher.{
  ChangeEvent, Pending, DebouncedChangeQueue, push, poll, path, without, settled, unsettled,
  is_settled, pending_count,
}

settled_or_unsettled :
    (delay now : ℕ) (pending : Pending)
    → length (settled delay now pending) + length (unsettled delay now pending) ≡ length pending
unfolding settled unsettled
settled_or_unsettled delay now [] = omega arith
settled_or_unsettled delay now ((p, (event, timestamp)) ∷ pending) =
    ground (arith, settled_or_unsettled delay now pending)

none_settled :
    (delay now : ℕ) (pending : Pending)
    → (settled delay now (unsettled delay now pending) ≡ [])
      × (unsettled delay now (unsettled delay now pending) ≡ unsettled delay now pending)
unfolding settled unsettled
none_settled delay now [] = (refl, refl)
none_settled delay now ((p, (event, timestamp)) ∷ pending) =
    elim (Bool-cases (is_settled delay now timestamp)) [
      | inl e ↦ rw e (none_settled delay now pending)
      | inr e ↦
          rw (e, e, (none_settled delay now pending).0, (none_settled delay now pending).1)
            (refl, refl)
    ]

-- A poll emits or keeps each pending event, and a second poll at the same time emits nothing and
-- changes nothing.
pub poll_once :
    (q : DebouncedChangeQueue) (now : ℕ)
    → (length (poll q now).1 + pending_count (poll q now).0 ≡ pending_count q)
      × (poll (poll q now).0 now ≡ ((poll q now).0, []))
unfolding poll pending_count
poll_once q now = (
  settled_or_unsettled q.debounce_delay now q.pending,
  rw
      (
        (none_settled q.debounce_delay now q.pending).0,
        (none_settled q.debounce_delay now q.pending).1,
      )
      refl,
)

-- A poll at `now`, after a push at `t`, either comes before the delay has passed, and keeps the event
-- pending with the time of its push; or it comes after, and emits the event.
pub debounced :
    (q : DebouncedChangeQueue) (event : ChangeEvent) (t now : ℕ)
    → ((now - t < q.debounce_delay)
        × ((rest : Pending) × ((poll (push q event t) now).0.pending
              ≡ (path event, (event, t)) ∷ rest)))
      ⊎ ((q.debounce_delay ≤ now - t)
          × ((rest : List ChangeEvent) × ((poll (push q event t) now).1 ≡ event ∷ rest)))
unfolding poll push settled unsettled
debounced q event t now = elim (Bool-cases (is_settled q.debounce_delay now t)) [
  | inl e ↦
      inr (ground arith, (settled q.debounce_delay now (without (path event) q.pending), rw e refl))
  | inr e ↦
      inl
        (ground arith, (unsettled q.debounce_delay now (without (path event) q.pending), rw e refl))
]
